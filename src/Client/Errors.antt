-- ===== src/Client/Errors.antt =====
-- How a request of frontend/src/api/client.ts ends.
use industrial_safety_intell.Prelude.{
  ℕ, String, true, false, List, Option, none, some, ◌≡◌, ◌≢◌, refl, ap, ◌∙◌, ◌↔◌, Bool-cases, inl,
  inr,
}
use industrial_safety_intell.Prelude.Double.{Double}
use industrial_safety_intell.Prelude.Text.{◌⧺◌}
use industrial_safety_intell.Api.Json.{Json, Fields, get}
use industrial_safety_intell.Client.{
  Response, Body, Fetched, Result, Thrown, ErrorEnvelope, parse_error_envelope, handle_response,
  conclude, envelope_error, envelope_of, envelope_in, Platform, QueryValue, api_get, api_post,
  build_query_string, accept, refuse, typeof_object,
}

module _ {N : Type 0} where
  -- A response that was good and that could be read.
  abbrev pub IsReadable : Fetched N → Json N → Type 0
  IsReadable f v =
      (r : Response N) × (f ≡ Fetched.answered r) × (r.ok ≡ true) × (r.body ≡ Body.parsed v)

  -- The body of a refusal, whose error is null.
  abbrev pub HasNullError : Response N → Type 0
  HasNullError r =
      (fs : Fields N) × (r.body ≡ Body.parsed (Json.obj fs)) × (get fs "error" ≡ some Json.null)

  accepted :
      (status : ℕ) (b : Body N) (v : Json N)
      → accept status b ≡ Result.returned v
      → b ≡ Body.parsed v
  accepted status (Body.parsed w) v h = cc
  accepted status (Body.unreadable cause) v h = absurd (cc)

  refused :
      (status : ℕ) (o : Option (ErrorEnvelope N)) (v : Json N) → refuse status o ≢ Result.returned v
  refused status none v h = cc
  refused status (some e) v h = cc

  conclude-IsReadable :
      (f : Fetched N) (v : Json N) → conclude f ≡ Result.returned v → IsReadable f v
  unfolding conclude handle_response parse_error_envelope
  conclude-IsReadable (Fetched.rejected true cause) v h = absurd (cc)
  conclude-IsReadable (Fetched.rejected false cause) v h = absurd (cc)
  conclude-IsReadable (Fetched.answered r) v h = elim (Bool-cases r.ok) [
    | inl p ↦ (r, refl, p, accepted r.status r.body v (rw p at h))
    | inr p ↦ absurd (refused r.status (envelope_in r.body) v (rw p at h))
  ]

  readable_conclude : (f : Fetched N) (v : Json N) → IsReadable f v → conclude f ≡ Result.returned v
  unfolding conclude handle_response
  readable_conclude f v (r, e, ok, body) = rw (e, ok, body)

  pub conclude-returned :
      (f : Fetched N) (v : Json N) → (conclude f ≡ Result.returned v) ↔ IsReadable f v
  conclude-returned f v = (conclude-IsReadable f v, readable_conclude f v)

  -- The envelopes of a body.
  envelope_null :
      (o : Option (Json N)) (e : ErrorEnvelope N)
      → envelope_of o ≡ some e
      → e.error ≡ Json.null
      → o ≡ some Json.null
  unfolding typeof_object
  envelope_null none e h n = absurd (cc)
  envelope_null (some v) e h n = elim (Bool-cases (typeof_object v)) [
    | inl p ↦ ap some (same v e (rw p at h) ∙ n)
    | inr p ↦ absurd (none_some e (rw p at h))
  ]
    where
      same : (w : Json N) (x : ErrorEnvelope N) → some (record { error = w }) ≡ some x → w ≡ x.error
      same w x q = cc

      none_some : (x : ErrorEnvelope N) → none ≢ some x
      none_some x q = cc

  body_null :
      (b : Body N) (e : ErrorEnvelope N)
      → envelope_in b ≡ some e
      → e.error ≡ Json.null
      → (fs : Fields N) × (b ≡ Body.parsed (Json.obj fs)) × (get fs "error" ≡ some Json.null)
  body_null (Body.unreadable c) e h n = absurd (cc)
  body_null (Body.parsed (Json.obj fs)) e h n = (fs, refl, envelope_null (get fs "error") e h n)
  body_null (Body.parsed Json.null) e h n = absurd (cc)
  body_null (Body.parsed (Json.bool x)) e h n = absurd (cc)
  body_null (Body.parsed (Json.num x)) e h n = absurd (cc)
  body_null (Body.parsed (Json.str x)) e h n = absurd (cc)
  body_null (Body.parsed (Json.arr x)) e h n = absurd (cc)

  error_null :
      (status : ℕ) (v : Json N) → envelope_error status v ≡ Thrown.type_error → v ≡ Json.null
  error_null status Json.null h = refl
  error_null status (Json.bool x) h = absurd (cc)
  error_null status (Json.num x) h = absurd (cc)
  error_null status (Json.str x) h = absurd (cc)
  error_null status (Json.arr x) h = absurd (cc)
  error_null status (Json.obj x) h = absurd (cc)

  refuse_null :
      (status : ℕ) (o : Option (ErrorEnvelope N))
      → refuse status o ≡ Result.threw Thrown.type_error
      → (e : ErrorEnvelope N) × (o ≡ some e) × (e.error ≡ Json.null)
  refuse_null status none h = absurd (cc)
  refuse_null status (some e) h = (e, refl, error_null status e.error (cc))

  accept_error : (status : ℕ) (b : Body N) → accept status b ≢ Result.threw Thrown.type_error
  accept_error status (Body.parsed v) h = cc
  accept_error status (Body.unreadable c) h = cc

  -- A bad response with an error that is null.
  abbrev pub IsNullRefusal : Fetched N → Type 0
  IsNullRefusal f = (r : Response N) × (f ≡ Fetched.answered r) × (r.ok ≡ false) × HasNullError r

  conclude_null : (f : Fetched N) → conclude f ≡ Result.threw Thrown.type_error → IsNullRefusal f
  unfolding conclude handle_response parse_error_envelope
  conclude_null (Fetched.rejected true cause) h = absurd (cc)
  conclude_null (Fetched.rejected false cause) h = absurd (cc)
  conclude_null (Fetched.answered r) h = elim (Bool-cases r.ok) [
    | inl p ↦ absurd (accept_error r.status r.body (rw p at h))
    | inr p ↦
        let (e, o, n) = refuse_null r.status (envelope_in r.body) (rw p at h) in
        (r, refl, p, body_null r.body e o n)
  ]

  null_conclude : (f : Fetched N) → IsNullRefusal f → conclude f ≡ Result.threw Thrown.type_error
  unfolding conclude handle_response parse_error_envelope typeof_object
  null_conclude f (r, e, bad, (fs, body, n)) = rw (e, bad, body, n)

  pub conclude-type_error :
      (f : Fetched N) → (conclude f ≡ Result.threw Thrown.type_error) ↔ IsNullRefusal f
  conclude-type_error f = (conclude_null f, null_conclude f)

module _ {N : Type 0} ⦃d : Double N⦄ (p : Platform N) (base_url : String) where
  -- A request ends with a value exactly when the response is good and its body can be read, and
  -- then with that body.
  pub api_get-returned :
      (path : String) (params : List (String × QueryValue N)) (v : Json N)
      → (api_get p base_url path params ≡ Result.returned v)
        ↔ IsReadable
            (p.fetch (record {
              url = base_url ⧺ path ⧺ build_query_string p base_url params;
              post = none;
            }))
            v
  unfolding api_get
  api_get-returned path params v = conclude-returned _ v

  -- A request throws what is no `ApiError` exactly when a bad response carries an error that is null.
  pub api_post-type_error :
      (path : String) (body : Json N)
      → (api_post p base_url path body ≡ Result.threw Thrown.type_error)
        ↔ IsNullRefusal (p.fetch (record { url = base_url ⧺ path; post = some (p.stringify body) }))
  unfolding api_post
  api_post-type_error path body = conclude-type_error _
