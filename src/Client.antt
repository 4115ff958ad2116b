-- ===== src/Client.antt =====
-- frontend/src/api/client.ts: every request of the frontend, and the errors that it ends in.
pub mod Errors
pub mod Endpoints
use industrial_safety_intell.Prelude.{
  ℕ, String, Bool, true, false, List, [], ◌∷◌, Option, none, some, or_else, ◌||◌, if◌then◌else◌,
}
use industrial_safety_intell.Prelude.Decimal.{decimal}
use industrial_safety_intell.Prelude.Dict.{set}
use industrial_safety_intell.Prelude.Double.{Double}
use industrial_safety_intell.Prelude.Eq.{◌==◌, string_eq}
use industrial_safety_intell.Prelude.Text.{◌⧺◌}
use industrial_safety_intell.Api.Json.{Json, Fields, get}

-- A parameter of a query, where `undefined` is one that is not given.
pub data QueryValue (N : Type 0) : Type 0 where
  text : String → QueryValue N
  number : N → QueryValue N
  undefined : QueryValue N

-- What `response.json()` gives: a value, or an error as a text.
pub data Body (N : Type 0) : Type 0 where
  parsed : Json N → Body N
  unreadable : String → Body N

pub record Response (N : Type 0) : Type 0 where
  pub ok : Bool
  pub status : ℕ
  pub body : Body N

-- What is sent: `POST` has the text of a body.
pub record Request : Type 0 where
  pub url : String
  pub post : Option String

-- How `fetch` ends: with a response, or with an error, where the controller was aborted or not.
pub data Fetched (N : Type 0) : Type 0 where
  answered : Response N → Fetched N
  rejected : Bool → String → Fetched N

-- The values that the constructor is called with. Those from an envelope are what the body has
-- there, `none` where it has nothing.
pub record ApiError (N : Type 0) : Type 0 where
  pub message : Option (Json N)
  pub code : Option (Json N)
  pub status : Option ℕ
  pub details : Json N

-- What is thrown: an `ApiError`, or the language's own error for a property of null.
pub data Thrown (N : Type 0) : Type 0 where
  api_error : ApiError N → Thrown N
  type_error : Thrown N

pub data Result (N : Type 0) : Type 0 where
  returned : Json N → Result N
  threw : Thrown N → Result N

-- `ErrorEnvelope`: the body's `error`, whatever it holds.
pub record ErrorEnvelope (N : Type 0) : Type 0 where
  pub error : Json N

module _ {N : Type 0} where
  -- `typeof value === "object"`, which null is
  unfoldable pub typeof_object : Json N → Bool
  typeof_object Json.null = true
  typeof_object (Json.arr xs) = true
  typeof_object (Json.obj fs) = true
  typeof_object _ = false

  abbrev pub envelope_of : Option (Json N) → Option (ErrorEnvelope N)
  envelope_of none = none
  envelope_of (some e) = if typeof_object e then some (record { error = e }) else none

  abbrev pub envelope_in : Body N → Option (ErrorEnvelope N)
  envelope_in (parsed (Json.obj fs)) = envelope_of (get fs "error")
  envelope_in _ = none

  unfoldable pub parse_error_envelope : Response N → Option (ErrorEnvelope N)
  unfolding typeof_object get
  parse_error_envelope response = envelope_in response.body

  -- `value ?? null`
  abbrev null_if_missing : Option (Json N) → Json N
  null_if_missing none = Json.null
  null_if_missing (some v) = v

  -- The `ApiError` of an envelope: its constructor's arguments read properties of `error`.
  abbrev pub envelope_error : ℕ → Json N → Thrown N
  envelope_error status Json.null = type_error
  envelope_error status (Json.obj fs) = api_error (record {
    message = get fs "message";
    code = get fs "code";
    status = some status;
    details = null_if_missing (get fs "details");
  })
  envelope_error status _ =
      api_error (record { message = none; code = none; status = some status; details = Json.null })

  abbrev pub error_of : String → String → Option ℕ → Json N → Result N
  error_of message code status details = threw (
      api_error (record {
        message = some (Json.str message);
        code = some (Json.str code);
        status = status;
        details = details;
      }))

  abbrev cause_of : String → Json N
  cause_of cause = Json.obj (Fields.field "cause" (Json.str cause) Fields.end)

  abbrev pub refuse : ℕ → Option (ErrorEnvelope N) → Result N
  refuse status (some envelope) = threw (envelope_error status envelope.error)
  refuse status none =
      error_of ("Backend returned " ⧺ decimal status ⧺ " with a malformed response body.")
        "MALFORMED_RESPONSE" (some status) Json.null

  abbrev pub accept : ℕ → Body N → Result N
  accept status (parsed v) = returned v
  accept status (unreadable cause) =
      error_of "Backend response was not valid JSON." "MALFORMED_RESPONSE" (some status)
        (cause_of cause)

  unfoldable pub handle_response : Response N → Result N
  unfolding decimal
  handle_response response =
      if response.ok
      then accept response.status response.body
      else refuse response.status (parse_error_envelope response)

  -- The `try` around `fetch`.
  unfoldable pub conclude : Fetched N → Result N
  conclude (rejected true cause) = error_of "Request timed out." "TIMEOUT" none Json.null
  conclude (rejected false cause) =
      error_of "Could not reach the backend." "NETWORK_ERROR" none (cause_of cause)
  conclude (answered response) = handle_response response

module _ {N : Type 0} ⦃d : Double N⦄ where
  -- `search.set(key, String(value))`
  abbrev set_param : List (String × String) → String → QueryValue N → List (String × String)
  set_param search key (text s) = set key s search
  set_param search key (number n) = set key (d.to_string n) search
  set_param search key undefined = search

  unfoldable pub search_params :
      List (String × String) → List (String × QueryValue N) → List (String × String)
  search_params search [] = search
  search_params search ((key, value) ∷ rest) = search_params (set_param search key value) rest

-- The parts of the platform: the text of `URLSearchParams` and of `JSON.stringify`, and `fetch`.
pub record Platform (N : Type 0) : Type 0 where
  pub search_text : List (String × String) → String
  pub stringify : Json N → String
  pub fetch : Request → Fetched N

module _ {N : Type 0} ⦃d : Double N⦄ (p : Platform N) (base_url : String) where
  unfoldable pub build_query_string : List (String × QueryValue N) → String
  build_query_string params =
      let query = p.search_text (search_params [] params) in if query == "" then "" else "?" ⧺ query

  unfoldable pub api_get : String → List (String × QueryValue N) → Result N
  unfolding conclude
  api_get path params =
      conclude (p.fetch (record { url = base_url ⧺ path ⧺ build_query_string params; post = none }))

  unfoldable pub api_post : String → Json N → Result N
  unfolding conclude
  api_post path body =
      conclude (p.fetch (record { url = base_url ⧺ path; post = some (p.stringify body) }))
