-- ===== src/Demo/Moment.antt =====
-- The moment that the demo shows, frontend/src/lib/demoMode.ts.
use industrial_safety_intell.Prelude.{
  String, Bool, true, List, [], ◌∷◌, ◌++◌, Option, none, some, map, and_then, ◌≡◌, ◌≢◌, ◌⊎◌, refl,
  sym, ap, ◌∙◌, Memᴰ, arith, Bool-cases, inl, inr, some_injective,
}
use mathlib.Core.Path.{subst}
use industrial_safety_intell.Prelude.Double.{Double}
use industrial_safety_intell.Prelude.Eq.{◌==◌, string_eq}
use industrial_safety_intell.Prelude.Lists.{
  All-Memᴰ, filter, filter-All, Memᴰ_of_filter, find, find-true,
}
use industrial_safety_intell.Api.Risk.{ScenarioSummary, RiskAssessment}
use industrial_safety_intell.Comparison.{ComparisonMoment, pick_comparison_moment}
use industrial_safety_intell.Demo.{
  DemoApi, DemoKeyMoment, load_all, in_window, tick_pairs, pair_of, load_history, load_moment,
  is_pair_of, key_moment, choose_moment, find_scenario_key_moment,
}

and_then-some :
    {A B : Type 0} (o : Option A) (f : A → Option B) (b : B)
    → and_then o f ≡ some b
    → (a : A) × (o ≡ some a) × (f a ≡ some b)
and_then-some none f b h = absurd (cc)
and_then-some (some a) f b h = (a, refl, h)

loaded_cons :
    {A B : Type 0} (f : A → Option B) (x : A) (xs : List A) (b : B) (bs : List B) (y : B)
    → f x ≡ some b
    → (Memᴰ y bs → (a : A) × Memᴰ a xs × (f a ≡ some y))
    → Memᴰ y (b ∷ bs)
    → (a : A) × Memᴰ a (x ∷ xs) × (f a ≡ some y)
loaded_cons f x xs b bs y e later (Memᴰ.head p) = (x, Memᴰ.head refl, e ∙ ap some (sym p))
loaded_cons f x xs b bs y e later (Memᴰ.tail n) = let (a, k, q) = later n in (a, Memᴰ.tail k, q)

-- What was loaded came from one of the requests.
Memᴰ-load_all :
    {A B : Type 0} (f : A → Option B) (xs : List A) (ys : List B) (y : B)
    → load_all f xs ≡ some ys
    → Memᴰ y ys
    → (x : A) × Memᴰ x xs × (f x ≡ some y)
unfolding load_all
Memᴰ-load_all f [] ys y h m = elim (subst (Memᴰ y) (sym (some_injective h)) m) [ ]
Memᴰ-load_all f (x ∷ xs) ys y h m =
    let (b, e, rest) = and_then-some (f x) _ ys h in
    let (bs, es, last) = and_then-some (load_all f xs) _ ys rest in
    loaded_cons f x xs b bs y e (λ n. Memᴰ-load_all f xs bs y es n)
      (subst (Memᴰ y) (sym (some_injective last)) m)

Memᴰ_of_append : {A : Type 0} (xs ys : List A) {a : A} → Memᴰ a (xs ++ ys) → Memᴰ a xs ⊎ Memᴰ a ys
Memᴰ_of_append [] ys m = inr m
Memᴰ_of_append (x ∷ xs) ys (Memᴰ.head p) = inl (Memᴰ.head p)
Memᴰ_of_append (x ∷ xs) ys (Memᴰ.tail m) = elim (Memᴰ_of_append xs ys m) [
  | inl n ↦ inl (Memᴰ.tail n)
  | inr n ↦ inr n
]

Memᴰ_of_map :
    {A B : Type 0} (f : A → B) (xs : List A) {b : B}
    → Memᴰ b (map f xs)
    → (a : A) × Memᴰ a xs × (f a ≡ b)
Memᴰ_of_map f [] m = elim m [ ]
Memᴰ_of_map f (x ∷ xs) (Memᴰ.head p) = (x, Memᴰ.head refl, sym p)
Memᴰ_of_map f (x ∷ xs) (Memᴰ.tail m) = let (a, n, e) = Memᴰ_of_map f xs m in (a, Memᴰ.tail n, e)

find-Memᴰ : {A : Type 0} (p : A → Bool) (xs : List A) (a : A) → find p xs ≡ some a → Memᴰ a xs
unfolding find
find-Memᴰ p [] a h = absurd (cc)
find-Memᴰ p (x ∷ xs) a h = elim (Bool-cases (p x)) [
  | inl q ↦ Memᴰ.head (sym (some_injective (rw q at h)))
  | inr q ↦ Memᴰ.tail (find-Memᴰ p xs a (rw q at h))
]

module _ {N : Type 0} ⦃d : Double N⦄ (time_of : String → N) (api : DemoApi N) where
  -- A tick that the backend holds, of a zone of the scenario and within its window.
  pub record IsTickOf (scenario : ScenarioSummary N) (m : DemoKeyMoment) : Type 0 where
    pub items : List (RiskAssessment N)
    pub item : RiskAssessment N
    pub of_scenario : Memᴰ m.zone_id scenario.zone_ids
    pub history : api.get_risk_history m.zone_id 500 ≡ some items
    pub persisted : Memᴰ item items
    pub within : in_window time_of api scenario item ≡ true
    pub same_timestamp : item.timestamp ≡ m.timestamp
    pub same_assessment : item.assessment_id ≡ m.assessment_id

  Memᴰ-tick_pairs :
      (scenario : ScenarioSummary N) (histories : List (String × List (RiskAssessment N)))
      (m : DemoKeyMoment)
      → Memᴰ m (tick_pairs time_of api scenario histories)
      → (h : String × List (RiskAssessment N)) × Memᴰ h histories
        × ((item : RiskAssessment N) × Memᴰ item h.1
            × (in_window time_of api scenario item ≡ true)
            × (pair_of time_of api h.0 item ≡ m))
  unfolding tick_pairs
  Memᴰ-tick_pairs scenario [] m w = elim w [ ]
  Memᴰ-tick_pairs scenario ((zone_id, items) ∷ rest) m w = elim (Memᴰ_of_append _ _ w) [
    | inl n ↦
        let (item, k, e) =
          Memᴰ_of_map (pair_of time_of api zone_id) (filter (in_window time_of api scenario) items)
            n in
        (
          (zone_id, items),
          Memᴰ.head refl,
          (
            item,
            Memᴰ_of_filter (in_window time_of api scenario) items k,
            All-Memᴰ _ _ (filter-All (in_window time_of api scenario) items) k,
            e,
          ),
        )
    | inr n ↦ let (h, k, r) = Memᴰ-tick_pairs scenario rest m n in (h, Memᴰ.tail k, r)
  ]

  tick_of :
      (scenario : ScenarioSummary N) (histories : List (String × List (RiskAssessment N)))
      (m : DemoKeyMoment)
      → load_all (load_history time_of api) scenario.zone_ids ≡ some histories
      → Memᴰ m (tick_pairs time_of api scenario histories)
      → IsTickOf scenario m
  tick_of scenario histories m e w =
      let (h, k, (item, i, inside, same)) = Memᴰ-tick_pairs scenario histories m w in
      let (zone_id, z, loads) =
        Memᴰ-load_all (load_history time_of api) scenario.zone_ids histories h e k in
      let (items, asked, last) = and_then-some (api.get_risk_history zone_id 500) _ h loads in
      let zone : zone_id ≡ m.zone_id =
        ap (λ x. x.0) (some_injective last) ∙ ap (λ x. x.zone_id) same in
      record {
        items = items;
        item = item;
        of_scenario = subst (λ q. Memᴰ q scenario.zone_ids) zone z;
        history = ap (λ q. api.get_risk_history q 500) (sym zone) ∙ asked;
        persisted = subst (Memᴰ item) (sym (ap (λ x. x.1) (some_injective last))) i;
        within = inside;
        same_timestamp = ap (λ x. x.timestamp) same;
        same_assessment = ap (λ x. x.assessment_id) same;
      }

  key_moment-pair :
      (chosen : ComparisonMoment N) (o : Option DemoKeyMoment) (m : DemoKeyMoment)
      → key_moment time_of api chosen o ≡ some m
      → (p : DemoKeyMoment) × (o ≡ some p)
        × (m ≡ record {
          zone_id = chosen.zone_id;
          timestamp = chosen.timestamp;
          assessment_id = p.assessment_id;
        })
  key_moment-pair chosen none m h = absurd (cc)
  key_moment-pair chosen (some p) m h = elim (Bool-cases (p.assessment_id == "")) [
    | inl q ↦ absurd (none_some (rw q at h))
    | inr q ↦ (p, refl, sym (some_injective (rw q at h)))
  ]
    where
      none_some : none ≢ some m
      none_some e = cc

  pair_of_chosen :
      (chosen : ComparisonMoment N) (p : DemoKeyMoment)
      → is_pair_of time_of api chosen p ≡ true
      → record {
        zone_id = chosen.zone_id;
        timestamp = chosen.timestamp;
        assessment_id = p.assessment_id;
      }
        ≡ p
  pair_of_chosen chosen p h =
      let zone : p.zone_id ≡ chosen.zone_id =
        (string_eq.same_iff p.zone_id chosen.zone_id).0 (ground (arith, h)) in
      let time : p.timestamp ≡ chosen.timestamp =
        (string_eq.same_iff p.timestamp chosen.timestamp).0 (ground (arith, h)) in
      λ i. record { zone_id = sym zone i; timestamp = sym time i; assessment_id = p.assessment_id }

  choose_moment-Memᴰ :
      (pairs : List DemoKeyMoment) (moments : List (ComparisonMoment N)) (m : DemoKeyMoment)
      → choose_moment time_of api pairs moments ≡ some m
      → Memᴰ m pairs
  unfolding choose_moment
  choose_moment-Memᴰ pairs moments m h =
      let (chosen, c, k) = and_then-some (pick_comparison_moment moments) _ m h in
      let (p, f, e) = key_moment-pair chosen (find (is_pair_of time_of api chosen) pairs) m k in
      let same = find-true (is_pair_of time_of api chosen) pairs f in
      subst (λ x. Memᴰ x pairs) (sym (e ∙ pair_of_chosen chosen p same))
        (find-Memᴰ (is_pair_of time_of api chosen) pairs p f)

  -- The moment that the demo shows is a tick that the backend holds: an assessment in the history
  -- of one of the scenario's zones, within the scenario's window, under its own id.
  pub find_scenario_key_moment-IsTickOf :
      (key : String) (m : DemoKeyMoment)
      → find_scenario_key_moment time_of api key ≡ some (some m)
      → (scenario : ScenarioSummary N) × (api.get_scenario key ≡ some scenario)
        × IsTickOf scenario m
  unfolding find_scenario_key_moment
  find_scenario_key_moment-IsTickOf key m h =
      let (scenario, s, rest) = and_then-some (api.get_scenario key) _ (some m) h in
      let (histories, l, last) =
        and_then-some (load_all (load_history time_of api) scenario.zone_ids) _ (some m) rest in
      let pairs = tick_pairs time_of api scenario histories in
      let (moments, k, chosen) =
        and_then-some (load_all (load_moment time_of api) pairs) _ (some m) last in
      (
        scenario,
        s,
        tick_of scenario histories m l (choose_moment-Memᴰ pairs moments m (some_injective chosen)),
      )
