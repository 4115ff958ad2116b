-- ===== src/Justification/Parsing.antt =====
-- `parseJustification` of frontend/src/lib/justification.ts and the rows it accepts.
use mathlib.Core.Path.{subst}
use industrial_safety_intell.Prelude.{
  String, List, [], ◌∷◌, Option, none, some, some_injective, ◌≡◌, ◌≢◌, ◌↔◌, refl, sym, ap, ◌∙◌,
  arith,
}
use industrial_safety_intell.Api.Json.{
  Json, Items, Fields, null, bool, num, str, arr, obj, nil, cons, end, field, get, as_number,
  as_entries, field_entries,
}
use industrial_safety_intell.Justification.{
  AgentContribution, RiskJustification, as_agent_contribution, parse_contributions, string_items,
  parse_justification,
}

module _ {N : Type 0} where
  -- The row that the Justification Builder writes for a justification.
  abbrev pub contribution_json : AgentContribution N → Json N
  contribution_json c = obj (field "risk" (num c.risk) (field "confidence" (num c.confidence) end))

  abbrev pub contribution_fields : List (String × AgentContribution N) → Fields N
  contribution_fields [] = end
  contribution_fields ((agent, c) ∷ rest) =
      field agent (contribution_json c) (contribution_fields rest)

  abbrev pub rule_items : List String → Items N
  rule_items [] = nil
  rule_items (r ∷ rest) = cons (str r) (rule_items rest)

  abbrev pub row_of : RiskJustification N → Fields N
  row_of j = field "schema_version" (num j.schema_version) (
      field "rules_fired" (arr (rule_items j.rules_fired)) (
        field "agent_contributions" (obj (contribution_fields j.agent_contributions)) (
          field "interaction_bonus_applied" (num j.interaction_bonus_applied)
            (field "tier_before" (str j.tier_before) (field "tier_after" (str j.tier_after) end)))))

string_items-rules : (N : Type 0) (rs : List String) → string_items {N = N} (rule_items rs) ≡ rs
unfolding string_items
string_items-rules N [] = refl
string_items-rules N (r ∷ rs) = rw (string_items-rules N rs)

module _ {N : Type 0} where
  parse_contributions-fields :
      (cs : List (String × AgentContribution N))
      → parse_contributions (field_entries (contribution_fields cs)) ≡ some cs
  unfolding parse_contributions field_entries as_agent_contribution get as_number
  parse_contributions-fields [] = refl
  parse_contributions-fields ((agent, c) ∷ rest) = rw (parse_contributions-fields rest)

  -- Every justification comes back from the row that the contract makes of it.
  pub parse_justification-row_of :
      (j : RiskJustification N) → parse_justification (row_of j) ≡ some j
  unfolding parse_justification
  parse_justification-row_of j =
      rw (parse_contributions-fields j.agent_contributions, string_items-rules N j.rules_fired)

  -- The texts of an array in their order, whatever else it holds.
  pub data HasTexts : Items N → List String → Type 0 where
    no_item : HasTexts nil []
    text :
        {s : String} {xs : Items N} {ss : List String}
        → HasTexts xs ss
        → HasTexts (cons (str s) xs) (s ∷ ss)
    other :
        {x : Json N} {xs : Items N} {ss : List String}
        → ((s : String) → x ≢ str s)
        → HasTexts xs ss
        → HasTexts (cons x xs) ss

  -- An object with the two numbers of a contribution.
  abbrev pub IsContribution : Json N → AgentContribution N → Type 0
  IsContribution v c =
      (fs : Fields N) × (v ≡ obj fs)
      × (get fs "risk" ≡ some (num c.risk))
      × (get fs "confidence" ≡ some (num c.confidence))

  -- The contributions of the entries, each of them with its agent, in their order.
  pub data HasContributions
      : List (String × Json N) → List (String × AgentContribution N) → Type 0 where
    no_entry : HasContributions [] []
    entry :
        {agent : String} {v : Json N} {c : AgentContribution N} {es : List (String × Json N)}
        {cs : List (String × AgentContribution N)}
        → IsContribution v c
        → HasContributions es cs
        → HasContributions ((agent, v) ∷ es) ((agent, c) ∷ cs)

  string_items-HasTexts : (xs : Items N) → HasTexts xs (string_items xs)
  unfolding string_items
  string_items-HasTexts nil = HasTexts.no_item
  string_items-HasTexts (cons (str s) xs) = HasTexts.text (string_items-HasTexts xs)
  string_items-HasTexts (cons null xs) = HasTexts.other (λ s q. cc) (string_items-HasTexts xs)
  string_items-HasTexts (cons (bool b) xs) = HasTexts.other (λ s q. cc) (string_items-HasTexts xs)
  string_items-HasTexts (cons (num n) xs) = HasTexts.other (λ s q. cc) (string_items-HasTexts xs)
  string_items-HasTexts (cons (arr ys) xs) = HasTexts.other (λ s q. cc) (string_items-HasTexts xs)
  string_items-HasTexts (cons (obj fs) xs) = HasTexts.other (λ s q. cc) (string_items-HasTexts xs)

  string_items_other :
      (x : Json N) (xs : Items N)
      → ((s : String) → x ≢ str s)
      → string_items (cons x xs) ≡ string_items xs
  unfolding string_items
  string_items_other null xs n = refl
  string_items_other (bool b) xs n = refl
  string_items_other (num m) xs n = refl
  string_items_other (str s) xs n = absurd (n s refl)
  string_items_other (arr ys) xs n = refl
  string_items_other (obj fs) xs n = refl

  HasTexts-string_items : {xs : Items N} {ss : List String} → HasTexts xs ss → string_items xs ≡ ss
  unfolding string_items
  HasTexts-string_items HasTexts.no_item = refl
  HasTexts-string_items (HasTexts.text {s} h) = ap (◌∷◌ s) (HasTexts-string_items h)
  HasTexts-string_items (HasTexts.other {x} {xs} n h) =
      string_items_other x xs n ∙ HasTexts-string_items h

  IsContribution-read' :
      (v : Json N) (c : AgentContribution N) → as_agent_contribution v ≡ some c → IsContribution v c
  unfolding as_agent_contribution as_number
  IsContribution-read' (obj fs) c h = (fs, refl, ground (arith, h), ground (arith, h))
  IsContribution-read' null c h = cc
  IsContribution-read' (bool b) c h = cc
  IsContribution-read' (num n) c h = cc
  IsContribution-read' (str s) c h = cc
  IsContribution-read' (arr xs) c h = cc

  IsContribution-read :
      (v : Json N) (c : AgentContribution N) → IsContribution v c → as_agent_contribution v ≡ some c
  unfolding as_agent_contribution as_number
  IsContribution-read v c (fs, q, r, k) = rw (q, r, k) refl

  parse_contributions_cons :
      (agent : String) (v : Json N) (rest : List (String × Json N))
      (cs : List (String × AgentContribution N)) (o : Option (AgentContribution N))
      (later : Option (List (String × AgentContribution N)))
      → as_agent_contribution v ≡ o
      → parse_contributions rest ≡ later
      → parse_contributions ((agent, v) ∷ rest) ≡ some cs
      → (c : AgentContribution N) × (others : List (String × AgentContribution N))
        × (as_agent_contribution v ≡ some c)
        × (parse_contributions rest ≡ some others)
        × (cs ≡ (agent, c) ∷ others)
  unfolding parse_contributions
  parse_contributions_cons agent v rest cs none later p q h = let bad = rw p at h in cc
  parse_contributions_cons agent v rest cs (some c) none p q h = let bad = rw (p, q) at h in cc
  parse_contributions_cons agent v rest cs (some c) (some others) p q h =
      (c, others, p, q, some_injective (sym (rw (p, q) at h)))

  parse_contributions-HasContributions :
      (es : List (String × Json N)) (cs : List (String × AgentContribution N))
      → parse_contributions es ≡ some cs
      → HasContributions es cs
  unfolding parse_contributions
  parse_contributions-HasContributions [] cs h =
      subst (HasContributions []) (some_injective h) HasContributions.no_entry
  parse_contributions-HasContributions ((agent, v) ∷ rest) cs h =
      let (c, others, p, q, e) = parse_contributions_cons agent v rest cs _ _ refl refl h in
      subst (HasContributions ((agent, v) ∷ rest)) (sym e) (
        HasContributions.entry (IsContribution-read' v c p)
          (parse_contributions-HasContributions rest others q))

  HasContributions-parse_contributions :
      {es : List (String × Json N)} {cs : List (String × AgentContribution N)}
      → HasContributions es cs
      → parse_contributions es ≡ some cs
  unfolding parse_contributions
  HasContributions-parse_contributions HasContributions.no_entry = refl
  HasContributions-parse_contributions (HasContributions.entry {agent} {v} {c} p h) =
      rw (IsContribution-read v c p, HasContributions-parse_contributions h) refl

  -- The six fields as the parser reads them.
  record IsReadAs (raw : Fields N) (j : RiskJustification N) : Type 0 where
    schema_version : get raw "schema_version" ≡ some (num j.schema_version)
    rules :
        (xs : Items N) × (get raw "rules_fired" ≡ some (arr xs)) × (string_items xs ≡ j.rules_fired)
    contributions :
        (es : List (String × Json N)) × (as_entries (get raw "agent_contributions") ≡ some es)
        × (parse_contributions es ≡ some j.agent_contributions)
    bonus : get raw "interaction_bonus_applied" ≡ some (num j.interaction_bonus_applied)
    tier_before : get raw "tier_before" ≡ some (str j.tier_before)
    tier_after : get raw "tier_after" ≡ some (str j.tier_after)

  parse_justification-IsReadAs :
      (raw : Fields N) (j : RiskJustification N) → parse_justification raw ≡ some j → IsReadAs raw j
  unfolding parse_justification
  parse_justification-IsReadAs raw j h = record {
    schema_version = ground arith;
    rules = ground arith;
    contributions = ground arith;
    bonus = ground arith;
    tier_before = ground arith;
    tier_after = ground arith;
  }

  IsReadAs-parse_justification :
      (raw : Fields N) (j : RiskJustification N) → IsReadAs raw j → parse_justification raw ≡ some j
  unfolding parse_justification
  IsReadAs-parse_justification raw j r = ground arith

  -- What a row of the justification `j` holds: the six fields, each of its type, with the values of
  -- `j`; of the array of rules every text, and of the contributions every one.
  pub record IsRowOf (raw : Fields N) (j : RiskJustification N) : Type 0 where
    pub schema_version : get raw "schema_version" ≡ some (num j.schema_version)
    pub rules : (xs : Items N) × (get raw "rules_fired" ≡ some (arr xs)) × HasTexts xs j.rules_fired
    pub contributions :
        (es : List (String × Json N)) × (as_entries (get raw "agent_contributions") ≡ some es)
        × HasContributions es j.agent_contributions
    pub bonus : get raw "interaction_bonus_applied" ≡ some (num j.interaction_bonus_applied)
    pub tier_before : get raw "tier_before" ≡ some (str j.tier_before)
    pub tier_after : get raw "tier_after" ≡ some (str j.tier_after)

  -- A row parses to a justification exactly when it holds its six fields: the rules that fired are
  -- all the texts of the array, in their order, and the contributions are those of all the entries,
  -- in their order, each with its two numbers.
  pub parse_justification_iff :
      (raw : Fields N) (j : RiskJustification N)
      → (parse_justification raw ≡ some j) ↔ IsRowOf raw j
  parse_justification_iff raw j = (
    λ h.
        let r = parse_justification-IsReadAs raw j h in
        let (xs, q, t) = r.rules in
        let (es, p, c) = r.contributions in
        record {
          schema_version = r.schema_version;
          rules = (xs, q, subst (HasTexts xs) t (string_items-HasTexts xs));
          contributions = (es, p, parse_contributions-HasContributions es j.agent_contributions c);
          bonus = r.bonus;
          tier_before = r.tier_before;
          tier_after = r.tier_after;
        },
    λ r.
        let (xs, q, t) = r.rules in
        let (es, p, c) = r.contributions in
        IsReadAs-parse_justification raw j (record {
          schema_version = r.schema_version;
          rules = (xs, q, HasTexts-string_items t);
          contributions = (es, p, HasContributions-parse_contributions c);
          bonus = r.bonus;
          tier_before = r.tier_before;
          tier_after = r.tier_after;
        }),
  )
