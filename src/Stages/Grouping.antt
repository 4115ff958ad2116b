-- ===== src/Stages/Grouping.antt =====
-- `groupRulesByStage` of frontend/src/lib/pipelineStages.ts beside a grouping by filters.
use mathlib.Core.Path.{subst}
use mathlib.Core.List.{append-nil, append_assoc}
use industrial_safety_intell.Prelude.{
  String, true, List, [], ◌∷◌, ◌++◌, Option, none, some, ◌≡◌, refl, sym, ◌∙◌, Memᴰ, arith, or_else,
  Bool-cases, inl, inr, if◌then◌else◌,
}
use industrial_safety_intell.Prelude.Lists.{filter, Memᴰ-filter}
use industrial_safety_intell.Prelude.Dict.{get, get-set_self, get-set_ne}
use industrial_safety_intell.Prelude.Eq.{◌==◌, includes, includes-Memᴰ}
use industrial_safety_intell.Stages.{
  PipelineStage, Buckets, StageRules, rule_stage, stage_eq, same_stage, same_stage_iff, add_rule,
  fill_buckets, collect, pipeline_stage_order, group_rules_by_stage,
}

-- The rules of a stage, in the order in which they fired.
abbrev pub of_stage : PipelineStage → List String → List String
of_stage stage = filter (λ rule. rule_stage rule == stage)

-- What a bucket holds once the rules `rs` are put behind it.
abbrev behind : Option (List String) → List String → Option (List String)
behind none [] = none
behind none (r ∷ rs) = some (r ∷ rs)
behind (some old) rs = some (old ++ rs)

behind_push :
    (o : Option (List String)) (rule : String) (rs : List String)
    → behind (some (or_else o [] ++ rule ∷ [])) rs ≡ behind o (rule ∷ rs)
behind_push none rule rs = refl
behind_push (some old) rule rs = rw (append_assoc old (rule ∷ []) rs)

behind_nil : (o : Option (List String)) → behind o [] ≡ o
behind_nil none = refl
behind_nil (some old) = rw (append-nil old)

get-add_rule_self :
    (buckets : Buckets) (rule : String)
    → get (rule_stage rule) (add_rule buckets rule)
      ≡ some (or_else (get (rule_stage rule) buckets) [] ++ rule ∷ [])
unfolding add_rule
get-add_rule_self buckets rule = get-set_self (rule_stage rule) _ buckets

get-add_rule :
    (stage : PipelineStage) (buckets : Buckets) (rule : String)
    → get stage (add_rule buckets rule) ≡ (
        if rule_stage rule == stage
        then some (or_else (get stage buckets) [] ++ rule ∷ [])
        else get stage buckets)
get-add_rule stage buckets rule = elim (Bool-cases (rule_stage rule == stage)) [
  | inl p ↦ rw p (
      subst (λ s. get s (add_rule buckets rule) ≡ some (or_else (get s buckets) [] ++ rule ∷ []))
        ((same_stage_iff (rule_stage rule) stage).0 p) (get-add_rule_self buckets rule))
  | inr p ↦ rw p (unfold add_rule in get-set_ne (rule_stage rule) stage _ buckets p)
]

get-fill_buckets :
    (stage : PipelineStage) (buckets : Buckets) (rules : List String)
    → get stage (fill_buckets buckets rules) ≡ behind (get stage buckets) (of_stage stage rules)
unfolding fill_buckets filter
get-fill_buckets stage buckets [] = sym (behind_nil (get stage buckets))
get-fill_buckets stage buckets (rule ∷ rules) = elim (Bool-cases (rule_stage rule == stage)) [
  | inl p ↦
      rw (get-fill_buckets stage (add_rule buckets rule) rules, get-add_rule stage buckets rule, p)
        (behind_push (get stage buckets) rule (of_stage stage rules))
  | inr p ↦
      rw (get-fill_buckets stage (add_rule buckets rule) rules, get-add_rule stage buckets rule, p)
]

abbrev entry : PipelineStage → List String → List StageRules → List StageRules
entry stage [] later = later
entry stage (r ∷ rs) later = record { stage = stage; rules = r ∷ rs } ∷ later

-- The stages in the given order that have a rule, each with all of its rules.
abbrev pub groups : List PipelineStage → List String → List StageRules
groups [] rules = []
groups (stage ∷ stages) rules = entry stage (of_stage stage rules) (groups stages rules)

collect-groups :
    (stages : List PipelineStage) (rules : List String)
    → collect (fill_buckets [] rules) stages ≡ groups stages rules
unfolding get
collect-groups [] rules = refl
collect-groups (stage ∷ stages) rules =
    ground (arith, get-fill_buckets stage [] rules, collect-groups stages rules)

-- The groups are the stages of the pipeline in their order, those with no rule left out, and each
-- has exactly the rules of its stage, repeated ones too, in the order in which they fired.
pub group_rules_by_stage-groups :
    (rules : List String) → group_rules_by_stage rules ≡ groups pipeline_stage_order rules
unfolding group_rules_by_stage
group_rules_by_stage-groups rules = collect-groups pipeline_stage_order rules

-- `g` is a group of the stage that has the rule.
abbrev pub HoldsIn : String → PipelineStage → StageRules → Type 0
HoldsIn rule stage g = (g.stage ≡ stage) × Memᴰ rule g.rules

Memᴰ-entry :
    (stage : PipelineStage) (rs : List String) (later : List StageRules) {rule : String}
    → Memᴰ rule rs
    → (g : StageRules) × Memᴰ g (entry stage rs later) × HoldsIn rule stage g
Memᴰ-entry stage [] later m = elim m [ ]
Memᴰ-entry stage (r ∷ rs) later m =
    (record { stage = stage; rules = r ∷ rs }, Memᴰ.head refl, (refl, m))

Memᴰ-entry_later :
    (stage : PipelineStage) (rs : List String) (later : List StageRules) {g : StageRules}
    → Memᴰ g later
    → Memᴰ g (entry stage rs later)
Memᴰ-entry_later stage [] later m = m
Memᴰ-entry_later stage (r ∷ rs) later m = Memᴰ.tail m

Memᴰ-groups :
    (stages : List PipelineStage) (rules : List String) (rule : String)
    → Memᴰ rule rules
    → Memᴰ (rule_stage rule) stages
    → (g : StageRules) × Memᴰ g (groups stages rules) × HoldsIn rule (rule_stage rule) g
Memᴰ-groups [] rules rule m s = elim s [ ]
Memᴰ-groups (stage ∷ stages) rules rule m (Memᴰ.head e) =
    let there = Memᴰ-filter (λ r. rule_stage r == stage) rules m ((same_stage_iff _ _).1 e) in
    let (g, q, h) = Memᴰ-entry stage (of_stage stage rules) (groups stages rules) there in
    (g, q, (h.0 ∙ sym e, h.1))
Memᴰ-groups (stage ∷ stages) rules rule m (Memᴰ.tail s) =
    let (g, q, h) = Memᴰ-groups stages rules rule m s in
    (g, Memᴰ-entry_later stage (of_stage stage rules) (groups stages rules) q, h)

includes-order : (s : PipelineStage) → includes pipeline_stage_order s ≡ true
unfolding includes same_stage
includes-order PipelineStage.scheduler = refl
includes-order _ = refl

Memᴰ-order : (s : PipelineStage) → Memᴰ s pipeline_stage_order
Memᴰ-order s = includes-Memᴰ pipeline_stage_order s (includes-order s)

-- No rule that fired is hidden: some group of the rule's own stage has it.
pub Memᴰ-group_rules_by_stage :
    (rules : List String) (rule : String)
    → Memᴰ rule rules
    → (g : StageRules) × Memᴰ g (group_rules_by_stage rules) × HoldsIn rule (rule_stage rule) g
Memᴰ-group_rules_by_stage rules rule m =
    rw (group_rules_by_stage-groups rules)
      (Memᴰ-groups pipeline_stage_order rules rule m (Memᴰ-order (rule_stage rule)))
