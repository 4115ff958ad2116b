-- ===== src/Justification.antt =====
-- frontend/src/lib/justification.ts: the parse of an assessment's justification.
pub mod Parsing
use industrial_safety_intell.Prelude.Dict
use industrial_safety_intell.Prelude.Eq.{includes, string_eq}
use industrial_safety_intell.Prelude.{
  String, Bool, false, List, [], ◌∷◌, Option, none, some, or_else,
}
use industrial_safety_intell.Api.Json.{
  Json, Items, Fields, num, str, obj, nil, cons, get, as_number, as_string, as_array, as_entries,
}

pub record AgentContribution (N : Type 0) : Type 0 where
  pub risk : N
  pub confidence : N

pub record RiskJustification (N : Type 0) : Type 0 where
  pub schema_version : N
  pub rules_fired : List String
  pub agent_contributions : List (String × AgentContribution N)
  pub interaction_bonus_applied : N
  pub tier_before : String
  pub tier_after : String

infixl 5 ◌>>=◌
abbrev pub ◌>>=◌ {ℓ κ} : {A : Type ℓ} {B : Type κ} → Option A → (A → Option B) → Option B
none >>= f = none
some a >>= f = f a

module _ {N : Type 0} where
  -- `justification?.agentContributions[agent]`
  unfoldable pub contribution_of :
      Option (RiskJustification N) → String → Option (AgentContribution N)
  unfolding Dict.get
  contribution_of none agent = none
  contribution_of (some j) agent = Dict.get agent j.agent_contributions

  -- `justification?.rulesFired.includes(rule) ?? false`
  unfoldable pub fired : Option (RiskJustification N) → String → Bool
  unfolding includes
  fired none rule = false
  fired (some j) rule = includes j.rules_fired rule

  -- The guard `isAgentContribution`, with the value that it lets through. The fields of an array
  -- are its indices, so an array has neither `risk` nor `confidence`.
  unfoldable pub as_agent_contribution : Json N → Option (AgentContribution N)
  as_agent_contribution (obj fs) = do
    risk ← as_number (get fs "risk")
    confidence ← as_number (get fs "confidence")
    some (record { risk = risk; confidence = confidence })
  as_agent_contribution _ = none

  -- The loop over `Object.entries(contributions)`, which gives up at the first misfit.
  unfoldable pub parse_contributions :
      List (String × Json N) → Option (List (String × AgentContribution N))
  parse_contributions [] = some []
  parse_contributions ((agent, value) ∷ rest) =
      let later = parse_contributions rest in
      do
        contribution ← as_agent_contribution value
        others ← later
        some ((agent, contribution) ∷ others)

  -- `rules_fired.filter((rule) => typeof rule === "string")`
  unfoldable pub string_items : Items N → List String
  string_items nil = []
  string_items (cons (str s) rest) = s ∷ string_items rest
  string_items (cons _ rest) = string_items rest

  unfoldable pub parse_justification : Fields N → Option (RiskJustification N)
  unfolding get as_number as_string as_array as_entries as_agent_contribution parse_contributions
      string_items
  parse_justification raw = do
    schema_version ← as_number (get raw "schema_version")
    rules_fired ← as_array (get raw "rules_fired")
    contributions ← as_entries (get raw "agent_contributions")
    interaction_bonus_applied ← as_number (get raw "interaction_bonus_applied")
    tier_before ← as_string (get raw "tier_before")
    tier_after ← as_string (get raw "tier_after")
    agent_contributions ← parse_contributions contributions
    some (record {
      schema_version = schema_version;
      rules_fired = string_items rules_fired;
      agent_contributions = agent_contributions;
      interaction_bonus_applied = interaction_bonus_applied;
      tier_before = tier_before;
      tier_after = tier_after;
    })
