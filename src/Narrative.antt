-- ===== src/Narrative.antt =====
-- frontend/src/lib/executiveExplanation.ts and frontend/src/lib/operationalNarrative.ts: the
-- sentences for a tick, and the story that a timeline of ticks tells.
pub mod Story
use industrial_safety_intell.Prelude.{
  String, Bool, List, [], ◌∷◌, ◌++◌, Option, none, some, not, ◌&&◌, if◌then◌else◌,
}
use industrial_safety_intell.Prelude.Dict.{get}
use industrial_safety_intell.Prelude.Double.{Double, le}
use industrial_safety_intell.Prelude.Eq.{◌==◌, string_eq}
use industrial_safety_intell.Prelude.Sort.{sort}
use industrial_safety_intell.Prelude.Text.{◌⧺◌, join}
use industrial_safety_intell.Api.Risk.{RiskAssessment, tier_upper}
use industrial_safety_intell.Justification.{
  AgentContribution, RiskJustification, fired, parse_justification,
}
use industrial_safety_intell.Recommendations.{Recommendation}

pub record NarrativeEntry : Type 0 where
  pub timestamp : String
  pub sentence : String

-- AGENT_STORY_PHRASE
abbrev pub agent_story_phrases : List (String × String)
agent_story_phrases =
    ("gas_risk", "Gas concentration increasing")
    ∷ ("worker_exposure", "Worker entered a hazardous area")
    ∷ ("equipment_status", "Equipment degradation detected")
    ∷ ("permit_intelligence", "Permit conflict detected")
    ∷ []

-- `after === tier && before !== tier`
abbrev pub entered : {N : Type 0} → String → RiskJustification N → Bool
entered tier j = (j.tier_after == tier) && not (j.tier_before == tier)

abbrev action_sentences : List Recommendation → List String
action_sentences [] = []
action_sentences (r ∷ rs) = ("Recommended action: " ⧺ r.text) ∷ []

-- `sentence !== lastSentence`
abbrev pub is_repeated : Option String → String → Bool
is_repeated none s = Bool.false
is_repeated (some last) s = s == last

module _ {N : Type 0} ⦃d : Double N⦄ where
  -- `(a, b) => b[1].risk - a[1].risk` puts `a` behind `b` where its risk is the smaller one
  abbrev pub weighs_less : String × AgentContribution N → String × AgentContribution N → Bool
  weighs_less (m, a) (n, b) = d.lt a.risk b.risk

  unfoldable pub sorted_agents : RiskJustification N → List (String × AgentContribution N)
  unfolding sort
  sorted_agents j = sort weighs_less j.agent_contributions

-- `toUpperCase` and `agentDisplayName` are parameters.
module _ {N : Type 0} ⦃d : Double N⦄ (upper_case : String → String)
    (agent_display_name : String → String) where
  abbrev second_clause : List (String × AgentContribution N) → String
  second_clause [] = ""
  second_clause ((name, agent) ∷ others) =
      if not (name == "") && le (d.of_ℕ 20) agent.risk
      then ", with " ⧺ agent_display_name name ⧺ " also elevated (" ⧺ d.to_fixed agent.risk 1 ⧺ ")"
      else ""

  abbrev agent_sentences : List (String × AgentContribution N) → List String
  agent_sentences [] = []
  agent_sentences ((name, agent) ∷ others) =
      if name == ""
      then []
      else (agent_display_name name
          ⧺ " contributed the highest raw risk this tick ("
          ⧺ d.to_fixed agent.risk 1
          ⧺ ")"
          ⧺ second_clause others
          ⧺ ".")
        ∷ []

  abbrev bonus_sentences : RiskAssessment N → RiskJustification N → List String
  bonus_sentences a j =
      if fired (some j) "interaction_bonus_applied"
      then ("An interaction bonus (×"
          ⧺ d.to_fixed j.interaction_bonus_applied 2
          ⧺ ") compounded these factors together, raising the compound score to "
          ⧺ d.to_fixed a.compound_risk_score 1
          ⧺ ".")
        ∷ []
      else []

  abbrev tier_sentence : RiskJustification N → String
  tier_sentence j =
      if j.tier_before == j.tier_after
      then "Tier held at " ⧺ upper_case j.tier_after ⧺ "."
      else "Tier moved from " ⧺ upper_case j.tier_before ⧺ " to " ⧺ upper_case j.tier_after ⧺ "."

  unfoldable pub generate_executive_explanation :
      RiskAssessment N → Option (RiskJustification N) → List Recommendation → String
  generate_executive_explanation a none rs =
      "Assessment recorded at "
      ⧺ tier_upper a.tier
      ⧺ " ("
      ⧺ d.to_fixed a.compound_risk_score 1
      ⧺ "); no structured justification is available for this tick."
  generate_executive_explanation a (some j) rs = join " " (
      agent_sentences (sorted_agents j)
      ++ bonus_sentences a j
      ++ tier_sentence j ∷ []
      ++ action_sentences rs)

module _ {N : Type 0} ⦃d : Double N⦄ (upper_case : String → String) where
  abbrev pub holding_line : RiskJustification N → Option String → String
  holding_line j none = "Tier holding at " ⧺ upper_case j.tier_after ⧺ "."
  holding_line j (some phrase) = phrase ⧺ "."

  -- The phrase of the agent that weighs most; no phrase has the empty name.
  abbrev pub top_phrase : List (String × AgentContribution N) → Option String
  top_phrase [] = none
  top_phrase ((name, agent) ∷ others) = get name agent_story_phrases

  unfoldable pub business_story_line : RiskAssessment N → Option (RiskJustification N) → String
  business_story_line a none = "Assessment recorded at " ⧺ tier_upper a.tier ⧺ "."
  business_story_line a (some j) =
      if entered "critical" j
      then "Shutdown recommended."
      else if entered "elevated" j
      then "Escalating - increased monitoring required."
      else holding_line j (top_phrase (sorted_agents j))

  abbrev pub sentence_of : RiskAssessment N → String
  sentence_of a = business_story_line a (parse_justification a.justification)

  abbrev pub narrative_entry : RiskAssessment N → NarrativeEntry
  narrative_entry a = record { timestamp = a.timestamp; sentence = sentence_of a }

  -- The loop, with the last sentence that was pushed.
  unfoldable pub narrate : Option String → List (RiskAssessment N) → List NarrativeEntry
  narrate last [] = []
  narrate last (a ∷ rest) =
      let skipped = narrate last rest in
      let pushed = narrate (some (sentence_of a)) rest in
      if is_repeated last (sentence_of a) then skipped else narrative_entry a ∷ pushed

  unfoldable pub build_operational_narrative : List (RiskAssessment N) → List NarrativeEntry
  build_operational_narrative timeline = narrate none timeline
