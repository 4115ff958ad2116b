-- ===== src/Timeline/Telling.antt =====
-- What the events of frontend/src/lib/operatorTimeline.ts are to tell of a history.
use industrial_safety_intell.Prelude.{
  String, Bool, true, false, List, [], ◌∷◌, ◌++◌, some, Memᴰ, ◌≡◌, ◌≢◌, ◌⊎◌,
}
use industrial_safety_intell.Prelude.Double.{Double}
use industrial_safety_intell.Prelude.Lists.{All}
use industrial_safety_intell.Prelude.Text.{◌⧺◌}
use industrial_safety_intell.Api.Risk.{Tier, RiskAssessment, tier_upper}
use industrial_safety_intell.Justification.{RiskJustification, parse_justification, fired}
use industrial_safety_intell.Timeline.{TimelineEvent, TimelineEventKind}

module _ {N : Type 0} ⦃d : Double N⦄ where
  -- No event is before the one that it follows.
  abbrev pub IsInOrder : (String → N) → List TimelineEvent → Type 0
  IsInOrder time_of [] = Unit
  IsInOrder time_of (e ∷ es) =
      All (λ later. d.lt (time_of later.timestamp) (time_of e.timestamp) ≡ false) es
      × IsInOrder time_of es

  abbrev pub change_from : RiskAssessment N → RiskAssessment N → TimelineEvent
  change_from before a = record {
    timestamp = a.timestamp;
    kind = TimelineEventKind.tier_change;
    label = tier_upper before.tier ⧺ " → " ⧺ tier_upper a.tier;
  }

  abbrev pub entry_to_critical : RiskAssessment N → TimelineEvent
  entry_to_critical a = record {
    timestamp = a.timestamp;
    kind = TimelineEventKind.critical;
    label = "Entered CRITICAL";
  }

  -- The events on the tier of an assessment, beside that of the assessment before it.
  pub data TellsTier (before a : RiskAssessment N) : List TimelineEvent → Type 0 where
    same : before.tier ≡ a.tier → TellsTier before a []
    moved :
        before.tier ≢ a.tier
        → a.tier ≢ Tier.critical
        → TellsTier before a (change_from before a ∷ [])
    entered :
        before.tier ≢ a.tier
        → a.tier ≡ Tier.critical
        → TellsTier before a (change_from before a ∷ entry_to_critical a ∷ [])

  -- The assessment's justification can be read and says that the bonus was applied.
  abbrev pub has_bonus : RiskAssessment N → Bool
  has_bonus a = fired (parse_justification a.justification) "interaction_bonus_applied"

  -- The events on the bonus of an assessment, where `was` is whether the one before it had it.
  pub data TellsBonus (was : Bool) (a : RiskAssessment N) : List TimelineEvent → Type 0 where
    nothing : (has_bonus a ≡ false) ⊎ (was ≡ true) → TellsBonus was a []
    applied :
        (j : RiskJustification N)
        → parse_justification a.justification ≡ some j
        → has_bonus a ≡ true
        → was ≡ false
        → TellsBonus was a (
            record {
              timestamp = a.timestamp;
              kind = TimelineEventKind.interaction_bonus;
              label =
                  "Interaction bonus applied (×" ⧺ d.to_fixed j.interaction_bonus_applied 2 ⧺ ")";
            }
            ∷ [])

  -- The events of the assessments that follow one.
  pub data TellsAfter
      : RiskAssessment N → List (RiskAssessment N) → List TimelineEvent → Type 0 where
    ended : {before : RiskAssessment N} → TellsAfter before [] []
    then :
        {before a : RiskAssessment N} {rest : List (RiskAssessment N)}
        {es fs gs : List TimelineEvent}
        → TellsTier before a es
        → TellsBonus (has_bonus before) a fs
        → TellsAfter a rest gs
        → TellsAfter before (a ∷ rest) ((es ++ fs) ++ gs)

  -- The events of a history but its peak.
  pub data Tells : List (RiskAssessment N) → List TimelineEvent → Type 0 where
    empty : Tells [] []
    begun :
        {a : RiskAssessment N} {rest : List (RiskAssessment N)} {fs gs : List TimelineEvent}
        → TellsBonus false a fs
        → TellsAfter a rest gs
        → Tells (a ∷ rest) (fs ++ gs)

  -- The one event of an assessment with the highest score, and none of an empty history.
  pub data TellsPeak : List (RiskAssessment N) → List TimelineEvent → Type 0 where
    no_peak : TellsPeak [] []
    peak :
        {assessments : List (RiskAssessment N)} (top : RiskAssessment N)
        → Memᴰ top assessments
        → All (λ a. d.lt top.compound_risk_score a.compound_risk_score ≡ false) assessments
        → TellsPeak assessments (
            record {
              timestamp = top.timestamp;
              kind = TimelineEventKind.highest_risk;
              label = "Highest compound score this window: " ⧺ d.to_fixed top.compound_risk_score 1;
            }
            ∷ [])
