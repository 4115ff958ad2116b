-- ===== src/Timeline.antt =====
-- frontend/src/lib/operatorTimeline.ts: the events of a zone's history.
pub mod Telling
pub mod Told
use industrial_safety_intell.Prelude.{
  ℕ, zero, suc, String, Bool, true, false, List, [], ◌∷◌, ◌++◌, Option, none, some, not, ◌&&◌,
  if◌then◌else◌,
}
use industrial_safety_intell.Prelude.Double.{Double}
use industrial_safety_intell.Prelude.Lists.{get_elem?}
use industrial_safety_intell.Prelude.Sort.{sort}
use industrial_safety_intell.Prelude.Text.{◌⧺◌}
use industrial_safety_intell.Api.Risk.{Tier, RiskAssessment, is_tier, tier_upper}
use industrial_safety_intell.Justification.{RiskJustification, parse_justification, fired}

pub data TimelineEventKind : Type 0 where
  tier_change critical interaction_bonus highest_risk : TimelineEventKind

pub record TimelineEvent : Type 0 where
  pub timestamp : String
  pub kind : TimelineEventKind
  pub label : String

abbrev pub timeline_event : String → TimelineEventKind → String → TimelineEvent
timeline_event timestamp kind label = record { timestamp = timestamp; kind = kind; label = label }

-- The variables of the loop. With no score so far, `highestScore` is -Infinity and
-- `highestIndex` is -1.
pub record Watch (N : Type 0) : Type 0 where
  pub events : List TimelineEvent
  pub previous_tier : Option Tier
  pub previous_bonus_applied : Bool
  pub highest : Option (N × ℕ)

module _ {N : Type 0} ⦃d : Double N⦄ where
  abbrev pub critical_event : RiskAssessment N → List TimelineEvent
  critical_event a =
      if is_tier a.tier Tier.critical
      then timeline_event a.timestamp critical "Entered CRITICAL" ∷ []
      else []

  abbrev pub tier_events : Option Tier → RiskAssessment N → List TimelineEvent
  tier_events none a = []
  tier_events (some t) a =
      if is_tier a.tier t
      then []
      else timeline_event a.timestamp tier_change (tier_upper t ⧺ " → " ⧺ tier_upper a.tier)
        ∷ critical_event a

  abbrev bonus_text : Option (RiskJustification N) → String
  bonus_text none = "undefined"
  bonus_text (some j) = d.to_fixed j.interaction_bonus_applied 2

  abbrev pub bonus_events :
      Bool → RiskAssessment N → Option (RiskJustification N) → List TimelineEvent
  bonus_events previous a j =
      if fired j "interaction_bonus_applied" && not previous
      then timeline_event a.timestamp interaction_bonus
          ("Interaction bonus applied (×" ⧺ bonus_text j ⧺ ")")
        ∷ []
      else []

  -- `score > highestScore`
  abbrev pub higher : N → ℕ → Option (N × ℕ) → Option (N × ℕ)
  higher score index none = some (score, index)
  higher score index (some (best, at)) =
      if d.lt best score then some (score, index) else some (best, at)

  unfoldable pub watch : Watch N → ℕ → RiskAssessment N → Watch N
  unfolding parse_justification fired
  watch w index a =
      let j = parse_justification a.justification in
      record {
        events =
            w.events ++ tier_events w.previous_tier a ++ bonus_events w.previous_bonus_applied a j;
        previous_tier = some a.tier;
        previous_bonus_applied = fired j "interaction_bonus_applied";
        highest = higher a.compound_risk_score index w.highest;
      }

  -- `assessments.forEach`, from the position `index` on.
  unfoldable pub watch_all : Watch N → ℕ → List (RiskAssessment N) → Watch N
  unfolding watch
  watch_all w index [] = w
  watch_all w index (a ∷ rest) = watch_all (watch w index a) (suc index) rest

  abbrev pub unwatched : Watch N
  unwatched = record {
    events = [];
    previous_tier = none;
    previous_bonus_applied = false;
    highest = none;
  }

  abbrev peak_event : Option (RiskAssessment N) → List TimelineEvent
  peak_event none = []
  peak_event (some peak) =
      timeline_event peak.timestamp highest_risk
        ("Highest compound score this window: " ⧺ d.to_fixed peak.compound_risk_score 1)
      ∷ []

  abbrev pub peak_events : List (RiskAssessment N) → Option (N × ℕ) → List TimelineEvent
  peak_events assessments none = []
  peak_events assessments (some (score, index)) = peak_event (get_elem? assessments index)

  -- `new Date(a.timestamp).getTime() - new Date(b.timestamp).getTime()`
  abbrev pub later_event : (String → N) → TimelineEvent → TimelineEvent → Bool
  later_event time_of a b = d.lt (time_of b.timestamp) (time_of a.timestamp)

  unfoldable pub derive_timeline_events :
      (String → N) → List (RiskAssessment N) → List TimelineEvent
  unfolding watch_all sort
  derive_timeline_events time_of assessments =
      let w = watch_all unwatched 0 assessments in
      sort (later_event time_of) (w.events ++ peak_events assessments w.highest)
