-- ===== src/Journal.antt =====
-- frontend/src/lib/decisionJournal.ts and frontend/src/lib/decisionWorkspace.ts: the log of
-- decisions, and the stages in which one is worked on.
pub mod Sifting
use industrial_safety_intell.Prelude.{
  String, Bool, true, false, List, [], ◌∷◌, Option, none, some, map, ◌&&◌, ◌||◌, not, if◌then◌else◌,
}
use industrial_safety_intell.Prelude.Double.{Double}
use industrial_safety_intell.Prelude.Eq.{◌==◌, string_eq}
use industrial_safety_intell.Prelude.Lists.{any, filter}
use industrial_safety_intell.Prelude.Sort.{sort}
use industrial_safety_intell.Prelude.Text.{join}
use industrial_safety_intell.Prelude.Words.{Words, contains}
use industrial_safety_intell.Api.Risk.{Tier, Zone, RiskAssessment, is_tier}
use industrial_safety_intell.Format.{zone_label}
use industrial_safety_intell.Justification.{RiskJustification, parse_justification}

pub record JournalEntry (N : Type 0) : Type 0 where
  pub zone_id : String
  pub assessment : RiskAssessment N

-- `none` is a filter that is not set.
pub record JournalFilters : Type 0 where
  pub tier : Option Tier
  pub zone_id : Option String
  pub search : Option String

module _ {N : Type 0} ⦃d : Double N⦄ where
  -- `new Date(b...).getTime() - new Date(a...).getTime()`
  abbrev pub older : (String → N) → JournalEntry N → JournalEntry N → Bool
  older time_of a b = d.lt (time_of a.assessment.timestamp) (time_of b.assessment.timestamp)

  unfoldable pub sort_journal_entries_by_timestamp_desc :
      (String → N) → List (JournalEntry N) → List (JournalEntry N)
  unfolding sort
  sort_journal_entries_by_timestamp_desc time_of entries = sort (older time_of) entries

abbrev pub tier_fits : Option Tier → Tier → Bool
tier_fits none tier = true
tier_fits (some t) tier = is_tier tier t

-- An empty text is a filter that is not set.
abbrev pub zone_fits : Option String → String → Bool
zone_fits none zone_id = true
zone_fits (some z) zone_id = z == "" || zone_id == z

module _ {N : Type 0} (w : Words) where
  -- `justification?.rulesFired.join(" ").toLowerCase() ?? ""`
  abbrev pub rules_text : Option (RiskJustification N) → String
  rules_text none = ""
  rules_text (some j) = w.lower (join " " j.rules_fired)

  abbrev pub found_in : Option (List Zone) → String → JournalEntry N → Bool
  found_in zones search e =
      contains (w.lower (zone_label e.zone_id zones)) search
      || contains (rules_text (parse_justification e.assessment.justification)) search

  abbrev pub search_fits : Option (List Zone) → Option String → JournalEntry N → Bool
  search_fits zones none e = true
  search_fits zones (some text) e =
      let search = w.lower (w.trim text) in search == "" || found_in zones search e

  -- The early returns of the callback, as one test.
  abbrev pub entry_fits : Option (List Zone) → JournalFilters → JournalEntry N → Bool
  entry_fits zones filters e =
      if not (tier_fits filters.tier e.assessment.tier)
      then false
      else if not (zone_fits filters.zone_id e.zone_id)
      then false
      else search_fits zones filters.search e

  unfoldable pub filter_journal_entries :
      List (JournalEntry N) → Option (List Zone) → JournalFilters → List (JournalEntry N)
  unfolding filter contains zone_label parse_justification
  filter_journal_entries entries zones filters = filter (entry_fits zones filters) entries

pub data WorkspaceStageId : Type 0 where
  situation understand evidence historical forecast business_impact options : WorkspaceStageId
  recommended_action approval monitoring export : WorkspaceStageId

-- A stage as the string that it is in the source.
abbrev pub stage_text : WorkspaceStageId → String
stage_text situation = "situation"
stage_text understand = "understand"
stage_text evidence = "evidence"
stage_text historical = "historical"
stage_text forecast = "forecast"
stage_text business_impact = "business_impact"
stage_text options = "options"
stage_text recommended_action = "recommended_action"
stage_text approval = "approval"
stage_text monitoring = "monitoring"
stage_text export = "export"

pub record WorkspaceStage : Type 0 where
  pub id : WorkspaceStageId
  pub label : String

abbrev workspace_stage : WorkspaceStageId → String → WorkspaceStage
workspace_stage id label = record { id = id; label = label }

-- WORKSPACE_STAGES
abbrev pub workspace_stages : List WorkspaceStage
workspace_stages =
    workspace_stage situation "Situation"
    ∷ workspace_stage understand "Understand"
    ∷ workspace_stage evidence "Evidence"
    ∷ workspace_stage historical "Historical Context"
    ∷ workspace_stage forecast "Forecast"
    ∷ workspace_stage business_impact "Business Impact"
    ∷ workspace_stage options "Available Options"
    ∷ workspace_stage recommended_action "Recommended Action"
    ∷ workspace_stage approval "Approval"
    ∷ workspace_stage monitoring "Monitoring"
    ∷ workspace_stage export "Export"
    ∷ []

-- `none` is null
unfoldable pub is_workspace_stage_id : Option String → Bool
unfolding any
is_workspace_stage_id none = false
is_workspace_stage_id (some value) = any (λ s. stage_text s.id == value) workspace_stages
