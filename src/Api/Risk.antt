-- ===== src/Api/Risk.antt =====
-- Assessments, permits, zones, scenarios and verdicts of api/types.ts.
use industrial_safety_intell.Prelude.{String, Bool, List, Option, ◌≡◌, arith}
use industrial_safety_intell.Api.Json.{Fields}

pub data Tier : Type 0 where
  normal watch elevated critical : Tier

-- A tier as the string that it is in the payload.
abbrev pub tier_text : Tier → String
tier_text normal = "normal"
tier_text watch = "watch"
tier_text elevated = "elevated"
tier_text critical = "critical"

-- `tier.toUpperCase()`
abbrev pub tier_upper : Tier → String
tier_upper normal = "NORMAL"
tier_upper watch = "WATCH"
tier_upper elevated = "ELEVATED"
tier_upper critical = "CRITICAL"

-- `tier === other`
abbrev pub is_tier : Tier → Tier → Bool
is_tier normal normal = Bool.true
is_tier watch watch = Bool.true
is_tier elevated elevated = Bool.true
is_tier critical critical = Bool.true
is_tier _ _ = Bool.false

pub is_tier_eq : (a b : Tier) → is_tier a b ≡ Bool.true → a ≡ b
is_tier_eq a b h = ground (arith, h)

pub is_tier_refl : (a : Tier) → is_tier a a ≡ Bool.true
is_tier_refl a = ground arith

pub data PermitStatus : Type 0 where
  active flagged suspend_recommended closed : PermitStatus

-- A status as the string that it is in the payload.
abbrev pub status_text : PermitStatus → String
status_text active = "active"
status_text flagged = "flagged"
status_text suspend_recommended = "suspend_recommended"
status_text closed = "closed"

pub record RiskAssessment (N : Type 0) : Type 0 where
  pub assessment_id : String
  pub zone_id : String
  pub timestamp : String
  pub compound_risk_score : N
  pub confidence : N
  pub tier : Tier
  pub justification : Fields N

pub record Permit (N : Type 0) : Type 0 where
  pub permit_id : String
  pub permit_type : String
  pub zone_id : String
  pub issued_at : String
  pub expires_at : String
  pub authorizing_officer_id : String
  pub status : PermitStatus
  pub baseline_snapshot : Fields N

pub record Zone : Type 0 where
  pub zone_id : String
  pub name : String
  pub plant_section : String
  pub oisd_area_classification : String

pub record ScenarioSummary (N : Type 0) : Type 0 where
  pub key : String
  pub title : String
  pub description : String
  pub start_time : String
  pub end_time : String
  pub zone_ids : List String
  pub seed : N

pub record CounterfactualVerdict (N : Type 0) : Type 0 where
  pub alert : Bool
  pub triggered_sensors : List String
  pub highest_ratio : Option N

pub record CompoundVerdict (N : Type 0) : Type 0 where
  pub compound_risk_score : N
  pub confidence : N
  pub tier : Tier

pub record CounterfactualComparison (N : Type 0) : Type 0 where
  pub zone_id : String
  pub timestamp : String
  pub counterfactual : CounterfactualVerdict N
  pub compound : Option (CompoundVerdict N)

pub data BookmarkKind : Type 0 where
  tier_change critical_entry interaction_bonus permit_activated highest_risk : BookmarkKind

-- A kind as the string that it is in the payload.
abbrev pub bookmark_text : BookmarkKind → String
bookmark_text tier_change = "tier_change"
bookmark_text critical_entry = "critical"
bookmark_text interaction_bonus = "interaction_bonus"
bookmark_text permit_activated = "permit_activated"
bookmark_text highest_risk = "highest_risk"

pub record ReplayBookmark : Type 0 where
  pub timestamp : String
  pub zone_id : String
  pub kind : BookmarkKind
  pub label : String
  pub assessment_id : Option String

pub record ZoneReplayTimeline (N : Type 0) : Type 0 where
  pub zone_id : String
  pub assessments : List (RiskAssessment N)

pub record ReplayData (N : Type 0) : Type 0 where
  pub zone_ids : List String
  pub start_time : String
  pub end_time : String
  pub duration_minutes : N
  pub tick_count : N
  pub zone_timelines : List (ZoneReplayTimeline N)
  pub bookmarks : List ReplayBookmark
