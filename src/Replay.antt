-- ===== src/Replay.antt =====
-- frontend/src/lib/timeline.ts and frontend/src/lib/replayTimeline.ts: the lookups of the replay.
pub mod Lookups
pub mod Engine
pub mod Range
pub mod Cursor
pub mod Bookmarks
pub mod Playback
use industrial_safety_intell.Prelude.{
  ℕ, suc, String, Bool, true, false, List, [], ◌∷◌, ◌++◌, Option, none, some, ◌&&◌, if◌then◌else◌,
}
use industrial_safety_intell.Prelude.Double.{Double, le}
use industrial_safety_intell.Prelude.Eq.{dedup_from, string_eq}
use industrial_safety_intell.Prelude.Sort.{sort}
use industrial_safety_intell.Prelude.Text.{text_gt}
use industrial_safety_intell.Api.Risk.{RiskAssessment}

-- `new Date(text).getTime()` is the parameter `time_of`, a number for every timestamp of the backend.
module _ {N : Type 0} ⦃d : Double N⦄ (time_of : String → N) where
  abbrev pub time_at : RiskAssessment N → N
  time_at a = time_of a.timestamp

  -- `best === null || itemTime > new Date(best.timestamp).getTime()`
  abbrev pub is_newer : Option (RiskAssessment N) → RiskAssessment N → Bool
  is_newer none item = true
  is_newer (some best) item = d.lt (time_at best) (time_at item)

  -- The loop, with `best` so far.
  unfoldable pub at_or_before :
      N → Option (RiskAssessment N) → List (RiskAssessment N) → Option (RiskAssessment N)
  at_or_before at_time best [] = best
  at_or_before at_time best (item ∷ rest) =
      at_or_before at_time
        (if le (time_at item) at_time && is_newer best item then some item else best) rest

  unfoldable pub assessment_at_or_before : List (RiskAssessment N) → N → Option (RiskAssessment N)
  assessment_at_or_before history at_time = at_or_before at_time none history

  -- `Math.abs(new Date(ts).getTime() - targetMs)`
  abbrev pub delta : N → String → N
  delta target_ms ts = d.abs (d.sub (time_of ts) target_ms)

  -- `delta < bestDelta`, where `none` is Infinity
  abbrev pub is_nearer : Option N → N → Bool
  is_nearer none x = true
  is_nearer (some best) x = d.lt x best

  -- The loop at position `index`, with the best index and delta so far.
  unfoldable pub nearest_from : N → ℕ → Option N → ℕ → List String → ℕ
  nearest_from target_ms index best_delta best_index [] = best_index
  nearest_from target_ms index best_delta best_index (ts ∷ rest) =
      let nearer = is_nearer best_delta (delta target_ms ts) in
      nearest_from target_ms (suc index) (if nearer then some (delta target_ms ts) else best_delta)
        (if nearer then index else best_index) rest

  unfoldable pub find_nearest_timestamp_index : List String → String → ℕ
  find_nearest_timestamp_index [] target = 0
  find_nearest_timestamp_index (ts ∷ rest) target =
      nearest_from (time_of target) 0 none 0 (ts ∷ rest)

unfoldable pub add_all : List String → List (List String) → List String
unfolding dedup_from
add_all seen [] = seen
add_all seen (timestamps ∷ rest) = add_all (dedup_from seen timestamps) rest

unfoldable pub merge_timestamps : List (List String) → List String
unfolding add_all sort
merge_timestamps per_zone = sort text_gt (add_all [] per_zone)
