-- ===== src/QuickView/Launch.antt =====
-- What the launch in frontend/src/context/JudgeQuickViewContext.tsx ends in.
use industrial_safety_intell.Prelude.{
  ℕ, suc, arith, String, Bool, true, false, List, ◌∷◌, Option, none, some, ◌≡◌, refl, ap, or_else,
}
use industrial_safety_intell.Prelude.Double.{Double}
use industrial_safety_intell.Prelude.Lists.{length, get_elem?}
use industrial_safety_intell.Api.Risk.{ScenarioSummary, ReplayData}
use industrial_safety_intell.Presentation.{select_presentation_scenario, first_of}
use industrial_safety_intell.QuickView.{
  QuickView, QuickEvent, scenario_target, dramatic, run_jump, press, handle,
}
use industrial_safety_intell.Replay.Engine.{
  Event, axis_of, current_timestamp, all_timestamps, last_index, step, render, at, max_ℤ, min_ℤ,
}
use industrial_safety_intell.Prelude.Int.{pos, ◌-ℤ◌}

clamped : (n : ℕ) → max_ℤ (pos 0) (min_ℤ (pos (suc n) -ℤ pos 1) (pos (suc n) -ℤ pos 1)) ≡ pos n
unfolding ◌-ℤ◌
clamped n = ground arith

at_last :
    (xs : List String) (t : String) (ts : List String)
    → xs ≡ t ∷ ts
    → at xs (max_ℤ (pos 0) (min_ℤ (pos (length xs) -ℤ pos 1) (pos (length xs) -ℤ pos 1)))
      ≡ get_elem? (t ∷ ts) (length ts)
at_last xs t ts h = rw h (ap (at (t ∷ ts)) (clamped (length ts)))

at_first : (xs : List String) (t : String) (ts : List String) → xs ≡ t ∷ ts → at xs (pos 0) ≡ some t
at_first xs t ts h = rw h refl

module _ {N : Type 0} (dramatic_text : String → Bool) where
  first_of_or :
      (first : ScenarioSummary N) (rest : List (ScenarioSummary N)) (o : Option (ScenarioSummary N))
      → first_of dramatic_text (first ∷ rest) o ≡ some (or_else o first)
  first_of_or first rest none = refl
  first_of_or first rest (some s) = refl

module _ {N : Type 0} ⦃d : Double N⦄ (time_of : String → N) (dramatic_text : String → Bool) where
  -- The button is pressed, where the cache holds `cached` for the scenario.
  abbrev pub pressed :
      ScenarioSummary N
      → List (ScenarioSummary N)
      → Option (ReplayData N)
      → QuickView N
      → QuickView N
  pressed first rest cached s =
      handle time_of dramatic_text (QuickEvent.activate (some (first ∷ rest)) cached) s

  -- The button is pressed with nothing in the cache, and then the replay's data arrives.
  abbrev pub launched :
      ScenarioSummary N → List (ScenarioSummary N) → ReplayData N → QuickView N → QuickView N
  launched first rest payload s =
      handle time_of dramatic_text (QuickEvent.replayed (Event.loaded payload))
        (pressed first rest none s)

  -- The view after a launch from `s`: the replay of the scenario that the guided presentation selects
  -- is at the timestamp `shown`, and nothing is left to do.
  abbrev pub IsLaunched :
      Option String → List (ScenarioSummary N) → QuickView N → QuickView N → Type 0
  IsLaunched shown scenarios s after =
      ((chosen : ScenarioSummary N) × (select_presentation_scenario dramatic_text scenarios
          ≡ some chosen)
        × (after.replay.target ≡ some (scenario_target chosen.key)))
      × (current_timestamp after.replay ≡ shown)
      × (after.replay.playing ≡ false)
      × (after.presenting ≡ true)
      × (after.pending_activation ≡ false)
      × (after.visited ≡ "/mission-control" ∷ s.visited)

  -- Where no replay was on and there are scenarios, the replay of the one that the guided presentation
  -- selects is started, playback is off, the presentation mode is on, and the page is Mission
  -- Control. If the replay's data, with a timestamp at all, arrives after that, its last timestamp
  -- is shown; if the cache already held it, its first timestamp is shown and the jump is spent.
  pub handle-launched :
      (first : ScenarioSummary N) (rest : List (ScenarioSummary N)) (payload : ReplayData N)
      (s : QuickView N) (t : String) (ts : List String)
      → s.replay.target ≡ none
      → axis_of (some payload) ≡ t ∷ ts
      → IsLaunched (get_elem? (t ∷ ts) (length ts)) (first ∷ rest) s (launched first rest payload s)
        × IsLaunched (some t) (first ∷ rest) s (pressed first rest (some payload) s)
  unfolding handle press run_jump step render all_timestamps last_index current_timestamp
      select_presentation_scenario
  handle-launched first rest payload s t ts free axis =
      let chosen = dramatic dramatic_text first rest in
      let selected = first_of_or dramatic_text first rest _ in
      (
        (
          (chosen, selected, rw (free, axis) refl),
          rw (free, axis) (at_last _ t ts axis),
          rw (free, axis) refl,
          rw (free, axis) refl,
          rw (free, axis) refl,
          rw (free, axis) refl,
        ),
        (
          (chosen, selected, rw (free, axis) refl),
          rw (free, axis) (at_first _ t ts axis),
          rw free refl,
          rw (free, axis) refl,
          rw (free, axis) refl,
          rw (free, axis) refl,
        ),
      )
