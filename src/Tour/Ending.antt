-- ===== src/Tour/Ending.antt =====
-- The scenes that the tour in frontend/src/pages/PresentationModePage.tsx shows.
use industrial_safety_intell.Prelude.{
  ℕ, zero, suc, ◌+◌, ◌≤◌, String, Bool, true, false, List, Option, ◌≡◌, refl, ◌∙◌, leb, arith,
  if◌then◌else◌,
}
use industrial_safety_intell.Prelude.Double.{Double}
use industrial_safety_intell.Api.Risk.{ReplayData, ScenarioSummary}
use industrial_safety_intell.Tour.{Tour, TourEvent, last_scene, move_replay, settle, react, handle}

module _ {N : Type 0} where
  -- A tour at a scene, playing or not.
  abbrev pub Shows : ℕ → Bool → Tour N → Type 0
  Shows index playing s = (s.scene_index ≡ index) × (s.playing ≡ playing)

  either-Shows :
      (b : Bool) (index : ℕ) (playing : Bool) (s t : Tour N)
      → Shows index playing s
      → Shows index playing t
      → Shows index playing (if b then s else t)
  either-Shows true index playing s t h k = h
  either-Shows false index playing s t h k = k

module _ {N : Type 0} ⦃d : Double N⦄ (time_of : String → N) (dramatic_text : String → Bool) where
  settle-Shows :
      (before s : Tour N) (index : ℕ) (playing : Bool)
      → Shows index playing s
      → Shows index playing (settle time_of before s)
  unfolding settle move_replay
  settle-Shows before s index playing h =
      either-Shows _ index playing s _ h (either-Shows _ index playing s _ h h)

  -- The timeout of the scene fires, `n` times.
  unfoldable pub timeouts : ℕ → Tour N → Tour N
  timeouts zero s = s
  timeouts (suc n) s = timeouts n (handle time_of dramatic_text TourEvent.timeout s)

  timeout-Shows_next :
      (s : Tour N) (index : ℕ)
      → Shows index true s
      → leb last_scene index ≡ false
      → Shows (suc index) true (handle time_of dramatic_text TourEvent.timeout s)
  unfolding handle
  timeout-Shows_next s index (i, p) h =
      settle-Shows s (react time_of dramatic_text TourEvent.timeout s) (suc index) true
        (rw (p, i, h) (refl, refl))

  timeout-Shows_last :
      (s : Tour N)
      → Shows last_scene true s
      → Shows last_scene false (handle time_of dramatic_text TourEvent.timeout s)
  unfolding handle
  timeout-Shows_last s (i, p) =
      settle-Shows s (react time_of dramatic_text TourEvent.timeout s) last_scene false
        (rw (p, i) (refl, refl))

  timeouts-Shows :
      (n : ℕ) (s : Tour N) (index : ℕ)
      → Shows index true s
      → index + n ≤ last_scene
      → Shows (index + n) true (timeouts n s)
  unfolding timeouts
  timeouts-Shows zero s index (i, p) le = (i ∙ omega arith, p)
  timeouts-Shows (suc n) s index h le =
      let (i, p) =
        timeouts-Shows n (handle time_of dramatic_text TourEvent.timeout s) (suc index)
          (timeout-Shows_next s index h (ground arith)) (omega (arith, le)) in
      (i ∙ omega arith, p)

  timeouts-Shows_last :
      (n : ℕ) (s : Tour N) (index : ℕ)
      → Shows index true s
      → index + n ≡ last_scene
      → Shows last_scene false (timeouts (suc n) s)
  unfolding timeouts
  timeouts-Shows_last zero s index (i, p) e = timeout-Shows_last s (i ∙ omega (arith, e), p)
  timeouts-Shows_last (suc n) s index h e =
      timeouts-Shows_last n (handle time_of dramatic_text TourEvent.timeout s) (suc index)
        (timeout-Shows_next s index h (ground arith)) (omega (arith, e))

  start-Shows :
      (s : Tour N) (scenarios : Option (List (ScenarioSummary N))) (cached : Option (ReplayData N))
      → Shows 0 true (handle time_of dramatic_text (TourEvent.start scenarios cached) s)
  unfolding handle
  start-Shows s scenarios cached =
      settle-Shows s (react time_of dramatic_text (TourEvent.start scenarios cached) s) 0 true
        (refl, refl)

  -- Whatever the page was at, a tour that is started and left alone shows each scene in its turn, one
  -- more at each timeout, and at the timeout of the last scene it stops there.
  pub tour_course :
      (s : Tour N) (scenarios : Option (List (ScenarioSummary N))) (cached : Option (ReplayData N))
      → ((n : ℕ)
          → n ≤ last_scene
          → Shows n true
              (timeouts n (handle time_of dramatic_text (TourEvent.start scenarios cached) s)))
        × Shows last_scene false (
            timeouts
              (suc last_scene)
              (handle time_of dramatic_text (TourEvent.start scenarios cached) s))
  tour_course s scenarios cached =
      let begun = handle time_of dramatic_text (TourEvent.start scenarios cached) s in
      let shown = start-Shows s scenarios cached in
      (
        λ n le.
            let (i, p) = timeouts-Shows n begun 0 shown (omega (arith, le)) in (i ∙ omega arith, p),
        timeouts-Shows_last last_scene begun 0 shown refl,
      )
