-- ===== src/Judge/Playing.antt =====
-- How the playback in frontend/src/components/graph/JudgeModePlayer.tsx ends.
use industrial_safety_intell.Prelude.{
  ℕ, zero, suc, ◌+◌, Bool, true, false, List, [], ◌∷◌, not, ◌≡◌, refl, ap, ◌∙◌, arith,
}
use industrial_safety_intell.Prelude.Lists.{length}
use industrial_safety_intell.Judge.{JudgeModeStep}
use industrial_safety_intell.Judge.Player.{
  Player, PlayerEvent, handle, is_at_end, has_steps, stop_at_end,
}

module _ {N : Type 0} (steps : List (JudgeModeStep N)) where
  -- The timer fires, `n` times.
  unfoldable pub timers : ℕ → Player → Player
  timers zero p = p
  timers (suc n) p = timers n (handle steps PlayerEvent.timer p)

  abbrev pub playing_at : ℕ → Player
  playing_at index = record { step_index = index; is_playing = true }

  has_steps-length : (xs : List (JudgeModeStep N)) (n : ℕ) → length xs ≡ suc n → has_steps xs ≡ true
  has_steps-length [] n e = ground arith
  has_steps-length (x ∷ xs) n e = refl

  -- The timer goes on by one step, and at the last one the playback stops.
  timer-playing :
      (index : ℕ) (b : Bool)
      → has_steps steps ≡ true
      → is_at_end steps index ≡ false
      → is_at_end steps (suc index) ≡ b
      → handle steps PlayerEvent.timer (playing_at index)
        ≡ record { step_index = suc index; is_playing = not b }
  unfolding handle stop_at_end
  timer-playing index true h k e = rw (k, h, e) refl
  timer-playing index false h k e = rw (k, h, e) refl

  -- Played from a step that is not the last, the timer fires once for each step that is left, and then
  -- the last step is shown and the playback is off.
  pub timers_end :
      (n index : ℕ)
      → length steps ≡ index + suc (suc n)
      → timers (suc n) (playing_at index)
        ≡ record { step_index = index + suc n; is_playing = false }
  unfolding timers
  timers_end zero index e =
      timer-playing index true (has_steps-length steps (index + 1) (omega (arith, e)))
        (ground arith) (ground arith)
      ∙ ap (λ i. record { step_index = i; is_playing = false }) (omega arith)
  timers_end (suc n) index e =
      ap (timers (suc n)) (
        timer-playing index false (has_steps-length steps (index + suc (suc n)) (omega (arith, e)))
          (ground arith) (ground arith))
      ∙ timers_end n (suc index) (omega (arith, e))
      ∙ ap (λ i. record { step_index = i; is_playing = false }) (omega arith)
