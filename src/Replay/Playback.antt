-- ===== src/Replay/Playback.antt =====
-- The timer of frontend/src/context/ReplayContext.tsx, expiry after expiry.
use industrial_safety_intell.Prelude.{
  ℕ, suc, zero, ◌+◌, ◌-◌, ◌<◌, ◌≤◌, String, Bool, true, false, List, [], ◌∷◌, ◌≡◌, ◌⊎◌, refl, sym,
  ap, ◌∙◌, arith, inl, inr,
}
use mathlib.Core.Path.{subst}
use industrial_safety_intell.Prelude.Double.{Double}
use industrial_safety_intell.Prelude.Int.{pos, ◌+ℤ◌, ◌-ℤ◌, ltb_ℤ}
use industrial_safety_intell.Prelude.Lists.{length}
use industrial_safety_intell.Replay.Engine.{
  ReplayState, Event, step, all_timestamps, last_index, advance, on_tick,
}

on_tick-advance :
    {N : Type 0} (playing : Bool) (axis : List String) (s : ReplayState N)
    → playing ≡ true
    → 0 < length axis
    → on_tick playing axis s ≡ advance s
on_tick-advance true [] s p h = absurd (ground arith)
on_tick-advance true (x ∷ xs) s p h = refl
on_tick-advance false axis s p h = cc

on_tick_paused :
    {N : Type 0} (playing : Bool) (axis : List String) (s : ReplayState N)
    → playing ≡ false
    → on_tick playing axis s ≡ s
on_tick_paused false axis s h = refl
on_tick_paused true axis s h = cc

last_index_lt : (n i : ℕ) → suc i < n → ltb_ℤ (pos i) (pos n -ℤ pos 1) ≡ true
unfolding ◌-ℤ◌
last_index_lt n i h = ground arith

last_index_not_lt : (n i : ℕ) → suc i ≡ n → ltb_ℤ (pos i) (pos n -ℤ pos 1) ≡ false
unfolding ◌-ℤ◌
last_index_not_lt n i h = ground arith

one_later : (i : ℕ) → pos i +ℤ pos 1 ≡ pos (suc i)
unfolding ◌+ℤ◌
one_later i = ground arith

-- The replay has stopped at the last of `m` positions.
abbrev pub HasEnded : {N : Type 0} → ℕ → ReplayState N → Type 0
HasEnded m s = (s.playing ≡ false) × (s.current_index ≡ pos (m - 1))

Nat_cases : (a b : ℕ) → (a < b) ⊎ (b ≤ a)
Nat_cases a b = ground arith

module _ {N : Type 0} ⦃d : Double N⦄ (time_of : String → N) where
  -- `n` expiries of the timer
  abbrev pub ticks : ℕ → ReplayState N → ReplayState N
  ticks zero s = s
  ticks (suc n) s = ticks n (step time_of Event.tick s)

  ticks_paused : (n : ℕ) (s : ReplayState N) → s.playing ≡ false → ticks n s ≡ s
  unfolding step
  ticks_paused zero s h = refl
  ticks_paused (suc n) s h =
      ap (ticks n) (on_tick_paused s.playing (all_timestamps s) s h) ∙ ticks_paused n s h

  compare_last :
      (s : ReplayState N) (i : ℕ)
      → s.current_index ≡ pos i
      → ltb_ℤ s.current_index (last_index s)
        ≡ ltb_ℤ (pos i) (pos (length (all_timestamps s)) -ℤ pos 1)
  unfolding last_index
  compare_last s i e = ap (λ c. ltb_ℤ c (last_index s)) e

  advance_stops :
      (s : ReplayState N) (i : ℕ)
      → s.current_index ≡ pos i
      → suc i ≡ length (all_timestamps s)
      → HasEnded (length (all_timestamps s)) (advance s)
  advance_stops s i e h =
      rw (compare_last s i e ∙ last_index_not_lt (length (all_timestamps s)) i h)
        (refl, e ∙ ap pos (omega (arith, h)))

  advance_moves :
      (s : ReplayState N) (i : ℕ)
      → s.current_index ≡ pos i
      → suc i < length (all_timestamps s)
      → advance s ≡ record s { current_index = pos (suc i) }
  advance_moves s i e h =
      rw (compare_last s i e ∙ last_index_lt (length (all_timestamps s)) i h)
        (ap (λ c. record s { current_index = c }) (ap (λ c. c +ℤ pos 1) e ∙ one_later i))

  HasEnded-paused : (n m : ℕ) (s : ReplayState N) → HasEnded m s → HasEnded m (ticks n s)
  HasEnded-paused n m s h = subst (HasEnded m) (sym (ticks_paused n s h.0)) h

  tick-advance :
      (s : ReplayState N) (i : ℕ)
      → s.playing ≡ true
      → i < length (all_timestamps s)
      → step time_of Event.tick s ≡ advance s
  unfolding step
  tick-advance s i p h = on_tick-advance s.playing (all_timestamps s) s p (omega (arith, h))

  -- Playback ends: while it plays over an axis of `m` timestamps with the cursor at `i`, `m - i`
  -- expiries of the timer or more leave it stopped at the last timestamp.
  pub ticks-HasEnded :
      (n : ℕ) (s : ReplayState N) (i : ℕ)
      → s.playing ≡ true
      → s.current_index ≡ pos i
      → i < length (all_timestamps s)
      → length (all_timestamps s) ≤ i + n
      → HasEnded (length (all_timestamps s)) (ticks n s)
  unfolding all_timestamps
  ticks-HasEnded zero s i p e h k = absurd (omega (arith, h, k))
  ticks-HasEnded (suc n) s i p e h k = elim (Nat_cases (suc i) (length (all_timestamps s))) [
    | inl q ↦
        subst (λ t. HasEnded (length (all_timestamps s)) (ticks n t))
          (sym (tick-advance s i p h ∙ advance_moves s i e q))
          (ticks-HasEnded n (record s { current_index = pos (suc i) }) (suc i) p refl q
            (omega (arith, k)))
    | inr q ↦
        subst (λ t. HasEnded (length (all_timestamps s)) (ticks n t)) (sym (tick-advance s i p h))
          (HasEnded-paused n (length (all_timestamps s)) (advance s)
            (advance_stops s i e (omega (arith, h, q))))
  ]
