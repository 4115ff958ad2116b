-- ===== src/Replay/Cursor.antt =====
-- Runs of the replay in frontend/src/context/ReplayContext.tsx, and its cursor after them.
use industrial_safety_intell.Prelude.{
  ℕ, suc, zero, ◌-◌, ◌<◌, ◌≤◌, String, Bool, true, false, List, [], ◌∷◌, Option, none, some,
  is_some, ◌≡◌, ◌≢◌, ◌⊎◌, refl, arith, Bool-cases, inl, inr,
}
use industrial_safety_intell.Prelude.Double.{Double, IsOrdered}
use industrial_safety_intell.Prelude.Eq.{◌==◌, string_eq}
use industrial_safety_intell.Prelude.Int.{ℤ, pos, negsuc, ◌-ℤ◌, ltb_ℤ}
use industrial_safety_intell.Prelude.Lists.{length, lt-get_elem?, get_elem?-lt}
use industrial_safety_intell.Api.Risk.{ReplayData}
use industrial_safety_intell.Replay.{find_nearest_timestamp_index}
use industrial_safety_intell.Replay.Engine.{
  ReplayState, ReplayTarget, Event, render, on_tick, advance, begin_if, turn_off, put_bookmark,
  receive, step, all_timestamps, last_index, current_timestamp, initial_state, at, axis_of,
}
use industrial_safety_intell.Replay.Range.{
  IsWithin, IsLow, IsWithin-zero, IsWithin-next, IsWithin-previous, IsWithin-scrub,
  IsWithin-advance, IsWithin-index, IsWithin-loaded,
}
use industrial_safety_intell.Replay.Lookups.{find_nearest_timestamp_index-nearest}

abbrev pub Anything : {N : Type 0} → Event N → ReplayState N → Type 0
Anything e s = Unit

-- Every event but `next` on an empty axis.
abbrev pub NoEmptyNext : {N : Type 0} → Event N → ReplayState N → Type 0
NoEmptyNext Event.next s = all_timestamps s ≢ []
NoEmptyNext e s = Unit

module _ {N : Type 0} ⦃d : Double N⦄ (time_of : String → N) where
  -- The states that events with the property `P` lead to, from the state before any target.
  pub data Run (P : Event N → ReplayState N → Type 0) : ReplayState N → Type 0 where
    begin : (one : N) → Run P (initial_state one)
    then : {s : ReplayState N} (e : Event N) → P e s → Run P s → Run P (step time_of e s)

  find_nearest_timestamp_index-lt :
      (ts : List String) (target : String)
      → IsOrdered d
      → ts ≢ []
      → find_nearest_timestamp_index time_of ts target < length ts
  find_nearest_timestamp_index-lt ts target laws n =
      let (t, g, all) = find_nearest_timestamp_index-nearest time_of ts target laws n in
      get_elem?-lt ts (find_nearest_timestamp_index time_of ts target) g

  find_nearest_timestamp_index_le :
      (ts : List String) (target : String)
      → IsOrdered d
      → find_nearest_timestamp_index time_of ts target ≤ length ts - 1
  unfolding find_nearest_timestamp_index
  find_nearest_timestamp_index_le [] target laws = omega arith
  find_nearest_timestamp_index_le (t ∷ ts) target laws =
      omega (arith, find_nearest_timestamp_index-lt (t ∷ ts) target laws (λ e. cc))

module _ {N : Type 0} where
  abbrev IsAtCursor : ℤ → ReplayState N → Type 0
  IsAtCursor low s = IsWithin low (length (all_timestamps s)) s.current_index

  begin_if-IsAtCursor :
      (low : ℤ) (t : Option ReplayTarget) (s : ReplayState N)
      → IsLow low
      → IsAtCursor low s
      → IsAtCursor low (begin_if (is_some t) (turn_off t s))
  unfolding all_timestamps
  begin_if-IsAtCursor low none s l h = h
  begin_if-IsAtCursor low (some t) s l h = IsWithin-zero low 0 l

  advance-IsAtCursor : (low : ℤ) (s : ReplayState N) → IsAtCursor low s → IsAtCursor low (advance s)
  unfolding all_timestamps last_index
  advance-IsAtCursor low s h = elim (Bool-cases (ltb_ℤ s.current_index (last_index s))) [
    | inl q ↦ rw q (IsWithin-advance low (length (all_timestamps s)) s.current_index h q)
    | inr q ↦ rw q h
  ]

  on_tick-IsAtCursor :
      (low : ℤ) (playing : Bool) (axis : List String) (s : ReplayState N)
      → IsAtCursor low s
      → IsAtCursor low (on_tick playing axis s)
  on_tick-IsAtCursor low false axis s h = h
  on_tick-IsAtCursor low true [] s h = h
  on_tick-IsAtCursor low true (t ∷ ts) s h = advance-IsAtCursor low s h

  put_bookmark-IsAtCursor :
      (low : ℤ) (t : Option String) (id label : String) (s : ReplayState N)
      → IsAtCursor low s
      → IsAtCursor low (put_bookmark t id label s)
  unfolding all_timestamps
  put_bookmark-IsAtCursor low none id label s h = h
  put_bookmark-IsAtCursor low (some t) id label s h = elim (Bool-cases (t == "")) [
    | inl q ↦ rw q h
    | inr q ↦ rw q h
  ]

  receive-IsAtCursor :
      (low : ℤ) (t : Option ReplayTarget) (old : Option (ReplayData N)) (p : ReplayData N)
      (s : ReplayState N)
      → s.payload ≡ old
      → IsAtCursor low s
      → IsAtCursor low (receive t old p s)
  unfolding all_timestamps
  receive-IsAtCursor low none old p s e h = h
  receive-IsAtCursor low (some t) (some x) p s e h = h
  receive-IsAtCursor low (some t) none p s e h =
      IsWithin-loaded low (length (axis_of (some p))) s.current_index (rw e at h)

some_ne_none : {o : Option String} {t : String} → o ≡ some t → o ≢ none
some_ne_none e q = cc

List_cases : (xs : List String) → (xs ≡ []) ⊎ (0 < length xs)
List_cases [] = inl refl
List_cases (x ∷ xs) = inr (omega arith)

module _ {N : Type 0} ⦃d : Double N⦄ (time_of : String → N) where
  -- `next` needs an axis whose last index is not below `low`.
  abbrev Allows : ℤ → Event N → ReplayState N → Type 0
  Allows low Event.next s = ltb_ℤ (last_index s) low ≡ false
  Allows low e s = Unit

  step-IsAtCursor :
      (low : ℤ) (e : Event N) (s : ReplayState N)
      → IsOrdered d
      → IsLow low
      → Allows low e s
      → IsAtCursor low s
      → IsAtCursor low (step time_of e s)
  unfolding step render all_timestamps last_index
  step-IsAtCursor low (Event.start_replay t c) s laws l a h =
      IsWithin-zero low (length (axis_of c)) l
  step-IsAtCursor low Event.exit_replay s laws l a h = begin_if-IsAtCursor low s.target s l h
  step-IsAtCursor low Event.play s laws l a h = h
  step-IsAtCursor low Event.pause s laws l a h = h
  step-IsAtCursor low Event.reset s laws l a h = IsWithin-zero low (length (all_timestamps s)) l
  step-IsAtCursor low Event.next s laws l a h =
      IsWithin-next low (length (all_timestamps s)) s.current_index a h
  step-IsAtCursor low Event.previous s laws l a h =
      IsWithin-previous low (length (all_timestamps s)) s.current_index l h
  step-IsAtCursor low Event.tick s laws l a h =
      on_tick-IsAtCursor low s.playing (all_timestamps s) s h
  step-IsAtCursor low (Event.scrub_to_index i) s laws l a h =
      IsWithin-scrub low (length (all_timestamps s)) i l
  step-IsAtCursor low (Event.jump_to_timestamp t) s laws l a h =
      IsWithin-index low (length (all_timestamps s))
        (find_nearest_timestamp_index time_of (all_timestamps s) t) l
        (find_nearest_timestamp_index_le time_of (all_timestamps s) t laws)
  step-IsAtCursor low (Event.set_speed x) s laws l a h = h
  step-IsAtCursor low (Event.add_custom_bookmark id label) s laws l a h =
      put_bookmark-IsAtCursor low (current_timestamp s) id label s h
  step-IsAtCursor low (Event.loaded p) s laws l a h =
      receive-IsAtCursor low s.target s.payload p s refl h

  Run-IsAtCursor :
      (low : ℤ) (P : Event N → ReplayState N → Type 0) {s : ReplayState N}
      → IsOrdered d
      → IsLow low
      → ((e : Event N) (t : ReplayState N) → P e t → Allows low e t)
      → Run time_of P s
      → IsAtCursor low s
  unfolding all_timestamps
  Run-IsAtCursor low P laws l f (Run.begin one) = IsWithin-zero low 0 l
  Run-IsAtCursor low P laws l f (Run.then {s} e p r) =
      step-IsAtCursor low e s laws l (f e s p) (Run-IsAtCursor low P laws l f r)

  Anything-Allows : (e : Event N) (s : ReplayState N) → Anything e s → Allows (negsuc 0) e s
  unfolding last_index ◌-ℤ◌
  Anything-Allows Event.next s h = ground arith
  Anything-Allows e s h = tt

  NoEmptyNext-Allows : (e : Event N) (s : ReplayState N) → NoEmptyNext e s → Allows (pos 0) e s
  unfolding last_index ◌-ℤ◌
  NoEmptyNext-Allows Event.next s h = elim (List_cases (all_timestamps s)) [
    | inl q ↦ absurd (h q)
    | inr q ↦ ground (arith, q)
  ]
  NoEmptyNext-Allows e s h = tt

  in_bounds : (n : ℕ) (i : ℤ) → IsWithin (negsuc 0) n i → (ltb_ℤ i (pos n) ≡ true) ⊎ (i ≡ pos 0)
  in_bounds n (pos zero) h = inr refl
  in_bounds n (pos (suc i)) h = inl (ground arith)
  in_bounds n (negsuc i) h = inl (ground arith)

  at-some :
      (xs : List String) (i : ℤ) → 0 < length xs → IsWithin (pos 0) (length xs) i → at xs i ≢ none
  at-some xs (pos i) n h = let (t, e) = lt-get_elem? xs i (ground arith) in some_ne_none e
  at-some xs (negsuc i) n h = absurd (ground arith)

  -- After any run the cursor is -1, 0, or a position of the axis.
  pub Run-current_index_bounds :
      (s : ReplayState N)
      → IsOrdered d
      → Run time_of (Anything) s
      → (ltb_ℤ s.current_index (negsuc 0) ≡ false)
        × ((ltb_ℤ s.current_index (pos (length (all_timestamps s))) ≡ true)
            ⊎ (s.current_index ≡ pos 0))
  Run-current_index_bounds s laws r =
      let (low, high) = Run-IsAtCursor (negsuc 0) (Anything) laws refl Anything-Allows r in
      (low, in_bounds (length (all_timestamps s)) s.current_index (low, high))

  -- After a run in which `next` was never used on an empty axis, a timestamp is shown if the
  -- axis is not empty.
  pub Run-current_timestamp :
      (s : ReplayState N)
      → IsOrdered d
      → Run time_of (NoEmptyNext) s
      → all_timestamps s ≢ []
      → current_timestamp s ≢ none
  unfolding current_timestamp
  Run-current_timestamp s laws r n = elim (List_cases (all_timestamps s)) [
    | inl q ↦ absurd (n q)
    | inr q ↦
        at-some (all_timestamps s) s.current_index q
          (Run-IsAtCursor (pos 0) (NoEmptyNext) laws refl NoEmptyNext-Allows r)
  ]
