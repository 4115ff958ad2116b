-- ===== src/Replay/Bookmarks.antt =====
-- The user's bookmarks in frontend/src/context/ReplayContext.tsx.
use industrial_safety_intell.Prelude.{
  ℕ, suc, zero, String, Bool, true, false, List, [], ◌∷◌, Option, none, some, is_some, Memᴰ, ◌≡◌,
  refl, Bool-cases, inl, inr,
}
use industrial_safety_intell.Api.Risk.{ReplayData}
use industrial_safety_intell.Prelude.Double.{Double}
use industrial_safety_intell.Prelude.Eq.{◌==◌, string_eq}
use industrial_safety_intell.Prelude.Int.{ℤ, pos, negsuc, ltb_ℤ}
use industrial_safety_intell.Prelude.Lists.{All, All-append, All-imp, get_elem?}
use industrial_safety_intell.Replay.Engine.{
  ReplayState, ReplayTarget, Event, CustomBookmark, step, all_timestamps, last_index,
  current_timestamp, at, axis_of, begin_if, turn_off, render, on_tick, put_bookmark, receive,
}
use industrial_safety_intell.Replay.Cursor.{Run, Anything}

get_elem?-Memᴰ : (xs : List String) (i : ℕ) {t : String} → get_elem? xs i ≡ some t → Memᴰ t xs
get_elem?-Memᴰ [] i h = cc
get_elem?-Memᴰ (x ∷ xs) zero h = Memᴰ.head (cc)
get_elem?-Memᴰ (x ∷ xs) (suc i) h = Memᴰ.tail (get_elem?-Memᴰ xs i h)

at-Memᴰ : (xs : List String) (i : ℤ) {t : String} → at xs i ≡ some t → Memᴰ t xs
at-Memᴰ xs (pos i) h = get_elem?-Memᴰ xs i h
at-Memᴰ xs (negsuc i) h = cc

abbrev pub AreOn : List String → List CustomBookmark → Type 0
AreOn axis = All (λ b. Memᴰ b.timestamp axis)

from_nothing : {A : Type 0} (axis : List A) {a : A} → Memᴰ a [] → Memᴰ a axis
from_nothing axis m = elim m [ ]

module _ {N : Type 0} where
  abbrev AreBookmarked : ReplayState N → Type 0
  AreBookmarked s = AreOn (all_timestamps s) s.custom_bookmarks

  begin_if-AreBookmarked :
      (t : Option ReplayTarget) (s : ReplayState N)
      → AreBookmarked s
      → AreBookmarked (begin_if (is_some t) (turn_off t s))
  unfolding all_timestamps
  begin_if-AreBookmarked none s h = h
  begin_if-AreBookmarked (some t) s h = tt

  on_tick-AreBookmarked :
      (playing : Bool) (axis : List String) (s : ReplayState N)
      → AreBookmarked s
      → AreBookmarked (on_tick playing axis s)
  unfolding all_timestamps
  on_tick-AreBookmarked false axis s h = h
  on_tick-AreBookmarked true [] s h = h
  on_tick-AreBookmarked true (t ∷ ts) s h =
      elim (Bool-cases (ltb_ℤ s.current_index (last_index s))) [ inl q ↦ rw q h | inr q ↦ rw q h ]

  put_bookmark-AreBookmarked :
      (t : Option String) (id label : String) (s : ReplayState N)
      → current_timestamp s ≡ t
      → AreBookmarked s
      → AreBookmarked (put_bookmark t id label s)
  unfolding all_timestamps current_timestamp
  put_bookmark-AreBookmarked none id label s e h = h
  put_bookmark-AreBookmarked (some t) id label s e h = elim (Bool-cases (t == "")) [
    | inl q ↦ rw q h
    | inr q ↦ rw q (
        All-append _ s.custom_bookmarks (record { id = id; timestamp = t; label = label } ∷ []) h
          (at-Memᴰ (all_timestamps s) s.current_index e, tt))
  ]

  receive-AreBookmarked :
      (t : Option ReplayTarget) (old : Option (ReplayData N)) (p : ReplayData N) (s : ReplayState N)
      → s.payload ≡ old
      → AreBookmarked s
      → AreBookmarked (receive t old p s)
  unfolding all_timestamps
  receive-AreBookmarked none old p s e h = h
  receive-AreBookmarked (some t) (some x) p s e h = h
  receive-AreBookmarked (some t) none p s e h =
      All-imp _ _ s.custom_bookmarks (λ b m. from_nothing (axis_of (some p)) m) (rw e at h)

module _ {N : Type 0} ⦃d : Double N⦄ (time_of : String → N) where
  step-AreBookmarked :
      (e : Event N) (s : ReplayState N) → AreBookmarked s → AreBookmarked (step time_of e s)
  unfolding step render all_timestamps
  step-AreBookmarked (Event.start_replay t c) s h = tt
  step-AreBookmarked Event.exit_replay s h = begin_if-AreBookmarked s.target s h
  step-AreBookmarked Event.tick s h = on_tick-AreBookmarked s.playing (all_timestamps s) s h
  step-AreBookmarked (Event.add_custom_bookmark id label) s h =
      put_bookmark-AreBookmarked (current_timestamp s) id label s refl h
  step-AreBookmarked (Event.loaded p) s h = receive-AreBookmarked s.target s.payload p s refl h
  step-AreBookmarked e s h = h

  -- After any run, every bookmark that the user added is at a timestamp of the current axis.
  pub Run-bookmarks :
      (s : ReplayState N) → Run time_of Anything s → AreOn (all_timestamps s) s.custom_bookmarks
  unfolding all_timestamps
  Run-bookmarks s (Run.begin one) = tt
  Run-bookmarks s (Run.then {s = t} e p r) = step-AreBookmarked e t (Run-bookmarks t r)
