-- ===== src/Demo/Course.antt =====
-- The course of a demo through its steps, frontend/src/context/DemoModeContext.tsx.
use industrial_safety_intell.Prelude.{
  ℕ, zero, suc, ◌<◌, String, Bool, true, false, List, [], ◌∷◌, ◌++◌, Option, none, some, is_some,
  leb, ◌&&◌, ◌≡◌, refl, sym, ap, ◌∙◌, arith, Bool-cases, inl, inr, if◌then◌else◌,
}
use mathlib.Core.List.{append_assoc}
use industrial_safety_intell.Prelude.Lists.{length, get_elem?, get_elem?-lt, length-append}
use industrial_safety_intell.Demo.{
  Demo, DemoStep, DemoEvent, DemoKeyMoment, idle, handle, build_steps, first_step, later_steps,
  run_effect, start_demo, finish_loading, stop_demo, go_to, act, fire,
}

-- The state after some events, one after another.
abbrev pub run : Demo → List DemoEvent → Demo
run s [] = s
run s (e ∷ es) = run (handle s e) es

abbrev pub ticks : ℕ → List DemoEvent
ticks zero = []
ticks (suc n) = DemoEvent.tick ∷ ticks n

-- The paths of the steps, each put in front of those before.
abbrev pub visit_all : List DemoStep → List String → List String
visit_all [] visited = visited
visit_all (s ∷ steps) visited = visit_all steps (s.path ∷ visited)

-- The demo while it shows `current`, behind the steps `earlier`.
abbrev showing : List DemoStep → DemoStep → List DemoStep → List String → Demo
showing earlier current later visited = record {
  active = true;
  loading = false;
  step_index = length earlier;
  steps = earlier ++ current ∷ later;
  timer = some current.duration_ms;
  visited = current.path ∷ visited;
}

get_elem?_at :
    (earlier : List DemoStep) (current : DemoStep) (later : List DemoStep)
    → get_elem? (earlier ++ current ∷ later) (length earlier) ≡ some current
get_elem?_at [] current later = refl
get_elem?_at (e ∷ earlier) current later = get_elem?_at earlier current later

get_elem?_end :
    (earlier : List DemoStep) (current : DemoStep)
    → get_elem? (earlier ++ current ∷ []) (suc (length earlier)) ≡ none
get_elem?_end [] current = refl
get_elem?_end (e ∷ earlier) current = get_elem?_end earlier current

act_at :
    (s : Demo) (earlier : List DemoStep) (current : DemoStep) (later : List DemoStep)
    (o : Option DemoStep)
    → act s (earlier ++ current ∷ later) o ≡ go_to s o
act_at s [] current later o = refl
act_at s (e ∷ earlier) current later o = refl

-- The timer of the last step ends the demo.
tick_end :
    (earlier : List DemoStep) (current : DemoStep) (visited : List String)
    → handle (showing earlier current [] visited) DemoEvent.tick ≡ idle (current.path ∷ visited)
unfolding handle run_effect stop_demo
tick_end earlier current visited =
    act_at _ earlier current [] _ ∙ rw (get_elem?_end earlier current)

go_to_at :
    (n : ℕ) (steps earlier : List DemoStep) (next : DemoStep) (later : List DemoStep)
    (visited : List String)
    → n ≡ length earlier
    → steps ≡ earlier ++ next ∷ later
    → go_to
        (record {
          active = true;
          loading = false;
          step_index = n;
          steps = steps;
          timer = none;
          visited = visited;
        })
        (get_elem? steps n)
      ≡ showing earlier next later visited
go_to_at n steps earlier next later visited e f = rw (e, f, get_elem?_at earlier next later)

-- The timer of an earlier step goes to the next one.
tick_next :
    (earlier : List DemoStep) (current next : DemoStep) (later : List DemoStep)
    (visited : List String)
    → handle (showing earlier current (next ∷ later) visited) DemoEvent.tick
      ≡ showing (earlier ++ current ∷ []) next later (current.path ∷ visited)
unfolding handle run_effect stop_demo
tick_next earlier current next later visited =
    act_at _ earlier current (next ∷ later) _
    ∙ go_to_at _ _ (earlier ++ current ∷ []) next later (current.path ∷ visited)
        (omega (arith, length-append earlier (current ∷ [])))
        (sym (append_assoc earlier (current ∷ []) (next ∷ later)))

ticks_end :
    (earlier : List DemoStep) (current : DemoStep) (later : List DemoStep) (visited : List String)
    → run (showing earlier current later visited) (ticks (suc (length later)))
      ≡ idle (visit_all (current ∷ later) visited)
ticks_end earlier current [] visited = tick_end earlier current visited
ticks_end earlier current (next ∷ later) visited =
    ap (λ s. run s (ticks (suc (length later)))) (tick_next earlier current next later visited)
    ∙ ticks_end (earlier ++ current ∷ []) next later (current.path ∷ visited)

-- A demo that is started from rest, and whose moment arrives, visits each of its steps in their
-- order, one more whenever the timer fires, and after the last step is at rest again.
pub course_of_demo :
    (encode : String → String) (moment : Option DemoKeyMoment) (visited : List String)
    → run (idle visited) (
        DemoEvent.start
        ∷ DemoEvent.loaded (build_steps encode moment)
        ∷ ticks (length (build_steps encode moment)))
      ≡ idle (visit_all (build_steps encode moment) visited)
unfolding handle start_demo run_effect finish_loading build_steps stop_demo
course_of_demo encode moment visited = ticks_end [] first_step (later_steps encode moment) visited

-- A pending timer belongs to a step of an active demo, and a demo that is not active is at the
-- start of its steps.
pub record IsConsistent (s : Demo) : Type 0 where
  pub timed_active : is_some s.timer ≡ true → s.active ≡ true
  pub timed_within : is_some s.timer ≡ true → s.step_index < length s.steps
  pub rests_at_first : s.active ≡ false → s.step_index ≡ 0

idle-IsConsistent : (visited : List String) → IsConsistent (idle visited)
idle-IsConsistent visited = record {
  timed_active = λ h. absurd (cc);
  timed_within = λ h. absurd (cc);
  rests_at_first = λ h. refl;
}

go_to-IsConsistent :
    (s : Demo) (o : Option DemoStep)
    → s.active ≡ true
    → get_elem? s.steps s.step_index ≡ o
    → IsConsistent (go_to s o)
unfolding stop_demo
go_to-IsConsistent s none a h = idle-IsConsistent s.visited
go_to-IsConsistent s (some x) a h = record {
  timed_active = λ t. a;
  timed_within = λ t. get_elem?-lt s.steps s.step_index h;
  rests_at_first = λ r. absurd (cc);
}

act-IsConsistent :
    (s : Demo) (steps : List DemoStep)
    → s.active ≡ true
    → is_some s.timer ≡ false
    → IsConsistent (act s steps (get_elem? s.steps s.step_index))
act-IsConsistent s [] a t = record {
  timed_active = λ h. absurd (cc);
  timed_within = λ h. absurd (cc);
  rests_at_first = λ h. absurd (cc);
}
act-IsConsistent s (x ∷ xs) a t = go_to-IsConsistent s (get_elem? s.steps s.step_index) a refl

run_effect-IsConsistent :
    (s : Demo) → (s.active ≡ false → s.step_index ≡ 0) → IsConsistent (run_effect s)
unfolding run_effect
run_effect-IsConsistent s h = pick s.active refl
  where
    pick :
        (b : Bool)
        → s.active ≡ b
        → IsConsistent (
            let cleared = record s { timer = none } in
            if b then act cleared s.steps (get_elem? s.steps s.step_index) else cleared)
    pick true a = act-IsConsistent (record s { timer = none }) s.steps a refl
    pick false a = record {
      timed_active = λ t. absurd (cc);
      timed_within = λ t. absurd (cc);
      rests_at_first = h;
    }

start_demo-IsConsistent : (s : Demo) → IsConsistent (start_demo s)
unfolding start_demo
start_demo-IsConsistent s = elim (Bool-cases (s.active && leb s.step_index 0)) [
  | inl p ↦ rw p (record {
    timed_active = λ t. refl;
    timed_within = λ t. absurd (cc);
    rests_at_first = λ t. refl;
  })
  | inr p ↦ rw p (
      run_effect-IsConsistent
        (record s { active = true; loading = true; step_index = 0; timer = none }) (λ t. refl))
]

fire-IsConsistent :
    (s : Demo) (o : Option ℕ) → s.timer ≡ o → IsConsistent s → IsConsistent (fire s o)
fire-IsConsistent s none e h = h
fire-IsConsistent s (some ms) e h =
    run_effect-IsConsistent (record s { step_index = suc s.step_index; timer = none })
      (λ r. absurd (ground (arith, r, h.timed_active, e)))

handle-IsConsistent : (s : Demo) (e : DemoEvent) → IsConsistent s → IsConsistent (handle s e)
unfolding handle finish_loading stop_demo
handle-IsConsistent s DemoEvent.start h = start_demo-IsConsistent s
handle-IsConsistent s (DemoEvent.loaded steps) h =
    run_effect-IsConsistent (record s { loading = false; steps = steps }) h.rests_at_first
handle-IsConsistent s DemoEvent.stop h = idle-IsConsistent s.visited
handle-IsConsistent s DemoEvent.tick h = fire-IsConsistent s s.timer refl h

-- Whatever happens to a demo, in whatever order - a stop while the moment is loading, a second
-- start, a moment that arrives late - a pending timer belongs to a step of an active demo.
pub run-IsConsistent :
    (events : List DemoEvent) (visited : List String) → IsConsistent (run (idle visited) events)
run-IsConsistent events visited = from events (idle visited) (idle-IsConsistent visited)
  where
    from : (es : List DemoEvent) (s : Demo) → IsConsistent s → IsConsistent (run s es)
    from [] s h = h
    from (e ∷ es) s h = from es (handle s e) (handle-IsConsistent s e h)
