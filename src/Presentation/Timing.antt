-- ===== src/Presentation/Timing.antt =====
-- The clock of the guided presentation, frontend/src/lib/presentationScript.ts.
use industrial_safety_intell.Prelude.{
  ℕ, zero, suc, ◌+◌, ◌-◌, ◌≤◌, foldl, ◌≡◌, ap, some_injective, some, List, [], ◌∷◌, arith,
}
use industrial_safety_intell.Prelude.Lists.{get_elem?, take}
use industrial_safety_intell.Prelude.Eq.{string_eq}
use industrial_safety_intell.Presentation.{
  PresentationScene, sum_durations, presentation_scenes, total_presentation_duration_ms,
  elapsed_before_scene, remaining_after_scene,
}

sum_after :
    (n : ℕ) (xs : List PresentationScene)
    → foldl (λ sum x. sum + x.duration_ms) n xs ≡ n + sum_durations xs
sum_after n [] = omega arith
sum_after n (x ∷ xs) =
    omega (arith, sum_after (n + x.duration_ms) xs, sum_after (0 + x.duration_ms) xs)

sum_cons :
    (x : PresentationScene) (xs : List PresentationScene)
    → sum_durations (x ∷ xs) ≡ x.duration_ms + sum_durations xs
sum_cons x xs = omega (arith, sum_after (0 + x.duration_ms) xs)

sum_take-suc :
    (xs : List PresentationScene) (i : ℕ) (s : PresentationScene)
    → get_elem? xs i ≡ some s
    → sum_durations (take (suc i) xs) ≡ sum_durations (take i xs) + s.duration_ms
sum_take-suc [] i s h = absurd (cc)
sum_take-suc (x ∷ xs) zero s h = omega (arith, ap (λ y. y.duration_ms) (some_injective h))
sum_take-suc (x ∷ xs) (suc i) s h =
    omega (arith, sum_cons x (take (suc i) xs), sum_cons x (take i xs), sum_take-suc xs i s h)

sum_take_le :
    (xs : List PresentationScene) (i : ℕ) (s : PresentationScene)
    → get_elem? xs i ≡ some s
    → sum_durations (take i xs) + s.duration_ms ≤ sum_durations xs
sum_take_le [] i s h = absurd (cc)
sum_take_le (x ∷ xs) zero s h =
    omega (arith, ap (λ y. y.duration_ms) (some_injective h), sum_cons x xs)
sum_take_le (x ∷ xs) (suc i) s h =
    omega (arith, sum_cons x (take i xs), sum_cons x xs, sum_take_le xs i s h)

-- What has passed before a scene, the scene itself and what remains after it are the whole time,
-- and the next scene begins when the scene ends.
pub scene_time :
    (i : ℕ) (s : PresentationScene)
    → get_elem? presentation_scenes i ≡ some s
    → (r : ℕ) × (remaining_after_scene i ≡ some r)
      × (elapsed_before_scene i + s.duration_ms + r ≡ total_presentation_duration_ms)
      × (elapsed_before_scene (suc i) ≡ elapsed_before_scene i + s.duration_ms)
unfolding remaining_after_scene elapsed_before_scene
scene_time i s h = (
  total_presentation_duration_ms - sum_durations (take i presentation_scenes) - s.duration_ms,
  rw h,
  omega (arith, sum_take_le presentation_scenes i s h),
  sum_take-suc presentation_scenes i s h,
)
