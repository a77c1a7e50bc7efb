-- ===== src/Tests/PipelineTests.antt =====
-- Planning at concrete inputs: 3 is built with 2, and 2 with 1, which both need 0 to run.
use buildstream.Common.{
  ℕ, zero, suc, ◌≡◌, refl, true, List, [], ◌∷◌, ◌++◌, ◌<◌, All, contains, Returns, ok, arith,
}
use buildstream.Pipeline.Planner.{plan_each, plan_element, plan_roots, depth_sorted, plan}
use buildstream.Pipeline.Planner.Depths.{IsRanked}
use buildstream.Pipeline.Planner.Order.{plan-ordered}

abbrev run_deps : ℕ → List ℕ
run_deps (suc (suc zero)) = 0 ∷ []
run_deps (suc zero) = 0 ∷ []
run_deps _ = []

abbrev build_deps : ℕ → List ℕ
build_deps (suc (suc (suc zero))) = 2 ∷ 1 ∷ []
build_deps (suc (suc zero)) = 1 ∷ []
build_deps _ = []

ranked : IsRanked run_deps build_deps (λ n. n)
ranked = record { run_falls = runs; build_falls = builds }
  where
    runs : (x : ℕ) → All (λ r. r < x) (run_deps x)
    runs (suc (suc zero)) = (omega arith, tt)
    runs (suc zero) = (omega arith, tt)
    runs _ = tt

    builds : (x : ℕ) → All (λ r. r < x) (build_deps x)
    builds (suc (suc (suc zero))) = (omega arith, (omega arith, tt))
    builds (suc (suc zero)) = (omega arith, tt)
    builds _ = tt

plan_runs :
    plan run_deps build_deps 4 (3 ∷ [])
    ≡ ok (0 ∷ 1 ∷ 2 ∷ 3 ∷ [], (0, 0) ∷ (1, 1) ∷ (2, 2) ∷ (3, 3) ∷ [])
unfolding plan plan_roots plan_each plan_element depth_sorted
plan_runs = refl

plan-ordered_example :
    Returns
      (λ p.
        All (λ e. contains p.0 e ≡ true) (3 ∷ [])
        × ((xs ys : List ℕ) (e b : ℕ)
            → p.0 ≡ xs ++ e ∷ ys
            → contains (build_deps e) b ≡ true
            → contains xs b ≡ true))
      (plan run_deps build_deps 4 (3 ∷ []))
plan-ordered_example = plan-ordered run_deps build_deps (λ n. n) 4 (3 ∷ []) ranked (omega arith)
