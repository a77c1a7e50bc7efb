-- ===== src/Tests/SelectionTests.antt =====
-- Dependencies and selections at concrete inputs: 3 is built with 2 and 1, 2 runs with 0 and is
-- built with 1, and 1 runs with 0.
use buildstream.Common.{
  ℕ, zero, suc, ◌≡◌, refl, true, false, List, [], ◌∷◌, ◌<◌, All, Returns, ok, arith, none,
}
use buildstream.Pipeline.Dependencies.{
  all_deps, run_deps, visit_each, walk, visit, is_done, dependencies, all_of,
}
use buildstream.Pipeline.Dependencies.PostOrder.{Falls}
use buildstream.Pipeline.Dependencies.Order.{
  IsStagingOrder, dependencies-ordered, dependencies_run-ordered,
}
use buildstream.Pipeline.Dependencies.Reach.{dependencies-reached}
use buildstream.Pipeline.Selection.{
  Checked, except_from, find_each, find_intersection, traverse, assert_consistent,
}
use buildstream.Pipeline.Selection.Asserting.{assert_consistent-none}

abbrev run_of : ℕ → List ℕ
run_of (suc (suc zero)) = 0 ∷ []
run_of (suc zero) = 0 ∷ []
run_of _ = []

abbrev build_of : ℕ → List ℕ
build_of (suc (suc (suc zero))) = 2 ∷ 1 ∷ []
build_of (suc (suc zero)) = 1 ∷ []
build_of _ = []

all_falls : Falls (all_of build_of run_of) (λ n. n)
unfolding all_of
all_falls (suc (suc (suc zero))) = (omega arith, (omega arith, tt))
all_falls (suc (suc zero)) = (omega arith, (omega arith, tt))
all_falls (suc zero) = (omega arith, tt)
all_falls zero = tt
all_falls (suc (suc (suc (suc n)))) = tt

run_falls : Falls run_of (λ n. n)
run_falls (suc (suc zero)) = (omega arith, tt)
run_falls (suc zero) = (omega arith, tt)
run_falls zero = tt
run_falls (suc (suc (suc n))) = tt

dependencies_run :
    dependencies build_of run_of all_deps 4 (3 ∷ [])
    ≡ ok (0 ∷ 1 ∷ 2 ∷ 3 ∷ [], (0 ∷ 1 ∷ 2 ∷ 3 ∷ [], 0 ∷ 1 ∷ 2 ∷ 3 ∷ []))
unfolding dependencies visit visit_each walk all_of is_done
dependencies_run = refl

dependencies-ordered_example :
    Returns
      (λ o. IsStagingOrder (all_of build_of run_of) (3 ∷ 1 ∷ []) o.0)
      (dependencies build_of run_of all_deps 4 (3 ∷ 1 ∷ []))
dependencies-ordered_example =
    dependencies-ordered build_of run_of (λ n. n) 4 (3 ∷ 1 ∷ []) all_falls
      (omega arith, (omega arith, tt))

dependencies_run-ordered_example :
    Returns
      (λ o. IsStagingOrder run_of (2 ∷ 1 ∷ []) o.0)
      (dependencies build_of run_of run_deps 4 (2 ∷ 1 ∷ []))
dependencies_run-ordered_example =
    dependencies_run-ordered build_of run_of (λ n. n) 4 (2 ∷ 1 ∷ []) run_falls
      (omega arith, (omega arith, tt))

at_most_three : (e : ℕ) → e < 4 → All (λ d. d < 4) (all_of build_of run_of e)
unfolding all_of
at_most_three (suc (suc (suc zero))) l = (omega arith, (omega arith, tt))
at_most_three (suc (suc zero)) l = (omega arith, (omega arith, tt))
at_most_three (suc zero) l = (omega arith, tt)
at_most_three zero l = tt
at_most_three (suc (suc (suc (suc n)))) l = tt

dependencies-reached_example :
    Returns (λ o. All (λ d. d < 4) o.0) (dependencies build_of run_of all_deps 4 (3 ∷ []))
dependencies-reached_example =
    dependencies-reached (λ d. d < 4) build_of run_of (λ n. n) 4 (3 ∷ []) all_falls
      (omega arith, tt) at_most_three (omega arith, tt)

abbrev universe : List ℕ
universe = 0 ∷ 1 ∷ 2 ∷ 3 ∷ []

abbrev deps : ℕ → List ℕ
deps (suc (suc (suc zero))) = 2 ∷ 1 ∷ []
deps (suc (suc zero)) = 0 ∷ []
deps (suc zero) = 0 ∷ []
deps _ = []

-- Without 2, the target 3 keeps 1 and what 1 needs.
except_runs : except_from deps 9 universe (3 ∷ []) universe (2 ∷ []) ≡ ok (0 ∷ 1 ∷ 3 ∷ [])
unfolding except_from find_each find_intersection traverse
except_runs = refl

abbrev checked : List Checked
checked =
    record { id = 1; has_all_sources_resolved = true; has_workspace = false; fetch_needed = true }
    ∷ record { id = 2; has_all_sources_resolved = false; has_workspace = true; fetch_needed = true }
    ∷ []

assert_consistent-none_example :
    (assert_consistent checked ≡ none → All (λ e. e.has_all_sources_resolved ≡ true) checked)
    × (All (λ e. e.has_all_sources_resolved ≡ true) checked → assert_consistent checked ≡ none)
assert_consistent-none_example = assert_consistent-none checked
