-- ===== src/Tests/LoaderTests.antt =====
-- The check of circular dependencies at concrete inputs: 0 depends on 1 and 2, 1 on 2, and in the
-- second graph 2 on 1.
use buildstream.Common.{
  ℕ, zero, suc, ◌≡◌, refl, true, List, [], ◌∷◌, contains, get_elem?, some, arith,
}
use buildstream.Loader.{all_validated, circular, visit, look, search, check_circular_deps}
use buildstream.Loader.Ending.{Settles, check_circular_deps-Settles}

abbrev diamond : ℕ → List ℕ
diamond zero = 1 ∷ 2 ∷ []
diamond (suc zero) = 2 ∷ []
diamond _ = []

abbrev with_circle : ℕ → List ℕ
with_circle zero = 1 ∷ 2 ∷ []
with_circle (suc zero) = 2 ∷ []
with_circle (suc (suc zero)) = 1 ∷ []
with_circle _ = []

diamond-validated : check_circular_deps diamond 8 0 ≡ all_validated
unfolding check_circular_deps search look visit
diamond-validated = refl

circle-found : check_circular_deps with_circle 8 0 ≡ circular (1 ∷ 2 ∷ 1 ∷ [])
unfolding check_circular_deps search look visit
circle-found = refl

with_circle-closed :
    (e i d : ℕ) → get_elem? (with_circle e) i ≡ some d → contains (0 ∷ 1 ∷ 2 ∷ []) d ≡ true
with_circle-closed zero zero d h = ground (arith, h)
with_circle-closed zero (suc zero) d h = ground (arith, h)
with_circle-closed zero (suc (suc i)) d h = absurd (ground (arith, h))
with_circle-closed (suc zero) zero d h = ground (arith, h)
with_circle-closed (suc zero) (suc i) d h = absurd (ground (arith, h))
with_circle-closed (suc (suc zero)) zero d h = ground (arith, h)
with_circle-closed (suc (suc zero)) (suc i) d h = absurd (ground (arith, h))
with_circle-closed (suc (suc (suc e))) i d h = absurd (ground (arith, h))

check_circular_deps-Settles_example : Settles with_circle 0 (check_circular_deps with_circle 12 0)
check_circular_deps-Settles_example =
    check_circular_deps-Settles with_circle (0 ∷ 1 ∷ 2 ∷ []) 0 12 with_circle-closed (omega arith)
