-- ===== src/Pipeline/Selection/Excepting.antt =====
-- src/buildstream/_pipeline.py, except_elements: what it keeps.
use buildstream.Common.{ℕ, ◌≡◌, Bool, true, false, List, [], contains, select, All}
use buildstream.Pipeline.Selection.Intersecting.{IsBorder}
use buildstream.Pipeline.Selection.Traversing.{IsTraversal}

-- What the set has, the targets and whatever a member depends on, the excepted left aside.
abbrev pub IsReaching : (ℕ → List ℕ) → List ℕ → List ℕ → (ℕ → Bool) → Type 0
IsReaching deps intersection targets has =
    All (λ t. has t ≡ true) targets
    × ((e : ℕ) → has e ≡ true → contains intersection e ≡ false → All (λ d. has d ≡ true) (deps e))

-- `kept` is what is visited of `elements`, in their order. Visited is what the targets reach without
-- passing through the intersection, which is the border of what the excepted elements reach with
-- what is targeted.
pub record IsExcepted (deps : ℕ → List ℕ) (targeted except_targets targets elements kept : List ℕ)
    : Type 0 where
  pub intersection : List ℕ
  pub visited : List ℕ
  pub kept_are : kept ≡ select (contains visited) elements
  pub is_border : IsBorder deps targeted except_targets intersection
  pub traversal : IsTraversal deps intersection targets [] visited
  pub reached :
      (has : ℕ → Bool) → IsReaching deps intersection targets has → All (λ x. has x ≡ true) visited
