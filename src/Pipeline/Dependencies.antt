-- ===== src/Pipeline/Dependencies.antt =====
-- The dependencies of elements: `dependencies` of src/buildstream/_pipeline.py and
-- `Element._dependencies` of src/buildstream/element.py. An element is its unique id, and
-- `build_of` and `run_of` are its lists of build and runtime dependencies.
use buildstream.Common.{
  ℕ, zero, suc, Bool, true, false, ◌||◌, List, [], ◌∷◌, ◌++◌, if◌then◌else◌, contains, Outcome, ok,
  raise, diverged, ◌>>=◌,
}
pub mod PostOrder
pub mod Walk
pub mod Order
pub mod Reach

pub data Scope : Type 0 where
  all_deps build_deps run_deps no_deps : Scope

-- The two bitmaps: the elements visited for BUILD, and those visited for RUN.
abbrev pub Visited : Type 0
Visited = List ℕ × List ℕ

abbrev pub add_build : ℕ → Visited → Visited
add_build e v = (e ∷ v.0, v.1)

abbrev pub add_run : ℕ → Visited → Visited
add_run e v = (v.0, e ∷ v.1)

abbrev pub in_both : ℕ → Visited → Visited
in_both e v = add_run e (add_build e v)

-- A dependency is passed over where either bitmap has it, or where that for RUN has it.
abbrev pub in_any : ℕ → Visited → Bool
in_any e v = contains v.0 e || contains v.1 e

abbrev pub in_run : ℕ → Visited → Bool
in_run e v = contains v.1 e

-- What a generator has yielded when it ends, and the visited elements.
abbrev pub Yields : Type 0
Yields = Outcome (List ℕ × Visited)

-- for dep in …: if dep is not visited: yield from visit(dep, …)
unfoldable pub visit_each :
    (ℕ → Visited → Bool) → (ℕ → Visited → Yields) → List ℕ → Visited → Yields
visit_each is_seen visit_dep [] v = ok ([], v)
visit_each is_seen visit_dep (d ∷ ds) v =
    let visited = if is_seen d v then ok ([], v) else visit_dep d v in
    visited >>= λ (ys, v1). visit_each is_seen visit_dep ds v1 >>= λ (zs, v2). ok (ys ++ zs, v2)

-- `visit` where it visits the dependencies in its own scope and then yields the element: for ALL
-- and for RUN.
module _ (deps : ℕ → List ℕ) (mark : ℕ → Visited → Visited) (is_seen : ℕ → Visited → Bool) where
  unfoldable pub walk : ℕ → ℕ → Visited → Yields
  unfolding visit_each
  walk zero e v = raise diverged
  walk (suc fuel) e v =
      visit_each is_seen (walk fuel) (deps e) (mark e v) >>= λ (ys, v1). ok (ys ++ e ∷ [], v1)

-- `if dep not in result: result.add(dep); yield dep`, for what is in `result`
unfoldable pub distinct : List ℕ → List ℕ → List ℕ
distinct result [] = []
distinct result (d ∷ ds) =
    if contains result d then distinct result ds else d ∷ distinct (d ∷ result) ds

module _ (build_of run_of : ℕ → List ℕ) where
  -- _dependencies(scope, recurse=False)
  unfoldable pub direct : Scope → ℕ → List ℕ
  unfolding distinct
  direct all_deps e = distinct [] (build_of e ++ run_of e)
  direct build_deps e = distinct [] (build_of e)
  direct run_deps e = distinct [] (run_of e)
  direct no_deps e = []

  unfoldable pub all_of : ℕ → List ℕ
  all_of e = build_of e ++ run_of e

  unfoldable pub visit : Scope → ℕ → ℕ → Visited → Yields
  unfolding visit_each all_of
  visit all_deps fuel e v = walk all_of in_both in_any fuel e v
  visit build_deps fuel e v =
      visit_each in_run (walk run_of add_run in_run fuel) (build_of e) (add_build e v)
  visit run_deps fuel e v = walk run_of add_run in_run fuel e v
  visit no_deps fuel e v = ok (e ∷ [], v)

  -- The early returns, where a visited set is passed.
  unfoldable pub is_done : Scope → ℕ → Visited → Bool
  is_done all_deps e v = in_any e v
  is_done build_deps e v = contains v.0 e
  is_done run_deps e v = in_run e v
  is_done no_deps e v = false

  -- dependencies(targets, scope): the targets share the visited set.
  unfoldable pub dependencies : Scope → ℕ → List ℕ → Yields
  unfolding visit_each visit is_done
  dependencies scope fuel targets = visit_each (is_done scope) (visit scope fuel) targets ([], [])

  -- dependencies(targets, scope, recurse=False)
  unfoldable pub direct_dependencies : Scope → List ℕ → List ℕ
  unfolding direct
  direct_dependencies scope [] = []
  direct_dependencies scope (t ∷ ts) = direct scope t ++ direct_dependencies scope ts
