-- ===== src/Pipeline/Dependencies/Order.antt =====
-- src/buildstream/_pipeline.py, dependencies: the order in which elements are yielded.
use buildstream.Common.{
  ℕ, ◌<◌, ◌≡◌, refl, sym, subst, Bool, true, false, ◌||◌, List, [], ◌∷◌, ◌++◌, ◌==◌, ap, ◌∙◌, ◌+◌,
  contains, All, All-weaken, Returns, Returns-weaken, arith,
}
use buildstream.Pipeline.Dependencies.{
  all_deps, run_deps, Visited, visit_each, walk, visit, is_done, dependencies, all_of, in_both,
  in_any, add_run, in_run,
}
use buildstream.Pipeline.Dependencies.PostOrder.{
  IsPostOrder, Falls, post_order_at, without_seen, IsPostOrder-same,
}
use buildstream.Pipeline.Dependencies.Walk.{IsWalked, widen, visit_each-IsWalked, walk-IsWalked}

-- The elements that `dependencies` yields, and not the bitmaps it leaves.
abbrev pub IsStagingOrder : (ℕ → List ℕ) → List ℕ → List ℕ → Type 0
IsStagingOrder deps targets ys =
    ((xs zs : List ℕ) (e : ℕ)
      → ys ≡ xs ++ e ∷ zs
      → All (λ d. contains xs d ≡ true) (deps e) × contains xs e ≡ false)
    × All (λ t. contains ys t ≡ true) targets

module _ (deps : ℕ → List ℕ) (mark : ℕ → Visited → Visited) (is_seen : ℕ → Visited → Bool)
    (mark_law : (e x : ℕ) (v : Visited) → is_seen x (mark e v) ≡ (e == x || is_seen x v))
    (none_seen : (x : ℕ) → is_seen x ([], []) ≡ false) (rank : ℕ → ℕ)
    (falls : Falls deps rank) where
  IsWalked-IsStagingOrder :
      (r : ℕ) (targets : List ℕ) (o : List ℕ × Visited)
      → IsWalked deps mark is_seen mark_law rank falls r ([], []) o
      → All (λ t. (contains o.0 t || is_seen t ([], [])) ≡ true) targets
      → IsStagingOrder deps targets o.0
  IsWalked-IsStagingOrder r targets o w c = (
    λ xs zs e n.
        let (a, u) =
          post_order_at deps (λ _. false) xs zs e
            (subst (IsPostOrder deps (λ _. false)) n
              (IsPostOrder-same deps _ _ o.0 none_seen w.order)) in
        (
          All-weaken _ _ (deps e) (λ d k. without_seen (contains xs d) true k) a,
          without_seen (contains xs e) false u,
        ),
    All-weaken _ _ targets
        (λ t k.
          without_seen (contains o.0 t) true
            (ap (λ b. contains o.0 t || b) (sym (none_seen t)) ∙ k))
        c,
  )

  each_walked :
      (fuel : ℕ) (targets : List ℕ)
      → All (λ t. rank t < fuel) targets
      → Returns
          (λ o. IsStagingOrder deps targets o.0)
          (visit_each is_seen (walk deps mark is_seen fuel) targets ([], []))
  each_walked fuel targets l =
      Returns-weaken _ _ (visit_each is_seen (walk deps mark is_seen fuel) targets ([], []))
        (λ o (w, c). IsWalked-IsStagingOrder fuel targets o w c)
        (visit_each-IsWalked deps mark is_seen mark_law rank falls fuel
          (walk deps mark is_seen fuel) targets ([], [])
          (λ d w k u.
            Returns-weaken _ _ (walk deps mark is_seen fuel d w)
              (λ o (z, c). (
                widen deps mark is_seen mark_law rank falls (rank d + 1) fuel w o (omega arith) z,
                c,
              ))
              (walk-IsWalked deps mark is_seen mark_law rank falls fuel d w k u))
          l)

in_any-in_both : (e x : ℕ) (v : Visited) → in_any x (in_both e v) ≡ (e == x || in_any x v)
in_any-in_both e x v = ground arith

module _ (build_of run_of : ℕ → List ℕ) (rank : ℕ → ℕ) where
  -- Of targets in an acyclic graph, the scope ALL yields every target, each element once, after
  -- all of its build and runtime dependencies.
  pub dependencies-ordered :
      (fuel : ℕ) (targets : List ℕ)
      → Falls (all_of build_of run_of) rank
      → All (λ t. rank t < fuel) targets
      → Returns
          (λ o. IsStagingOrder (all_of build_of run_of) targets o.0)
          (dependencies build_of run_of all_deps fuel targets)
  unfolding dependencies visit is_done
  dependencies-ordered fuel targets falls l =
      each_walked (all_of build_of run_of) in_both in_any in_any-in_both (λ x. refl) rank falls fuel
        targets l

  -- Of targets whose runtime dependencies have no cycle, the scope RUN yields every target, each
  -- element once, after all of its runtime dependencies.
  pub dependencies_run-ordered :
      (fuel : ℕ) (targets : List ℕ)
      → Falls run_of rank
      → All (λ t. rank t < fuel) targets
      → Returns
          (λ o. IsStagingOrder run_of targets o.0)
          (dependencies build_of run_of run_deps fuel targets)
  unfolding dependencies visit is_done
  dependencies_run-ordered fuel targets falls l =
      each_walked run_of add_run in_run (λ e x v. refl) (λ x. refl) rank falls fuel targets l
