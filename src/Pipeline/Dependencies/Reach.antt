-- ===== src/Pipeline/Dependencies/Reach.antt =====
-- src/buildstream/_pipeline.py, dependencies: which elements are yielded.
use buildstream.Common.{
  ℕ, zero, suc, ◌<◌, Bool, List, [], ◌∷◌, All, All-append, ok, Ensures, Ensures-bind, Ensures-if,
  Returns, Returns-weaken, Returns-Ensures, if◌then◌else◌,
}
use buildstream.Pipeline.Dependencies.{
  all_deps, Visited, Yields, visit_each, walk, visit, is_done, dependencies, all_of, in_both,
  in_any,
}
use buildstream.Pipeline.Dependencies.PostOrder.{Falls}
use buildstream.Pipeline.Dependencies.Order.{dependencies-ordered}

module _ (P : ℕ → Type 0) where
  visit_each-All :
      (is_seen : ℕ → Visited → Bool) (f : ℕ → Visited → Yields) (ds : List ℕ) (v : Visited)
      → ((d : ℕ) (w : Visited) → P d → Ensures (λ o. All P o.0) (f d w))
      → All P ds
      → Ensures (λ o. All P o.0) (visit_each is_seen f ds v)
  unfolding visit_each
  visit_each-All is_seen f [] v h l = tt
  visit_each-All is_seen f (d ∷ ds) v h l =
      Ensures-bind (λ o. All P o.0) _ (if is_seen d v then ok ([], v) else f d v) _
        (Ensures-if _ (is_seen d v) (ok ([], v)) (f d v) tt (h d v l.0))
        (λ (ys, v1) k.
          Ensures-bind (λ o. All P o.0) _ (visit_each is_seen f ds v1) _
            (visit_each-All is_seen f ds v1 h l.1) (λ (zs, v2) k'. All-append P ys zs k k'))

  walk-All :
      (deps : ℕ → List ℕ) (mark : ℕ → Visited → Visited) (is_seen : ℕ → Visited → Bool)
      → ((e : ℕ) → P e → All P (deps e))
      → (fuel e : ℕ) (v : Visited) → P e
      → Ensures (λ o. All P o.0) (walk deps mark is_seen fuel e v)
  unfolding walk
  walk-All deps mark is_seen closed zero e v p = tt
  walk-All deps mark is_seen closed (suc fuel) e v p =
      Ensures-bind (λ o. All P o.0) _
        (visit_each is_seen (walk deps mark is_seen fuel) (deps e) (mark e v)) _
        (visit_each-All is_seen (walk deps mark is_seen fuel) (deps e) (mark e v)
          (λ d w q. walk-All deps mark is_seen closed fuel d w q) (closed e p))
        (λ (ys, v1) k. All-append P ys (e ∷ []) k (p, tt))

  module _ (build_of run_of : ℕ → List ℕ) (rank : ℕ → ℕ) where
    -- Of targets in an acyclic graph, the scope ALL yields only what is in every set of elements
    -- that has the targets and the dependencies of its members.
    pub dependencies-reached :
        (fuel : ℕ) (targets : List ℕ)
        → Falls (all_of build_of run_of) rank
        → All (λ t. rank t < fuel) targets
        → ((e : ℕ) → P e → All P (all_of build_of run_of e))
        → All P targets
        → Returns (λ o. All P o.0) (dependencies build_of run_of all_deps fuel targets)
    unfolding dependencies visit is_done
    dependencies-reached fuel targets falls l closed h =
        Returns-weaken _ _ (dependencies build_of run_of all_deps fuel targets) (λ o (s, k). k)
          (Returns-Ensures _ _ (dependencies build_of run_of all_deps fuel targets)
            (dependencies-ordered build_of run_of rank fuel targets falls l)
            (visit_each-All in_any (walk (all_of build_of run_of) in_both in_any fuel) targets
              ([], []) (λ d w q. walk-All (all_of build_of run_of) in_both in_any closed fuel d w q)
              h))
