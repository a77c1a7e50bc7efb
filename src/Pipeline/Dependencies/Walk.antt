-- ===== src/Pipeline/Dependencies/Walk.antt =====
-- src/buildstream/element.py, `visit` of _dependencies: what one walk yields.
use buildstream.Common.{
  ℕ, zero, suc, ◌<◌, ◌≤◌, ◌≡◌, refl, sym, Bool, true, false, ◌||◌, List, [], ◌∷◌, ◌==◌, ap, ◌∙◌,
  ◌+◌, contains, All, All-append, All-weaken, ok, Returns, Returns-bind, Returns-if, Returns-weaken,
  arith, if◌then◌else◌,
}
use buildstream.Pipeline.Dependencies.{Visited, visit_each, walk, Yields}
use buildstream.Pipeline.Dependencies.PostOrder.{
  IsPostOrder, Falls, IsPostOrder-same, IsPostOrder-append, IsPostOrder-forget, IsPostOrder-last,
  seen_of_lesser, yields_lack, with_yields-append, append-seen, marked_seen, last_seen,
  contains-last,
}

module _ (deps : ℕ → List ℕ) (mark : ℕ → Visited → Visited) (is_seen : ℕ → Visited → Bool)
    (mark_law : (e x : ℕ) (v : Visited) → is_seen x (mark e v) ≡ (e == x || is_seen x v))
    (rank : ℕ → ℕ) (falls : Falls deps rank) where
  -- What a walk that starts at `v` has yielded, all of lesser rank than `r`, in an order that counts
  -- `seen` as visited.
  pub record IsWalked (r : ℕ) (v : Visited) (o : List ℕ × Visited) : Type 0 where
    pub order : IsPostOrder deps (λ x. is_seen x v) o.0
    pub lesser : All (λ y. rank y < r) o.0
    pub visited : (x : ℕ) → is_seen x o.1 ≡ (contains o.0 x || is_seen x v)

  pub widen :
      (r r' : ℕ) (v : Visited) (o : List ℕ × Visited) → r ≤ r' → IsWalked r v o → IsWalked r' v o
  widen r r' v o l w = record {
    order = w.order;
    lesser = All-weaken _ _ o.0 (λ y k. omega arith) w.lesser;
    visited = w.visited;
  }

  pub visit_each-IsWalked :
      (r : ℕ) (f : ℕ → Visited → Yields) (ds : List ℕ) (v : Visited)
      → ((d : ℕ) (w : Visited)
          → rank d < r
          → is_seen d w ≡ false
          → Returns (λ o. IsWalked r w o × contains o.0 d ≡ true) (f d w))
      → All (λ d. rank d < r) ds
      → Returns
          (λ o. IsWalked r v o × All (λ d. (contains o.0 d || is_seen d v) ≡ true) ds)
          (visit_each is_seen f ds v)
  unfolding visit_each
  visit_each-IsWalked r f [] v visits l =
      (record { order = tt; lesser = tt; visited = λ x. refl }, tt)
  visit_each-IsWalked r f (d ∷ ds) v visits l =
      Returns-bind (λ o. IsWalked r v o × (contains o.0 d || is_seen d v) ≡ true) _
        (if is_seen d v then ok ([], v) else f d v) _
        (Returns-if _ (is_seen d v) (ok ([], v)) (f d v)
          (λ h. (record { order = tt; lesser = tt; visited = λ x. refl }, h))
          (λ h. Returns-weaken _ _ (f d v) (λ o (w, c). (w, ground arith)) (visits d v l.0 h)))
        (λ (ys, v1) (w1, c1).
          Returns-bind
            (λ o. IsWalked r v1 o × All (λ d. (contains o.0 d || is_seen d v1) ≡ true) ds) _
            (visit_each is_seen f ds v1) _ (visit_each-IsWalked r f ds v1 visits l.1)
            (λ (zs, v2) (w2, c2). (
              record {
                order =
                    IsPostOrder-append deps (λ x. is_seen x v) ys zs w1.order
                      (IsPostOrder-same deps _ _ zs w1.visited w2.order);
                lesser = All-append _ ys zs w1.lesser w2.lesser;
                visited = λ x.
                    w2.visited x
                    ∙ ap (λ b. contains zs x || b) (w1.visited x)
                    ∙ with_yields-append (λ z. is_seen z v) ys zs x;
              },
              (
                append-seen (λ z. is_seen z v) ys zs d c1,
                All-weaken _ _ ds
                    (λ x k.
                      sym (with_yields-append (λ z. is_seen z v) ys zs x)
                      ∙ ap (λ b. contains zs x || b) (sym (w1.visited x))
                      ∙ k)
                    c2,
              ),
            )))

  pub walk-IsWalked :
      (fuel e : ℕ) (v : Visited)
      → rank e < fuel
      → is_seen e v ≡ false
      → Returns
          (λ o. IsWalked (rank e + 1) v o × contains o.0 e ≡ true)
          (walk deps mark is_seen fuel e v)
  unfolding walk
  walk-IsWalked zero e v l h = elim l [ ]
  walk-IsWalked (suc fuel) e v l h =
      Returns-bind
        (λ o.
          IsWalked (rank e) (mark e v) o
          × All (λ d. (contains o.0 d || is_seen d (mark e v)) ≡ true) (deps e))
        _ (visit_each is_seen (walk deps mark is_seen fuel) (deps e) (mark e v)) _
        (visit_each-IsWalked (rank e) (walk deps mark is_seen fuel) (deps e) (mark e v)
          (λ d w k u.
            Returns-weaken _ _ (walk deps mark is_seen fuel d w)
              (λ o (z, c). (widen (rank d + 1) (rank e) w o (omega arith) z, c))
              (walk-IsWalked fuel d w (omega arith) u))
          (falls e))
        (λ (ys, v1) (w1, c1). (
          record {
            order =
                IsPostOrder-append deps (λ x. is_seen x v) ys (e ∷ [])
                  (IsPostOrder-forget deps rank falls e _ ys w1.lesser
                    (IsPostOrder-same deps _ _ ys (λ x. mark_law e x v) w1.order))
                  (IsPostOrder-last deps _ e
                    (seen_of_lesser rank e _ (deps e) (falls e) (
                      All-weaken _ _ (deps e)
                        (λ d k.
                          marked_seen (e == d) (contains ys d) (is_seen d v) (is_seen d (mark e v))
                            (mark_law e d v) k)
                        c1))
                    (rw (yields_lack rank e ys w1.lesser, h)));
            lesser =
                All-append _ ys (e ∷ []) (All-weaken _ _ ys (λ y k. omega arith) w1.lesser)
                  (omega arith, tt);
            visited = λ x.
                w1.visited x
                ∙ last_seen ys e x (is_seen x v) (is_seen x (mark e v)) (mark_law e x v);
          },
          contains-last ys e,
        ))
