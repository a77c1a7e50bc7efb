-- ===== src/Elements/Updating/Marking.antt =====
-- src/buildstream/element.py: an element becomes ready, and its dependents are notified.
use buildstream.Common.{
  ℕ, zero, suc, ◌<◌, ◌≡◌, refl, sym, Bool, true, false, not, ◌||◌, List, ◌++◌, contains, subst,
  arith, Option, ok, Returns, Returns-bind, Returns-if, Returns-weaken, ◌>>=◌,
}
use buildstream.Elements.{
  Element, Elements, Graph, DependencyKey, put, cached_success, after_cached_success, may_be_ready,
  notify_runtime, notify_build, update_ready_for_runtime_and_cached,
}
use buildstream.Elements.Counting.{
  count, unready, mark, count-append, unready-mark, unready-mark_less, put-each, readiness,
  readiness-put_ready,
}
use buildstream.Elements.Readiness.{
  IsAccounted, is_settled, IsAccounted-shift, IsAccounted-marked, IsAccounted-asked, IsKept-asked,
  IsKept-marked, unsettled_asked, asked_ready,
}
use buildstream.Elements.Notifying.{
  IsGraph, SettledBut, put-Kept, Kept-trans, put-Settled, Accounts, todo, IsUpdated, settle,
  Updates, notify_runtime-IsUpdated,
}
use buildstream.Elements.Updating.{unchanged, put-IsUpdated, notify_build-IsUpdated}

module _ (graph : Graph) (universe : List ℕ)
    (generate : ℕ → List DependencyKey → Option ℕ → ℕ) where
  module _ (laws : IsGraph graph universe) where
    -- An element becomes ready: its dependents are to be notified.
    marked-Accounts :
        (e : ℕ) (s : Elements) (pr pb : List ℕ)
        → readiness s e ≡ false
        → may_be_ready (s.state e) ≡ true
        → cached_success (s.state e) ≡ true
        → Accounts graph universe pr pb s
        → Accounts graph universe
            (graph.reverse_runtime_deps e ++ pr)
            (graph.reverse_build_deps e ++ pb)
            (put e
              (record (after_cached_success (s.state e)) { ready_for_runtime_and_cached = true })
              s)
    marked-Accounts e s pr pb n m c h =
        let x : Element = record (after_cached_success (s.state e)) {
          ready_for_runtime_and_cached = true;
        } in
        let moved : (i : ℕ) (y : Element)
            → IsAccounted (unready (readiness s) (graph.runtime_dependencies i)) (count i pr)
                (unready (readiness s) (graph.build_dependencies i)) (count i pb) y
            → IsAccounted (unready (mark e (readiness s)) (graph.runtime_dependencies i))
                (count i (graph.reverse_runtime_deps e ++ pr))
                (unready (mark e (readiness s)) (graph.build_dependencies i))
                (count i (graph.reverse_build_deps e ++ pb)) y =
          λ i y a.
            IsAccounted-shift _ _ _ _ _ _ _ _ y
              (omega (
                arith,
                count-append (graph.reverse_runtime_deps e) pr i,
                laws.runtime_reversed e i,
                unready-mark e (readiness s) (graph.runtime_dependencies i) n,
              ))
              (omega (
                arith,
                count-append (graph.reverse_build_deps e) pb i,
                laws.build_reversed e i,
                unready-mark e (readiness s) (graph.build_dependencies i) n,
              ))
              (omega (arith, unready-mark e (readiness s) (graph.runtime_dependencies i) n)) a in
        subst
          (λ R.
            (i : ℕ)
            → IsAccounted (unready R (graph.runtime_dependencies i))
                (count i (graph.reverse_runtime_deps e ++ pr))
                (unready R (graph.build_dependencies i))
                (count i (graph.reverse_build_deps e ++ pb)) ((put e x s).state i))
          (sym (readiness-put_ready e x s refl))
          (λ i. moved i ((put e x s).state i) (
            put-each
              (λ j y.
                IsAccounted (unready (readiness s) (graph.runtime_dependencies j)) (count j pr)
                  (unready (readiness s) (graph.build_dependencies j)) (count j pb) y)
              e x s i (λ _. h i) (IsAccounted-marked _ _ _ _ (s.state e) m c (h e))))

    idle_settled :
        (x : Element)
        → (x.ready_for_runtime_and_cached || not (may_be_ready x)) ≡ true
        → is_settled x ≡ true
    idle_settled x h = ground arith

    not_idle : (r m : Bool) → (r || not m) ≡ false → (r ≡ false) × (m ≡ true)
    not_idle r m h = (ground arith, ground arith)

    -- The dependents of an element that becomes ready are notified.
    notified :
        (fuel e : ℕ) (s : Elements) (pr pb : List ℕ)
        → Updates graph universe fuel (update_ready_for_runtime_and_cached graph generate fuel)
        → contains universe e ≡ true
        → todo graph universe s < suc fuel
        → Accounts graph universe pr pb s
        → SettledBut e s
        → readiness s e ≡ false
        → may_be_ready (s.state e) ≡ true
        → cached_success (s.state e) ≡ true
        → Returns (IsUpdated graph universe pr pb s) (
            notify_runtime
              (update_ready_for_runtime_and_cached graph generate fuel)
              (graph.reverse_runtime_deps e)
              (put e
                (record (after_cached_success (s.state e)) { ready_for_runtime_and_cached = true })
                s)
            >>= notify_build graph generate
                (update_ready_for_runtime_and_cached graph generate fuel)
                (graph.reverse_build_deps e))
    notified fuel e s pr pb rest u l h w n m c =
        let x : Element = record (after_cached_success (s.state e)) {
          ready_for_runtime_and_cached = true;
        } in
        let s1 = put e x s in
        let update = update_ready_for_runtime_and_cached graph generate fuel in
        let less : todo graph universe s1 < todo graph universe s =
          subst (λ R. unready R universe < unready (readiness s) universe)
            (sym (readiness-put_ready e x s refl))
            (unready-mark_less e (readiness s) universe u n) in
        Returns-bind (IsUpdated graph universe pr (graph.reverse_build_deps e ++ pb) s1) _
          (notify_runtime update (graph.reverse_runtime_deps e) s1) _
          (notify_runtime-IsUpdated graph universe fuel update (graph.reverse_runtime_deps e) pr
            (graph.reverse_build_deps e ++ pb) s1 rest (laws.runtime_within e) (omega arith)
            (marked-Accounts e s pr pb n m c h) (put-Settled e x s w refl))
          (λ t k.
            Returns-weaken _ _ (notify_build graph generate update (graph.reverse_build_deps e) t)
              (λ t' k'. record {
                accounts = k'.accounts;
                settled = k'.settled;
                no_more = omega (arith, k.no_more, k'.no_more);
                kept =
                    Kept-trans s s1 t' (put-Kept e x s (IsKept-marked (s.state e)))
                      (Kept-trans s1 t t' k.kept k'.kept);
              })
              (notify_build-IsUpdated graph universe generate fuel update rest
                (graph.reverse_build_deps e) pr pb t (laws.build_within e)
                (omega (arith, k.no_more)) k.accounts k.settled))

    -- With the accounts right and every element but one settled, the update of that one returns:
    -- no counter falls below zero, and no fuel runs out that is more than the elements which are
    -- not ready. After it the accounts are right and every element is settled.
    pub update_ready_for_runtime_and_cached-IsUpdated :
        (fuel : ℕ)
        → Updates graph universe fuel (update_ready_for_runtime_and_cached graph generate fuel)
    unfolding update_ready_for_runtime_and_cached
    update_ready_for_runtime_and_cached-IsUpdated zero e s pr pb u l h w = elim l [ ]
    update_ready_for_runtime_and_cached-IsUpdated (suc fuel) e s pr pb u l h w =
        let x = s.state e in
        let rest = update_ready_for_runtime_and_cached-IsUpdated fuel in
        Returns-if _ (x.ready_for_runtime_and_cached || not (may_be_ready x)) (ok s) _
          (λ i.
            unchanged graph universe generate s pr pb h
              (settle graph universe e s w (idle_settled x i)))
          (λ i.
            let (n, m) = not_idle x.ready_for_runtime_and_cached (may_be_ready x) i in
            Returns-if _ (cached_success x) _ (ok (put e (after_cached_success x) s))
              (λ c. notified fuel e s pr pb rest u l h w n m c)
              (λ c.
                put-IsUpdated graph universe generate e (after_cached_success x) s pr pb
                  (asked_ready x) (IsKept-asked x) (unsettled_asked x c) h w
                  (IsAccounted-asked _ _ _ _ x (h e))))
