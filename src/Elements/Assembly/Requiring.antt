-- ===== src/Elements/Assembly/Requiring.antt =====
-- src/buildstream/element.py: `_set_required` and `__schedule_assembly_when_necessary`.
use buildstream.Common.{
  ℕ, zero, suc, ◌<◌, ◌≡◌, refl, sym, ◌∙◌, Bool, true, false, not, List, [], ◌∷◌, ==_refl, length,
  if◌then◌else◌, contains, subst, arith, Option, none, some, All, Outcome, ok, Returns,
  Returns-bind, Returns-if, Returns-weaken,
}
use buildstream.Pipeline.Dependencies.{run_deps, direct, distinct}
use buildstream.Elements.{
  Element, Elements, Graph, DependencyKey, put, has, cached_success, after_cached_success,
  call_back, update_cache_key_non_strict, update_ready_for_runtime_and_cached,
}
use buildstream.Elements.Counting.{unready, unready-mark_less, put-each, readiness}
use buildstream.Elements.Readiness.{IsAccounted-asked, IsKept-asked, asked_ready, settled_asked}
use buildstream.Elements.Notifying.{IsGraph, Settled, Accounts, todo}
use buildstream.Elements.Updating.{update_cache_key_non_strict-IsUpdated}
use buildstream.Elements.Updating.Marking.{update_ready_for_runtime_and_cached-IsUpdated}
use buildstream.Elements.Assembly.{
  require_each, may_schedule, schedule_assembly, set_required, call_required, update_non_strict,
}
use buildstream.Elements.Assembly.Scheduling.{
  unready-length, required_of, run_of, build_of, AllRequired, RunClosed, BuildClosed, unrequired,
  IsRequested, IsRequested-trans, fewer, AllRequired-Grown, IsUpdated-IsRequested, Requires,
  require_each-IsRequested,
}
use buildstream.Elements.Assembly.Closing.{
  required_accounts, scheduled_accounts, called_accounts, mark-required, in_tail, run_exempt,
  build_exempt, put-IsRequested,
}

All-distinct : (P : ℕ → Type 0) (result ds : List ℕ) → All P ds → All P (distinct result ds)
unfolding distinct
All-distinct P result [] h = tt
All-distinct P result (d ∷ ds) h =
    by_case (contains result d) (All-distinct P result ds h.1) (All-distinct P (d ∷ result) ds h.1)
  where
    by_case :
        (b : Bool)
        → All P (distinct result ds)
        → All P (distinct (d ∷ result) ds)
        → All P (if b then distinct result ds else d ∷ distinct (d ∷ result) ds)
    by_case true p q = p
    by_case false p q = (h.0, q)

-- The dependencies of elements stay within the finite set, too.
pub record IsWithin (graph : Graph) (universe : List ℕ) : Type 0 where
  pub run_within : (e : ℕ) → All (λ d. contains universe d ≡ true) (graph.runtime_dependencies e)
  pub build_within : (e : ℕ) → All (λ d. contains universe d ≡ true) (graph.build_dependencies e)

module _ (graph : Graph) (universe : List ℕ) (generate : ℕ → List DependencyKey → Option ℕ → ℕ)
    (laws : IsGraph graph universe) (within : IsWithin graph universe) (fuel : ℕ)
    (enough : length universe < fuel) where
  pub todo_less : (s : Elements) → todo graph universe s < fuel
  todo_less s = omega (arith, unready-length (readiness s) universe)

  run_of_within : (e : ℕ) → All (λ d. contains universe d ≡ true) (run_of graph universe e)
  unfolding direct
  run_of_within e = All-distinct _ [] (graph.runtime_dependencies e) (within.run_within e)

  build_of_within : (e : ℕ) → All (λ d. contains universe d ≡ true) (build_of graph universe e)
  unfolding direct
  build_of_within e = All-distinct _ [] (graph.build_dependencies e) (within.build_within e)

  may_schedule-artifact : (x : Element) → not (may_schedule x) ≡ false → has x.artifact ≡ true
  may_schedule-artifact x h = ground arith

  not_exempt : (e : ℕ) (xs : List ℕ) → contains (e ∷ xs) e ≡ false → ⊥
  not_exempt e xs h = ground (arith, ==_refl e, h)

  -- The assembly is scheduled, and the build dependencies are yet to be required.
  put_scheduled :
      (e : ℕ) (s : Elements) (xs ys : List ℕ)
      → has (s.state e).artifact ≡ true
      → Accounts graph universe [] [] s
      → Settled s
      → RunClosed graph universe xs s
      → BuildClosed graph universe ys s
      → IsRequested graph universe xs
          (e ∷ ys)
          s
          (put e (record (after_cached_success (s.state e)) { assemble_scheduled = true }) s)
  put_scheduled e s xs ys m a w h k =
      let x = s.state e in
      let kept = IsKept-asked x in
      put-IsRequested graph universe e
        (record (after_cached_success x) { assemble_scheduled = true }) xs (e ∷ ys) s
        (asked_ready x) (settled_asked x (w e)) kept.same_artifact (λ r. kept.same_required ∙ r)
        (λ _ r. sym kept.same_required ∙ r) (λ n _. absurd (not_exempt e ys n)) a w h
        (λ i n. k i (in_tail e i ys n))
        (scheduled_accounts _ _ _ _ (after_cached_success x) (kept.same_artifact ∙ m)
          (IsAccounted-asked _ _ _ _ x (a e)))

  pub schedule_assembly-IsRequested :
      (n : ℕ) (f : ℕ → Elements → Outcome Elements) (e : ℕ) (s : Elements) (xs ys : List ℕ)
      → Requires graph universe n f
      → contains universe e ≡ true
      → unrequired graph universe s < n
      → Accounts graph universe [] [] s
      → Settled s
      → RunClosed graph universe xs s
      → BuildClosed graph universe ys s
      → Returns (IsRequested graph universe xs ys s) (schedule_assembly graph generate fuel f e s)
  unfolding schedule_assembly update_non_strict
  schedule_assembly-IsRequested n f e s xs ys requires u l a w h k =
      let x = s.state e in
      let kept = IsKept-asked x in
      Returns-if _ (not (may_schedule x)) (ok s) _
        (λ _. record {
          accounts = a;
          settled = w;
          run_closed = h;
          build_closed = k;
          grown = λ i r. r;
          same_artifacts = λ i. refl;
        })
        (λ m.
          Returns-if _ (cached_success x) (ok (put e (after_cached_success x) s)) _
            (λ c.
              put-IsRequested graph universe e (after_cached_success x) xs ys s (asked_ready x)
                (settled_asked x (w e)) kept.same_artifact (λ r. kept.same_required ∙ r)
                (λ _ r. sym kept.same_required ∙ r) (λ _ r. sym kept.same_scheduled ∙ r) a w h k
                (IsAccounted-asked _ _ _ _ x (a e)))
            (λ c.
              let artifact = may_schedule-artifact x m in
              let s1 = put e (record (after_cached_success x) { assemble_scheduled = true }) s in
              let q1 = put_scheduled e s xs ys artifact a w h k in
              Returns-bind
                (λ t.
                  IsRequested graph universe xs (e ∷ ys) s1 t
                  × AllRequired graph universe t (build_of graph universe e))
                _ (require_each f (build_of graph universe e) s1) _
                (require_each-IsRequested graph universe n f (build_of graph universe e) s1 xs
                  (e ∷ ys) requires (build_of_within e)
                  (omega (arith, fewer graph universe s s1 q1.grown)) q1.accounts q1.settled
                  q1.run_closed q1.build_closed)
                (λ t (q, r).
                  let k' = build_exempt graph universe e ys t q.build_closed r in
                  Returns-weaken _ _
                    (update_cache_key_non_strict graph generate
                      (update_ready_for_runtime_and_cached graph generate fuel) e t)
                    (λ s' v.
                      IsRequested-trans graph universe xs (e ∷ ys) xs ys s t s'
                        (IsRequested-trans graph universe xs (e ∷ ys) xs (e ∷ ys) s s1 t q1 q)
                        (IsUpdated-IsRequested graph universe xs ys t s' q.run_closed k' v))
                    (update_cache_key_non_strict-IsUpdated graph universe generate fuel
                      (update_ready_for_runtime_and_cached graph generate fuel)
                      (update_ready_for_runtime_and_cached-IsUpdated graph universe generate laws
                        fuel)
                      e t [] [] u (todo_less t) q.accounts q.settled
                      (q.same_artifacts e ∙ q1.same_artifacts e ∙ artifact)))))

  pub all_less : (s : Elements) → unrequired graph universe s < fuel
  all_less s = omega (arith, unready-length (required_of s) universe)

  pub call_back-IsRequested :
      (queue : Option ℕ) (e : ℕ) (xs ys : List ℕ) (s t : Elements)
      → IsRequested graph universe xs ys s t
      → IsRequested graph universe xs ys s (call_back queue e t)
  call_back-IsRequested none e xs ys s t h = h
  call_back-IsRequested (some queue) e xs ys s t h = record {
    accounts = h.accounts;
    settled = h.settled;
    run_closed = h.run_closed;
    build_closed = h.build_closed;
    grown = h.grown;
    same_artifacts = h.same_artifacts;
  }

  call_required-IsRequested :
      (e : ℕ) (xs ys : List ℕ) (s t : Elements)
      → IsRequested graph universe xs ys s t
      → IsRequested graph universe xs ys s (call_required e t)
  unfolding call_required
  call_required-IsRequested e xs ys s t q =
      call_back-IsRequested (t.state e).required_callback e xs ys s _ (
        IsRequested-trans graph universe xs ys xs ys s t _ q (
          put-IsRequested graph universe e (record (t.state e) { required_callback = none }) xs ys t
            refl (q.settled e) refl (λ r. r) (λ _ r. r) (λ _ r. r) q.accounts q.settled q.run_closed
            q.build_closed (called_accounts _ _ _ _ (t.state e) (q.accounts e))))

  closing :
      (e : ℕ) (xs ys : List ℕ) (s t : Elements)
      → IsRequested graph universe (e ∷ xs) ys s t
      → AllRequired graph universe t (run_of graph universe e)
      → IsRequested graph universe xs ys s t
  closing e xs ys s t q r = record {
    accounts = q.accounts;
    settled = q.settled;
    run_closed = run_exempt graph universe e xs t q.run_closed r;
    build_closed = q.build_closed;
    grown = q.grown;
    same_artifacts = q.same_artifacts;
  }

  -- The element is marked as required, and its runtime dependencies are yet to be.
  put_required :
      (e : ℕ) (s : Elements) (xs ys : List ℕ)
      → Accounts graph universe [] [] s
      → Settled s
      → RunClosed graph universe xs s
      → BuildClosed graph universe ys s
      → IsRequested graph universe (e ∷ xs) ys s (put e (record (s.state e) { required = true }) s)
  put_required e s xs ys a w h k =
      put-IsRequested graph universe e (record (s.state e) { required = true }) (e ∷ xs) ys s refl
        (w e) refl (λ _. refl) (λ n _. absurd (not_exempt e xs n)) (λ _ r. r) a w
        (λ i n. h i (in_tail e i xs n)) k (required_accounts _ _ _ _ (s.state e) (a e))

  required_here :
      (e : ℕ) (s : Elements)
      → required_of (put e (record (s.state e) { required = true }) s) e ≡ true
  required_here e s =
      put-each (λ j y. y.required ≡ true) e (record (s.state e) { required = true }) s e
        (λ n. absurd (ground (arith, ==_refl e, n))) refl

  -- Given that the accounts are right and that what is required and scheduled has its dependencies
  -- required, `_set_required` returns, keeps all this, and makes the element required.
  pub set_required-Requires :
      (n : ℕ) → Requires graph universe n (set_required graph generate fuel n run_deps)
  unfolding set_required
  set_required-Requires zero e s xs ys u l a w h k = elim l [ ]
  set_required-Requires (suc n) e s xs ys u l a w h k =
      Returns-if _ (required_of s e) (ok s) _
        (λ r. (
          record {
            accounts = a;
            settled = w;
            run_closed = h;
            build_closed = k;
            grown = λ i r'. r';
            same_artifacts = λ i. refl;
          },
          r,
        ))
        (λ r.
          let s1 = put e (record (s.state e) { required = true }) s in
          let q1 = put_required e s xs ys a w h k in
          let f = set_required graph generate fuel n run_deps in
          let less : unrequired graph universe s1 < unrequired graph universe s =
            subst (λ R. unready R universe < unrequired graph universe s)
              (sym (mark-required e (record (s.state e) { required = true }) s refl))
              (unready-mark_less e (required_of s) universe u r) in
          Returns-bind
            (λ t.
              IsRequested graph universe (e ∷ xs) ys s1 t
              × AllRequired graph universe t (run_of graph universe e))
            _ (require_each f (run_of graph universe e) s1) _
            (require_each-IsRequested graph universe n f (run_of graph universe e) s1 (e ∷ xs) ys
              (set_required-Requires n) (run_of_within e) (omega arith) q1.accounts q1.settled
              q1.run_closed q1.build_closed)
            (λ t (q, r1).
              Returns-bind (IsRequested graph universe (e ∷ xs) ys t) _
                (schedule_assembly graph generate fuel f e t) _
                (schedule_assembly-IsRequested n f e t (e ∷ xs) ys (set_required-Requires n) u
                  (omega (arith, fewer graph universe s1 t q.grown)) q.accounts q.settled
                  q.run_closed q.build_closed)
                (λ t2 q2.
                  let done = call_required-IsRequested e xs ys s1 t2 (
                    closing e xs ys s1 t2
                      (IsRequested-trans graph universe (e ∷ xs) ys (e ∷ xs) ys s1 t t2 q q2)
                      (AllRequired-Grown graph universe t t2 (run_of graph universe e) q2.grown
                        r1)) in
                  (
                    IsRequested-trans graph universe (e ∷ xs) ys xs ys s s1 _ q1 done,
                    done.grown e (required_here e s),
                  ))))
