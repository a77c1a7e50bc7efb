-- ===== src/Elements/Assembly/Completing.antt =====
-- src/buildstream/element.py: `_assemble_done`, `_load_artifact_done`, and the elements through any
-- sequence of such calls.
use buildstream.Common.{
  either, raise, attribute_error, ℕ, ◌<◌, ◌≡◌, refl, sym, ◌∙◌, Bool, Bool-cases, true, false, not,
  ◌&&◌, inl, inr, List, [], ◌∷◌, ◌++◌, ==_refl, length, if◌then◌else◌, contains, arith, Option,
  none, All-weaken, ok, assert, Returns, Returns-bind, Returns-if, Returns-weaken,
}
use buildstream.Pipeline.Dependencies.{run_deps}
use buildstream.Elements.{
  Element, Elements, Artifact, Graph, workspace_saved, DependencyKey, put, has, cached_of,
  update_cache_key_non_strict, update_ready_for_runtime_and_cached,
}
use buildstream.Elements.Counting.{unready, put-each, readiness}
use buildstream.Elements.Readiness.{IsAccounted, is_settled, IsKept-refl}
use buildstream.Elements.Notifying.{
  IsGraph, Settled, SettledBut, put-SettledBut, Kept, Accounts, put-Accounts, IsUpdated, settle,
}
use buildstream.Elements.Updating.{update_cache_key_non_strict-IsUpdated}
use buildstream.Elements.Updating.Marking.{update_ready_for_runtime_and_cached-IsUpdated}
use buildstream.Elements.Assembly.{
  schedule_assembly, set_required, update_non_strict, save_workspace, assembled, assemble_done,
  load_artifact_done, call_can_query_cache,
}
use buildstream.Elements.Assembly.Scheduling.{run_of, build_of, RunClosed, BuildClosed, IsRequested}
use buildstream.Elements.Assembly.Closing.{put-RunClosed, put-BuildClosed, put-IsRequested}
use buildstream.Elements.Assembly.Requiring.{
  IsWithin, schedule_assembly-IsRequested, set_required-Requires, todo_less, all_less,
  call_back-IsRequested,
}

-- Between two calls: the counters count what is not ready, what can be ready is, and the
-- dependencies of what is required and of what is scheduled are required.
pub record IsSound (graph : Graph) (universe : List ℕ) (s : Elements) : Type 0 where
  pub accounts : Accounts graph universe [] [] s
  pub settled : Settled s
  pub run_closed : RunClosed graph universe [] s
  pub build_closed : BuildClosed graph universe [] s

-- The same, where one element may be ready and is not marked.
pub record IsSoundBut (graph : Graph) (universe : List ℕ) (e : ℕ) (s : Elements) : Type 0 where
  pub accounts : Accounts graph universe [] [] s
  pub settled_but : SettledBut e s
  pub run_closed : RunClosed graph universe [] s
  pub build_closed : BuildClosed graph universe [] s

pub assert-Returns : (b : Bool) → b ≡ true → Returns (λ _. Unit {0}) (assert b)
assert-Returns true h = tt
assert-Returns false h = absurd (ground arith)

keyless_settled : (x : Element) → has x.cache_key ≡ false → is_settled x ≡ true
keyless_settled x h = ground arith

module _ (graph : Graph) (universe : List ℕ) where
  pub IsSound-soundly :
      (e : ℕ) (s : Elements) → IsSound graph universe s → IsSoundBut graph universe e s
  IsSound-soundly e s h = record {
    accounts = h.accounts;
    settled_but = λ i _. h.settled i;
    run_closed = h.run_closed;
    build_closed = h.build_closed;
  }

  Kept-RunClosed :
      (s t : Elements) → Kept s t → RunClosed graph universe [] s → RunClosed graph universe [] t
  Kept-RunClosed s t k h i n r =
      All-weaken _ _ (run_of graph universe i) (λ d q. (k d).same_required ∙ q)
        (h i n (sym (k i).same_required ∙ r))

  Kept-BuildClosed :
      (s t : Elements)
      → Kept s t
      → BuildClosed graph universe [] s
      → BuildClosed graph universe [] t
  Kept-BuildClosed s t k h i n r =
      All-weaken _ _ (build_of graph universe i) (λ d q. (k d).same_required ∙ q)
        (h i n (sym (k i).same_scheduled ∙ r))

  IsUpdated-IsSound :
      (e : ℕ) (s t : Elements)
      → IsSoundBut graph universe e s
      → IsUpdated graph universe [] [] s t
      → IsSound graph universe t
  IsUpdated-IsSound e s t h u = record {
    accounts = u.accounts;
    settled = u.settled;
    run_closed = Kept-RunClosed s t u.kept h.run_closed;
    build_closed = Kept-BuildClosed s t u.kept h.build_closed;
  }

  pub IsRequested-IsSound :
      (s t : Elements) → IsRequested graph universe [] [] s t → IsSound graph universe t
  IsRequested-IsSound s t q = record {
    accounts = q.accounts;
    settled = q.settled;
    run_closed = q.run_closed;
    build_closed = q.build_closed;
  }

  -- An element is replaced by one with the same readiness, requirement and schedule.
  pub put-IsSoundBut :
      (e : ℕ) (x : Element) (s : Elements)
      → x.ready_for_runtime_and_cached ≡ readiness s e
      → x.required ≡ (s.state e).required
      → x.assemble_scheduled ≡ (s.state e).assemble_scheduled
      → IsAccounted
          (unready (readiness s) (graph.runtime_dependencies e))
          0
          (unready (readiness s) (graph.build_dependencies e))
          0
          x
      → IsSoundBut graph universe e s
      → IsSoundBut graph universe e (put e x s)
  put-IsSoundBut e x s same same_required same_scheduled this h = record {
    accounts =
        put-Accounts graph universe e x s [] [] [] [] same h.accounts (λ i n. (refl, refl)) this;
    settled_but = put-SettledBut e x s h.settled_but;
    run_closed =
        put-RunClosed graph universe e x [] s (λ r. same_required ∙ r)
          (λ _ r. sym same_required ∙ r) h.run_closed;
    build_closed =
        put-BuildClosed graph universe e x [] s (λ r. same_required ∙ r)
          (λ _ r. sym same_scheduled ∙ r) h.build_closed;
  }

  pub IsSoundBut-IsSound :
      (e : ℕ) (s : Elements)
      → IsSoundBut graph universe e s
      → is_settled (s.state e) ≡ true
      → IsSound graph universe s
  IsSoundBut-IsSound e s h here = record {
    accounts = h.accounts;
    settled = settle graph universe e s h.settled_but here;
    run_closed = h.run_closed;
    build_closed = h.build_closed;
  }

module _ (graph : Graph) (universe : List ℕ) (generate : ℕ → List DependencyKey → Option ℕ → ℕ)
    (laws : IsGraph graph universe) (within : IsWithin graph universe) (fuel : ℕ)
    (enough : length universe < fuel) where
  update_ready-IsSound :
      (e : ℕ) (s : Elements)
      → contains universe e ≡ true
      → IsSoundBut graph universe e s
      → Returns
          (λ t. IsSound graph universe t × Kept s t)
          (update_ready_for_runtime_and_cached graph generate fuel e s)
  update_ready-IsSound e s u h =
      Returns-weaken _ _ (update_ready_for_runtime_and_cached graph generate fuel e s)
        (λ t v. (IsUpdated-IsSound graph universe e s t h v, v.kept))
        (update_ready_for_runtime_and_cached-IsUpdated graph universe generate laws fuel e s [] [] u
          (todo_less graph universe generate laws within fuel enough s) h.accounts h.settled_but)

  update_non_strict-IsSoundBut :
      (e : ℕ) (s : Elements)
      → contains universe e ≡ true
      → has (s.state e).artifact ≡ true
      → IsSoundBut graph universe e s
      → Returns
          (λ t. IsSoundBut graph universe e t × Kept s t)
          (update_non_strict graph generate fuel e s)
  unfolding update_non_strict update_cache_key_non_strict
  update_non_strict-IsSoundBut e s u a h = elim (Bool-cases (has (s.state e).cache_key)) [
    | inl k ↦
        Returns-if _ (has (s.state e).cache_key) (ok s) _ (λ _. (h, λ i. IsKept-refl (s.state i)))
          (λ n. absurd (ground (arith, k, n)))
    | inr k ↦
        Returns-weaken _ _
          (update_cache_key_non_strict graph generate
            (update_ready_for_runtime_and_cached graph generate fuel) e s)
          (λ t v. (
            IsSound-soundly graph universe e t (IsUpdated-IsSound graph universe e s t h v),
            v.kept,
          ))
          (update_cache_key_non_strict-IsUpdated graph universe generate fuel
            (update_ready_for_runtime_and_cached graph generate fuel)
            (update_ready_for_runtime_and_cached-IsUpdated graph universe generate laws fuel) e s []
            [] u (todo_less graph universe generate laws within fuel enough s) h.accounts
            (settle graph universe e s h.settled_but (keyless_settled (s.state e) k)) a)
  ]

  assembled_accounts :
      (u p v q : ℕ) (successful : Bool) (after : Artifact) (x : Element)
      → IsAccounted u p v q x
      → has x.artifact ≡ true
      → IsAccounted u p v q (assembled graph generate fuel successful after x)
  assembled_accounts u p v q true after x a h = record {
    runtime_count = a.runtime_count;
    build_count = a.build_count;
    ready_runtime = a.ready_runtime;
    ready_cached = λ _. refl;
    ready_keyed = a.ready_keyed;
    artifact_keyed = λ _. a.artifact_keyed h;
    assembly_artifact = λ _. refl;
  }
  assembled_accounts u p v q false after x a h = record {
    runtime_count = a.runtime_count;
    build_count = a.build_count;
    ready_runtime = a.ready_runtime;
    ready_cached = a.ready_cached;
    ready_keyed = a.ready_keyed;
    artifact_keyed = λ _. a.artifact_keyed h;
    assembly_artifact = λ _. refl;
  }

  assembled_same :
      (successful : Bool) (after : Artifact) (x : Element)
      → ((assembled graph generate fuel successful after x).ready_for_runtime_and_cached
          ≡ x.ready_for_runtime_and_cached)
        × ((assembled graph generate fuel successful after x).required ≡ x.required)
        × ((assembled graph generate fuel successful after x).assemble_scheduled
            ≡ x.assemble_scheduled)
        × (has (assembled graph generate fuel successful after x).artifact ≡ true)
  assembled_same true after x = (refl, refl, refl, refl)
  assembled_same false after x = (refl, refl, refl, refl)

  pub put-here :
      (P : Element → Type 0) (e : ℕ) (x : Element) (s : Elements) → P x → P ((put e x s).state e)
  put-here P e x s p = put-each (λ _ y. P y) e x s e (λ n. absurd (ground (arith, ==_refl e, n))) p

  same_state_IsSound :
      (e : ℕ) (s : Elements)
      → IsSound graph universe s
      → IsSound graph universe (save_workspace graph generate fuel e s)
  unfolding save_workspace
  same_state_IsSound e s h = by_case ((s.state e).has_workspace && cached_of (s.state e).artifact)
    where
      by_case :
          (b : Bool)
          → IsSound graph universe (
              if b
              then record s { effects = s.effects ++ workspace_saved e (s.state e).cache_key ∷ [] }
              else s)
      by_case true = record {
        accounts = h.accounts;
        settled = h.settled;
        run_closed = h.run_closed;
        build_closed = h.build_closed;
      }
      by_case false = h

  -- From a sound state, the completion of an assembly that was scheduled returns, and the state
  -- after it is sound, whether the build succeeded or not.
  pub assemble_done-IsSound :
      (successful : Bool) (after : Artifact) (e : ℕ) (s : Elements)
      → contains universe e ≡ true
      → (s.state e).assemble_scheduled ≡ true
      → IsSound graph universe s
      → Returns (IsSound graph universe) (assemble_done graph generate fuel successful after e s)
  unfolding assemble_done
  assemble_done-IsSound successful after e s u c h =
      let x = s.state e in
      let y = assembled graph generate fuel successful after x in
      let artifact = (h.accounts e).assembly_artifact (rw c refl) in
      let (same_ready, same_required, same_scheduled, has_artifact) =
        assembled_same successful after x in
      Returns-bind (λ _. Unit {0}) _ (assert x.assemble_scheduled) _
        (assert-Returns x.assemble_scheduled c)
        (λ _ _.
          Returns-bind (λ _. Unit {0}) _ (if has x.artifact then ok tt else raise attribute_error) _
            (either (Returns (λ _. Unit {0})) (has x.artifact) _ _ (λ _. tt)
              (λ n. absurd (ground (arith, n, artifact))))
            λ _ _.
              Returns-bind (λ t. IsSoundBut graph universe e t × Kept (put e y s) t) _
                (update_non_strict graph generate fuel e (put e y s)) _
                (update_non_strict-IsSoundBut e (put e y s) u
                  (put-here (λ z. has z.artifact ≡ true) e y s has_artifact)
                  (put-IsSoundBut graph universe e y s same_ready same_required same_scheduled
                    (assembled_accounts _ _ _ _ successful after x (h.accounts e) artifact)
                    (IsSound-soundly graph universe e s h)))
                (λ s1 (b, _).
                  Returns-bind (λ t. IsSound graph universe t × Kept s1 t) _
                    (update_ready_for_runtime_and_cached graph generate fuel e s1) _
                    (update_ready-IsSound e s1 u b) (λ s2 (d, _). same_state_IsSound e s2 d)))

  called_accounts :
      (u p v q : ℕ) (x : Element)
      → IsAccounted u p v q x
      → IsAccounted u p v q (record x { can_query_cache_callback = none })
  called_accounts u p v q x a = record {
    runtime_count = a.runtime_count;
    build_count = a.build_count;
    ready_runtime = a.ready_runtime;
    ready_cached = a.ready_cached;
    ready_keyed = a.ready_keyed;
    artifact_keyed = a.artifact_keyed;
    assembly_artifact = a.assembly_artifact;
  }

  call_can_query_cache-IsSound :
      (e : ℕ) (s t : Elements)
      → IsRequested graph universe [] [] s t
      → IsSound graph universe (call_can_query_cache e t)
  unfolding call_can_query_cache
  call_can_query_cache-IsSound e s t q = IsRequested-IsSound graph universe t _ (
      call_back-IsRequested graph universe generate laws within fuel enough
        (t.state e).can_query_cache_callback e [] [] t _
        (put-IsRequested graph universe e (record (t.state e) { can_query_cache_callback = none })
          [] [] t refl (q.settled e) refl (λ r. r) (λ _ r. r) (λ _ r. r) q.accounts q.settled
          q.run_closed q.build_closed (called_accounts _ _ _ _ (t.state e) (q.accounts e))))

  -- From a state that is sound but for an element whose artifact was just loaded, the completion of
  -- the loading returns, and the state after it is sound.
  pub load_artifact_done-IsSound :
      (strict : Bool) (e : ℕ) (s : Elements)
      → contains universe e ≡ true
      → has (s.state e).artifact ≡ true
      → IsSoundBut graph universe e s
      → Returns (IsSound graph universe) (load_artifact_done graph generate fuel strict e s)
  unfolding load_artifact_done
  load_artifact_done-IsSound strict e s u a h =
      let keys = not strict && cached_of (s.state e).artifact in
      let requires = set_required-Requires graph universe generate laws within fuel enough fuel in
      Returns-bind (λ _. Unit {0}) _ (assert (has (s.state e).artifact)) _
        (assert-Returns (has (s.state e).artifact) a)
        (λ _ _.
          Returns-bind (IsSoundBut graph universe e) _
            (if keys then update_non_strict graph generate fuel e s else ok s) _
            (Returns-if _ keys (update_non_strict graph generate fuel e s) (ok s)
              (λ _.
                Returns-weaken _ _ (update_non_strict graph generate fuel e s) (λ t p. p.0)
                  (update_non_strict-IsSoundBut e s u a h))
              (λ _. h))
            (λ s1 b.
              Returns-bind (λ t. IsSound graph universe t × Kept s1 t) _
                (update_ready_for_runtime_and_cached graph generate fuel e s1) _
                (update_ready-IsSound e s1 u b)
                (λ s2 (d, _).
                  Returns-bind (IsRequested graph universe [] [] s2) _
                    (schedule_assembly graph generate fuel
                      (set_required graph generate fuel fuel run_deps) e s2)
                    _
                    (schedule_assembly-IsRequested graph universe generate laws within fuel enough
                      fuel (set_required graph generate fuel fuel run_deps) e s2 [] [] requires u
                      (all_less graph universe generate laws within fuel enough s2) d.accounts
                      d.settled d.run_closed d.build_closed)
                    (λ s3 q. call_can_query_cache-IsSound e s2 s3 q))))
