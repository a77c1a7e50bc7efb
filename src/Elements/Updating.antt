-- ===== src/Elements/Updating.antt =====
-- src/buildstream/element.py: what `_update_ready_for_runtime_and_cached` does to all elements.
use buildstream.Common.{
  ℕ, zero, suc, ◌<◌, ◌≡◌, refl, sym, ◌∙◌, Bool, true, false, not, ◌||◌, List, [], ◌∷◌, ◌++◌, map,
  if◌then◌else◌, contains, subst, arith, Option, none, some, All, Outcome, ok, raise,
  attribute_error, assert, Returns, Returns-bind, Returns-if, Returns-weaken, ◌>>=◌, ◌>>◌,
}
use buildstream.Elements.{
  Element, Elements, Artifact, Graph, DependencyKey, put, has, cached_success, after_cached_success,
  may_be_ready, decrement_build, notify_runtime, notify_build, buildable, call_buildable, call_back,
  with_artifact_key, calculate_cache_key, strong_key, update_cache_key_non_strict,
  update_ready_for_runtime_and_cached, keyed,
}
use buildstream.Elements.Counting.{
  count, unready, mark, count-append, unready-mark, unready-mark_less, put-each, readiness,
  readiness-put_ready,
}
use buildstream.Elements.Readiness.{
  IsAccounted, is_settled, IsKept, IsKept-refl, IsAccounted-shift, IsAccounted-marked,
  IsAccounted-asked, IsKept-asked, IsKept-marked, unsettled_asked, asked_ready,
}
use buildstream.Elements.Notifying.{
  IsGraph, Settled, SettledBut, put-Kept, Kept-trans, put-SettledBut, put-Settled, Accounts, todo,
  put-Accounts, put-todo, IsUpdated, IsUpdated-trans, IsCounted, decrement_build-IsCounted, settle,
  Updates, IsCounted-settled, notify_runtime-IsUpdated,
}
pub mod Marking

keyed_accounts :
    (u p v q k : ℕ) (x : Element)
    → IsAccounted u p v q x
    → IsAccounted u p v q (record x { cache_key = some k })
keyed_accounts u p v q k x a = record {
  runtime_count = a.runtime_count;
  build_count = a.build_count;
  ready_runtime = a.ready_runtime;
  ready_cached = a.ready_cached;
  ready_keyed = λ _. refl;
  artifact_keyed = a.artifact_keyed;
  assembly_artifact = a.assembly_artifact;
}

-- The artifact is told the key.
abbrev told : Element → Element
told x = record x { artifact = with_artifact_key x.cache_key x.artifact }

has-with_artifact_key :
    (key : Option ℕ) (a : Option Artifact) → has (with_artifact_key key a) ≡ has a
has-with_artifact_key key none = refl
has-with_artifact_key key (some a) = refl

told_accounts : (u p v q : ℕ) (x : Element) → IsAccounted u p v q x → IsAccounted u p v q (told x)
told_accounts u p v q x a = record {
  runtime_count = a.runtime_count;
  build_count = a.build_count;
  ready_runtime = a.ready_runtime;
  ready_cached = a.ready_cached;
  ready_keyed = a.ready_keyed;
  artifact_keyed = λ h. a.artifact_keyed (sym (has-with_artifact_key x.cache_key x.artifact) ∙ h);
  assembly_artifact = λ h. has-with_artifact_key x.cache_key x.artifact ∙ a.assembly_artifact h;
}

uncalled_accounts :
    (u p v q : ℕ) (x : Element)
    → IsAccounted u p v q x
    → IsAccounted u p v q (record x { buildable_callback = none })
uncalled_accounts u p v q x a = record {
  runtime_count = a.runtime_count;
  build_count = a.build_count;
  ready_runtime = a.ready_runtime;
  ready_cached = a.ready_cached;
  ready_keyed = a.ready_keyed;
  artifact_keyed = a.artifact_keyed;
  assembly_artifact = a.assembly_artifact;
}

told_settled : (x : Element) → is_settled x ≡ true → is_settled (told x) ≡ true
told_settled x h = ground arith

module _ (graph : Graph) (universe : List ℕ)
    (generate : ℕ → List DependencyKey → Option ℕ → ℕ) where
  strong_key-Returns :
      (u p v q e : ℕ) (s : Elements)
      → IsAccounted u p v q (s.state e)
      → has (s.state e).artifact ≡ true
      → Returns (λ _. Unit {0}) (strong_key graph generate e s)
  unfolding strong_key
  strong_key-Returns u p v q e s a h = by_artifact (s.state e).artifact h (a.artifact_keyed h)
    where
      made :
          (b c : Bool) (key : Option ℕ)
          → b ≡ true
          → Returns (λ _. Unit {0}) (if c then assert b >> ok key else ok none)
      made true true key h = tt
      made true false key h = tt
      made false c key h = absurd (ground arith)

      by_artifact :
          (b : Option Artifact)
          → has b ≡ true
          → has (s.state e).weak_cache_key ≡ true
          → Returns
              (λ _. Unit {0})
              (if (s.state e).pull_pending then ok none else elim b [
                | none ↦ raise attribute_error
                | some a ↦
                    if a.is_cached
                    then ok (some a.strong_key)
                    else if (s.state e).assemble_scheduled || (s.state e).assemble_done
                    then (assert (has (s.state e).weak_cache_key)
                        >> ok (
                            calculate_cache_key generate e
                              (map (λ d. keyed d (s.state d).cache_key) (graph.build_scope e))
                              (s.state e).weak_cache_key))
                    else ok none
              ])
      by_artifact none h w = absurd (ground arith)
      by_artifact (some b) h w =
          Returns-if _ (s.state e).pull_pending (ok none) _ (λ _. tt)
            (λ _.
              Returns-if _ b.is_cached (ok (some b.strong_key)) _ (λ _. tt)
                (λ _.
                  made (has (s.state e).weak_cache_key)
                    ((s.state e).assemble_scheduled || (s.state e).assemble_done) _ w))

  -- Any change of one element that keeps its accounts and leaves it settled.
  put-IsUpdated :
      (e : ℕ) (x : Element) (s : Elements) (pr pb : List ℕ)
      → x.ready_for_runtime_and_cached ≡ readiness s e
      → IsKept (s.state e) x
      → is_settled x ≡ true
      → Accounts graph universe pr pb s
      → SettledBut e s
      → IsAccounted
          (unready (readiness s) (graph.runtime_dependencies e))
          (count e pr)
          (unready (readiness s) (graph.build_dependencies e))
          (count e pb)
          x
      → IsUpdated graph universe pr pb s (put e x s)
  put-IsUpdated e x s pr pb same k w h settled a = record {
    accounts = put-Accounts graph universe e x s pr pb pr pb same h (λ i n. (refl, refl)) a;
    settled = put-Settled e x s settled w;
    no_more = omega (arith, put-todo graph universe e x s same);
    kept = put-Kept e x s k;
  }

  unchanged :
      (s : Elements) (pr pb : List ℕ)
      → Accounts graph universe pr pb s
      → Settled s
      → IsUpdated graph universe pr pb s s
  unchanged s pr pb h w = record {
    accounts = h;
    settled = w;
    no_more = omega arith;
    kept = λ i. IsKept-refl (s.state i);
  }

  module _ (fuel : ℕ) (update_ready : ℕ → Elements → Outcome Elements)
      (updates : Updates graph universe fuel update_ready) where
    -- The key of an element is set, and the element may become ready.
    with_key-IsUpdated :
        (r k : ℕ) (s : Elements) (pr pb : List ℕ)
        → contains universe r ≡ true
        → todo graph universe s < fuel
        → Accounts graph universe pr pb s
        → Settled s
        → Returns (IsUpdated graph universe pr pb s) (
            update_ready r (put r (record (s.state r) { cache_key = some k }) s) >>= λ s'. ok (
              put r
                (record (s'.state r) {
                  artifact = with_artifact_key (s'.state r).cache_key (s'.state r).artifact;
                })
                s'))
    with_key-IsUpdated r k s pr pb u l h w =
        let x : Element = record (s.state r) { cache_key = some k } in
        let s1 = put r x s in
        let kept : IsKept (s.state r) x = record {
          same_required = refl;
          same_scheduled = refl;
          same_done = refl;
          same_artifact = refl;
        } in
        Returns-bind (IsUpdated graph universe pr pb s1) _ (update_ready r s1) _
          (updates r s1 pr pb u (omega (arith, put-todo graph universe r x s refl))
            (put-Accounts graph universe r x s pr pb pr pb refl h (λ i n. (refl, refl))
              (keyed_accounts _ _ _ _ k (s.state r) (h r)))
            (put-SettledBut r x s (λ i _. w i)))
          (λ t c.
            IsUpdated-trans graph universe pr pb pr pb s t _
              (record {
                accounts = c.accounts;
                settled = c.settled;
                no_more = omega (arith, c.no_more, put-todo graph universe r x s refl);
                kept = Kept-trans s s1 t (put-Kept r x s kept) c.kept;
              })
              (put-IsUpdated r (told (t.state r)) t pr pb refl
                (record {
                  same_required = refl;
                  same_scheduled = refl;
                  same_done = refl;
                  same_artifact = has-with_artifact_key (t.state r).cache_key (t.state r).artifact;
                })
                (told_settled (t.state r) (c.settled r)) c.accounts (λ i _. c.settled i)
                (told_accounts _ _ _ _ (t.state r) (c.accounts r))))

    pub update_cache_key_non_strict-IsUpdated :
        (r : ℕ) (s : Elements) (pr pb : List ℕ)
        → contains universe r ≡ true
        → todo graph universe s < fuel
        → Accounts graph universe pr pb s
        → Settled s
        → has (s.state r).artifact ≡ true
        → Returns
            (IsUpdated graph universe pr pb s)
            (update_cache_key_non_strict graph generate update_ready r s)
    unfolding update_cache_key_non_strict
    update_cache_key_non_strict-IsUpdated r s pr pb u l h w a =
        Returns-if _ (has (s.state r).cache_key) (ok s) _ (λ _. unchanged s pr pb h w)
          (λ _.
            Returns-bind (λ _. Unit {0}) _ (strong_key graph generate r s) _
              (strong_key-Returns _ _ _ _ r s (h r) a) (λ key _. by_key key))
      where
        by_key :
            (key : Option ℕ)
            → Returns (IsUpdated graph universe pr pb s) (elim key [
              | none ↦ ok s
              | some k ↦
                  update_ready r (put r (record (s.state r) { cache_key = some k }) s) >>= λ s'.
                  ok (
                    put r
                      (record (s'.state r) {
                        artifact = with_artifact_key (s'.state r).cache_key (s'.state r).artifact;
                      })
                      s')
            ])
        by_key none = unchanged s pr pb h w
        by_key (some k) = with_key-IsUpdated r k s pr pb u l h w

    call_back-IsUpdated :
        (queue : Option ℕ) (r : ℕ) (pr pb : List ℕ) (s t : Elements)
        → IsUpdated graph universe pr pb s t
        → IsUpdated graph universe pr pb s (call_back queue r t)
    call_back-IsUpdated none r pr pb s t h = h
    call_back-IsUpdated (some queue) r pr pb s t h = record {
      accounts = h.accounts;
      settled = h.settled;
      no_more = h.no_more;
      kept = h.kept;
    }

    call_buildable-IsUpdated :
        (r : ℕ) (pr pb : List ℕ) (s t : Elements)
        → IsUpdated graph universe pr pb s t
        → IsUpdated graph universe pr pb s (call_buildable r t)
    unfolding call_buildable
    call_buildable-IsUpdated r pr pb s t h =
        call_back-IsUpdated (t.state r).buildable_callback r pr pb s _ (
          IsUpdated-trans graph universe pr pb pr pb s t _ h (
            put-IsUpdated r (record (t.state r) { buildable_callback = none }) t pr pb refl
              (record {
                same_required = refl;
                same_scheduled = refl;
                same_done = refl;
                same_artifact = refl;
              })
              (h.settled r) h.accounts (λ i _. h.settled i)
              (uncalled_accounts _ _ _ _ (t.state r) (h.accounts r))))

    buildable_scheduled :
        (x : Element) → buildable x ≡ true → (x.assemble_scheduled || x.assemble_done) ≡ true
    buildable_scheduled x h = ground arith

    pub notify_build-IsUpdated :
        (rs pr pb : List ℕ) (s : Elements)
        → All (λ r. contains universe r ≡ true) rs
        → todo graph universe s < fuel
        → Accounts graph universe pr (rs ++ pb) s
        → Settled s
        → Returns (IsUpdated graph universe pr pb s) (notify_build graph generate update_ready rs s)
    unfolding notify_build
    notify_build-IsUpdated [] pr pb s u l h w = unchanged s pr pb h w
    notify_build-IsUpdated (r ∷ rs) pr pb s u l h w =
        Returns-bind
          (λ t. IsCounted graph universe pr (rs ++ pb) r s t × is_settled (t.state r) ≡ true) _
          (decrement_build r s) _ (decrement_build-IsCounted graph universe r pr (rs ++ pb) s h w)
          (λ s1 c.
            let d = IsCounted-settled graph universe pr (rs ++ pb) r s s1 c.0 c.1 in
            Returns-bind (IsUpdated graph universe pr (rs ++ pb) s) _
              (if buildable (s1.state r)
                then (update_cache_key_non_strict graph generate update_ready r s1 >>= λ s'.
                    ok (call_buildable r s'))
                else ok s1)
              _
              (Returns-if _ (buildable (s1.state r)) _ (ok s1)
                (λ b.
                  Returns-bind (IsUpdated graph universe pr (rs ++ pb) s1) _
                    (update_cache_key_non_strict graph generate update_ready r s1) _
                    (update_cache_key_non_strict-IsUpdated r s1 pr (rs ++ pb) u.0
                      (omega (arith, d.no_more)) d.accounts d.settled
                      ((d.accounts r).assembly_artifact (buildable_scheduled (s1.state r) b)))
                    (λ t k.
                      call_buildable-IsUpdated r pr (rs ++ pb) s t
                        (IsUpdated-trans graph universe pr (rs ++ pb) pr (rs ++ pb) s s1 t d k)))
                (λ _. d))
              (λ s2 k.
                Returns-weaken _ _ (notify_build graph generate update_ready rs s2)
                  (λ t k'. IsUpdated-trans graph universe pr (rs ++ pb) pr pb s s2 t k k')
                  (notify_build-IsUpdated rs pr pb s2 u.1 (omega (arith, k.no_more)) k.accounts
                    k.settled)))
