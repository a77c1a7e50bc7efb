-- ===== src/Elements/Notifying.antt =====
-- src/buildstream/element.py: the accounts that the notification of dependents keeps.
use buildstream.Common.{
  ℕ, suc, ◌+◌, ◌-◌, ◌≤◌, ◌<◌, ◌≡◌, refl, sym, ap, Bool-cases, true, false, inl, inr, List, [], ◌∷◌,
  ◌++◌, ◌==◌, ==→eq, ==_refl, if◌then◌else◌, contains, subst, arith, All, Outcome, ok, raise,
  assertion, Returns, Returns-bind, Returns-if, Returns-weaken,
}
use buildstream.Elements.{
  Element, Elements, Graph, put, decrement_runtime, decrement_build, notify_runtime,
}
use buildstream.Elements.Counting.{count, unready, put-each, readiness, readiness-put}
use buildstream.Elements.Readiness.{
  IsAccounted, is_settled, IsKept, IsKept-refl, IsKept-trans, IsAccounted-shift,
}

-- The reverse dependencies name an element as often as it names them, and stay within a finite set.
pub record IsGraph (graph : Graph) (universe : List ℕ) : Type 0 where
  pub runtime_reversed :
      (e r : ℕ) → count r (graph.reverse_runtime_deps e) ≡ count e (graph.runtime_dependencies r)
  pub build_reversed :
      (e r : ℕ) → count r (graph.reverse_build_deps e) ≡ count e (graph.build_dependencies r)
  pub runtime_within :
      (e : ℕ) → All (λ r. contains universe r ≡ true) (graph.reverse_runtime_deps e)
  pub build_within : (e : ℕ) → All (λ r. contains universe r ≡ true) (graph.reverse_build_deps e)

abbrev pub Settled : Elements → Type 0
Settled s = (i : ℕ) → is_settled (s.state i) ≡ true

abbrev pub SettledBut : ℕ → Elements → Type 0
SettledBut e s = (i : ℕ) → (i == e) ≡ false → is_settled (s.state i) ≡ true

abbrev pub Kept : Elements → Elements → Type 0
Kept s s' = (i : ℕ) → IsKept (s.state i) (s'.state i)

pub put-Kept : (e : ℕ) (x : Element) (s : Elements) → IsKept (s.state e) x → Kept s (put e x s)
put-Kept e x s h i = put-each (λ j y. IsKept (s.state j) y) e x s i (λ _. IsKept-refl (s.state i)) h

pub Kept-trans : (s t u : Elements) → Kept s t → Kept t u → Kept s u
Kept-trans s t u h k i = IsKept-trans (s.state i) (t.state i) (u.state i) (h i) (k i)

pub put-SettledBut :
    (e : ℕ) (x : Element) (s : Elements) → SettledBut e s → SettledBut e (put e x s)
put-SettledBut e x s h i n =
    put-each (λ j y. (j == e) ≡ false → is_settled y ≡ true) e x s i (λ m _. h i m)
      (λ m. absurd (ground (arith, ==_refl e))) n

pub put-Settled :
    (e : ℕ) (x : Element) (s : Elements)
    → SettledBut e s
    → is_settled x ≡ true
    → Settled (put e x s)
put-Settled e x s h k i = put-each (λ j y. is_settled y ≡ true) e x s i (h i) k

==-flip : (a b : ℕ) → (a == b) ≡ false → (b == a) ≡ false
==-flip a b h = ground arith

count-other : (i r : ℕ) (rs : List ℕ) → (i == r) ≡ false → count i (r ∷ rs) ≡ count i rs
count-other i r rs h = ground (arith, ==-flip i r h)

count-this : (r : ℕ) (rs : List ℕ) → count r (r ∷ rs) ≡ suc (count r rs)
count-this r rs = ground (arith, ==_refl r)

module _ (graph : Graph) (universe : List ℕ) where
  -- The counters of every element, where these are yet to be notified.
  abbrev pub Accounts : List ℕ → List ℕ → Elements → Type 0
  Accounts pr pb s =
      (i : ℕ)
      → IsAccounted (unready (readiness s) (graph.runtime_dependencies i)) (count i pr)
          (unready (readiness s) (graph.build_dependencies i)) (count i pb) (s.state i)

  abbrev pub todo : Elements → ℕ
  todo s = unready (readiness s) universe

  pub put-Accounts :
      (e : ℕ) (x : Element) (s : Elements) (pr pb pr' pb' : List ℕ)
      → x.ready_for_runtime_and_cached ≡ readiness s e
      → Accounts pr pb s
      → ((i : ℕ) → (i == e) ≡ false → (count i pr ≡ count i pr') × (count i pb ≡ count i pb'))
      → IsAccounted
          (unready (readiness s) (graph.runtime_dependencies e))
          (count e pr')
          (unready (readiness s) (graph.build_dependencies e))
          (count e pb')
          x
      → Accounts pr' pb' (put e x s)
  put-Accounts e x s pr pb pr' pb' same h others this =
      subst
        (λ R.
          (i : ℕ)
          → IsAccounted (unready R (graph.runtime_dependencies i)) (count i pr')
              (unready R (graph.build_dependencies i)) (count i pb') ((put e x s).state i))
        (sym (readiness-put e x s same))
        (λ i.
          put-each
            (λ j y.
              IsAccounted (unready (readiness s) (graph.runtime_dependencies j)) (count j pr')
                (unready (readiness s) (graph.build_dependencies j)) (count j pb') y)
            e x s i
            (λ n.
              IsAccounted-shift _ (count i pr) _ (count i pb) _ _ _ _ (s.state i)
                (ap (λ c. unready (readiness s) (graph.runtime_dependencies i) + c) (others i n).0)
                (ap (λ c. unready (readiness s) (graph.build_dependencies i) + c) (others i n).1)
                (omega arith) (h i))
            this)

  pub put-todo :
      (e : ℕ) (x : Element) (s : Elements)
      → x.ready_for_runtime_and_cached ≡ readiness s e
      → todo (put e x s) ≡ todo s
  put-todo e x s same = ap (λ R. unready R universe) (readiness-put e x s same)

  -- What a handler of readiness does: the accounts are right and everything is settled.
  pub record IsUpdated (pr pb : List ℕ) (s s' : Elements) : Type 0 where
    pub accounts : Accounts pr pb s'
    pub settled : Settled s'
    pub no_more : todo s' ≤ todo s
    pub kept : Kept s s'

  pub IsUpdated-trans :
      (pr pb pr' pb' : List ℕ) (s t u : Elements)
      → IsUpdated pr pb s t
      → IsUpdated pr' pb' t u
      → IsUpdated pr' pb' s u
  IsUpdated-trans pr pb pr' pb' s t u h k = record {
    accounts = k.accounts;
    settled = k.settled;
    no_more = omega (arith, h.no_more, k.no_more);
    kept = Kept-trans s t u h.kept k.kept;
  }

  -- The state after a counter has gone down.
  pub record IsCounted (pr pb : List ℕ) (r : ℕ) (s s' : Elements) : Type 0 where
    pub accounts : Accounts pr pb s'
    pub settled_but : SettledBut r s'
    pub same_todo : todo s' ≡ todo s
    pub kept : Kept s s'

  decremented_runtime :
      (u p v q n : ℕ) (x : Element)
      → IsAccounted u (suc p) v q x
      → x.runtime_deps_uncached ≡ n
      → IsAccounted u p v q (record x { runtime_deps_uncached = n - 1 })
  decremented_runtime u p v q n x a e = record {
    runtime_count = omega (arith, a.runtime_count, e);
    build_count = a.build_count;
    ready_runtime = a.ready_runtime;
    ready_cached = a.ready_cached;
    ready_keyed = a.ready_keyed;
    artifact_keyed = a.artifact_keyed;
    assembly_artifact = a.assembly_artifact;
  }

  decremented_build :
      (u p v q n : ℕ) (x : Element)
      → IsAccounted u p v (suc q) x
      → x.build_deps_uncached ≡ n
      → IsAccounted u p v q (record x { build_deps_uncached = n - 1 })
  decremented_build u p v q n x a e = record {
    runtime_count = a.runtime_count;
    build_count = omega (arith, a.build_count, e);
    ready_runtime = a.ready_runtime;
    ready_cached = a.ready_cached;
    ready_keyed = a.ready_keyed;
    artifact_keyed = a.artifact_keyed;
    assembly_artifact = a.assembly_artifact;
  }

  never_negative : (n u p : ℕ) → n ≡ u + suc p → (n == 0) ≡ false
  never_negative n u p h = ground arith

  -- An element is replaced by one with the same flags, of which a counter has gone down.
  put-IsCounted :
      (r : ℕ) (x : Element) (s : Elements) (pr pb pr' pb' : List ℕ)
      → x.ready_for_runtime_and_cached ≡ readiness s r
      → IsKept (s.state r) x
      → Accounts pr pb s
      → Settled s
      → ((i : ℕ) → (i == r) ≡ false → (count i pr ≡ count i pr') × (count i pb ≡ count i pb'))
      → IsAccounted
          (unready (readiness s) (graph.runtime_dependencies r))
          (count r pr')
          (unready (readiness s) (graph.build_dependencies r))
          (count r pb')
          x
      → IsCounted pr' pb' r s (put r x s)
  put-IsCounted r x s pr pb pr' pb' same k h w others this = record {
    accounts = put-Accounts r x s pr pb pr' pb' same h others this;
    settled_but = put-SettledBut r x s (λ i _. w i);
    same_todo = put-todo r x s same;
    kept = put-Kept r x s k;
  }

  decrement_runtime-IsCounted :
      (r : ℕ) (rs pb : List ℕ) (s : Elements)
      → Accounts (r ∷ rs) pb s
      → Settled s
      → Returns (IsCounted rs pb r s) (decrement_runtime r s)
  unfolding decrement_runtime
  decrement_runtime-IsCounted r rs pb s h w =
      let a =
        subst
          (λ c.
            IsAccounted (unready (readiness s) (graph.runtime_dependencies r)) c
              (unready (readiness s) (graph.build_dependencies r)) (count r pb) (s.state r))
          (count-this r rs) (h r) in
      Returns-if _ ((s.state r).runtime_deps_uncached == 0) (raise assertion) _
        (λ z. absurd (ground (arith, z, never_negative _ _ _ a.runtime_count)))
        (λ _.
          put-IsCounted r _ s (r ∷ rs) pb rs pb refl
            (record {
              same_required = refl;
              same_scheduled = refl;
              same_done = refl;
              same_artifact = refl;
            })
            h w (λ i n. (count-other i r rs n, refl))
            (decremented_runtime _ _ _ _ _ (s.state r) a refl))

  pub decrement_build-IsCounted :
      (r : ℕ) (pr rs : List ℕ) (s : Elements)
      → Accounts pr (r ∷ rs) s
      → Settled s
      → Returns
          (λ s'. IsCounted pr rs r s s' × is_settled (s'.state r) ≡ true)
          (decrement_build r s)
  unfolding decrement_build
  decrement_build-IsCounted r pr rs s h w =
      let a =
        subst
          (λ c.
            IsAccounted (unready (readiness s) (graph.runtime_dependencies r)) (count r pr)
              (unready (readiness s) (graph.build_dependencies r)) c (s.state r))
          (count-this r rs) (h r) in
      Returns-if _ ((s.state r).build_deps_uncached == 0) (raise assertion) _
        (λ z. absurd (ground (arith, z, never_negative _ _ _ a.build_count)))
        (λ _. (
          put-IsCounted r _ s pr (r ∷ rs) pr rs refl
              (record {
                same_required = refl;
                same_scheduled = refl;
                same_done = refl;
                same_artifact = refl;
              })
              h w (λ i n. (refl, count-other i r rs n))
              (decremented_build _ _ _ _ _ (s.state r) a refl),
          put-each (λ j y. is_settled y ≡ true) r
              (record (s.state r) { build_deps_uncached = (s.state r).build_deps_uncached - 1 }) s r
              (λ _. w r) (w r),
        ))

  -- One more element that is settled.
  pub settle : (r : ℕ) (s : Elements) → SettledBut r s → is_settled (s.state r) ≡ true → Settled s
  settle r s h k i = elim (Bool-cases (i == r)) [
    | inl m ↦ subst (λ j. is_settled (s.state j) ≡ true) (sym (==→eq i r m)) k
    | inr n ↦ h i n
  ]

  -- What `_update_ready_for_runtime_and_cached` does, given enough fuel.
  abbrev pub Updates : ℕ → (ℕ → Elements → Outcome Elements) → Type 0
  Updates fuel update_ready =
      (e : ℕ) (s : Elements) (pr pb : List ℕ)
      → contains universe e ≡ true
      → todo s < fuel
      → Accounts pr pb s
      → SettledBut e s
      → Returns (IsUpdated pr pb s) (update_ready e s)

  waits_settled : (x : Element) → (x.runtime_deps_uncached == 0) ≡ false → is_settled x ≡ true
  waits_settled x h = ground arith

  pub IsCounted-settled :
      (pr pb : List ℕ) (r : ℕ) (s s' : Elements)
      → IsCounted pr pb r s s'
      → is_settled (s'.state r) ≡ true
      → IsUpdated pr pb s s'
  IsCounted-settled pr pb r s s' c k = record {
    accounts = c.accounts;
    settled = settle r s' c.settled_but k;
    no_more = omega (arith, c.same_todo);
    kept = c.kept;
  }

  pub IsCounted-IsUpdated :
      (pr pb pr' pb' : List ℕ) (r : ℕ) (s s' t : Elements)
      → IsCounted pr pb r s s'
      → IsUpdated pr' pb' s' t
      → IsUpdated pr' pb' s t
  IsCounted-IsUpdated pr pb pr' pb' r s s' t c u = record {
    accounts = u.accounts;
    settled = u.settled;
    no_more = omega (arith, u.no_more, c.same_todo);
    kept = Kept-trans s s' t c.kept u.kept;
  }

  pub notify_runtime-IsUpdated :
      (fuel : ℕ) (update_ready : ℕ → Elements → Outcome Elements) (rs pr pb : List ℕ) (s : Elements)
      → Updates fuel update_ready
      → All (λ r. contains universe r ≡ true) rs
      → todo s < fuel
      → Accounts (rs ++ pr) pb s
      → Settled s
      → Returns (IsUpdated pr pb s) (notify_runtime update_ready rs s)
  unfolding notify_runtime
  notify_runtime-IsUpdated fuel update_ready [] pr pb s updates u l h w = record {
    accounts = h;
    settled = w;
    no_more = omega arith;
    kept = λ i. IsKept-refl (s.state i);
  }
  notify_runtime-IsUpdated fuel update_ready (r ∷ rs) pr pb s updates u l h w =
      Returns-bind (IsCounted (rs ++ pr) pb r s) _ (decrement_runtime r s) _
        (decrement_runtime-IsCounted r (rs ++ pr) pb s h w)
        (λ s1 c.
          Returns-bind (IsUpdated (rs ++ pr) pb s) _
            (if (s1.state r).runtime_deps_uncached == 0 then update_ready r s1 else ok s1) _
            (Returns-if _ ((s1.state r).runtime_deps_uncached == 0) (update_ready r s1) (ok s1)
              (λ z.
                Returns-weaken _ _ (update_ready r s1)
                  (λ t k. IsCounted-IsUpdated (rs ++ pr) pb (rs ++ pr) pb r s s1 t c k)
                  (updates r s1 (rs ++ pr) pb u.0 (omega (arith, c.same_todo)) c.accounts
                    c.settled_but))
              (λ z. IsCounted-settled (rs ++ pr) pb r s s1 c (waits_settled (s1.state r) z)))
            (λ s2 k.
              Returns-weaken _ _ (notify_runtime update_ready rs s2)
                (λ t k'. IsUpdated-trans (rs ++ pr) pb pr pb s s2 t k k')
                (notify_runtime-IsUpdated fuel update_ready rs pr pb s2 updates u.1
                  (omega (arith, k.no_more)) k.accounts k.settled)))
