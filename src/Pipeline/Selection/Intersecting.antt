-- ===== src/Pipeline/Selection/Intersecting.antt =====
-- src/buildstream/_pipeline.py, find_intersection: where the excepted elements meet what is targeted.
use buildstream.Common.{
  ℕ, zero, suc, ◌<◌, ◌≡◌, refl, subst, Bool, true, false, ◌==◌, ==→eq, ==_refl, Bool-cases, inl,
  inr, List, [], ◌∷◌, ◌++◌, contains, All, All-weaken, All-append, Outcome, ok, Returns,
  Returns-bind, Returns-if, Returns-weaken, arith,
}
use buildstream.Pipeline.Dependencies.PostOrder.{Falls}
use buildstream.Pipeline.Selection.{find_each, find_intersection}

-- In front of the first targeted element, whatever a member depends on is a member.
abbrev pub IsApproach : (ℕ → List ℕ) → List ℕ → (ℕ → Bool) → Type 0
IsApproach deps targeted has =
    (e : ℕ) → has e ≡ true → contains targeted e ≡ false → All (λ d. has d ≡ true) (deps e)

-- The intersection has every targeted element that the starts reach, themselves included, without
-- passing through another one, and no others. `passed` are the elements that were looked at.
pub record IsBorder (deps : ℕ → List ℕ) (targeted starts intersection : List ℕ) : Type 0 where
  pub passed : List ℕ
  pub begun : All (λ d. contains passed d ≡ true) starts
  pub approach : IsApproach deps targeted (contains passed)
  pub complete :
      (x : ℕ)
      → contains passed x ≡ true
      → contains targeted x ≡ true
      → contains intersection x ≡ true
  pub reached :
      (has : ℕ → Bool)
      → IsApproach deps targeted has
      → All (λ d. has d ≡ true) starts
      → All (λ y. (has y ≡ true) × (contains targeted y ≡ true)) intersection

contains-left : (xs ys : List ℕ) (x : ℕ) → contains xs x ≡ true → contains (xs ++ ys) x ≡ true
contains-left [] ys x h = absurd (ground (arith, h))
contains-left (a ∷ xs) ys x h = ground (arith, h, contains-left xs ys x)

contains-right : (xs ys : List ℕ) (x : ℕ) → contains ys x ≡ true → contains (xs ++ ys) x ≡ true
contains-right [] ys x h = h
contains-right (a ∷ xs) ys x h = ground (arith, contains-right xs ys x h)

module _ (deps : ℕ → List ℕ) (targeted : List ℕ) where
  -- What is done with an element: it is in the intersection, or its dependencies are looked at.
  abbrev IsSettled : ℕ → List ℕ → List ℕ → Type 0
  IsSettled x ys passed =
      (contains targeted x ≡ true → contains ys x ≡ true)
      × (contains targeted x ≡ false → All (λ d. contains passed d ≡ true) (deps x))

  record IsFound (starts before ys passed : List ℕ) : Type 0 where
    begun : All (λ d. contains passed d ≡ true) starts
    kept : (x : ℕ) → contains before x ≡ true → contains passed x ≡ true
    settled : (x : ℕ) → contains passed x ≡ true → contains before x ≡ false → IsSettled x ys passed
    reached :
        (has : ℕ → Bool)
        → IsApproach deps targeted has
        → All (λ d. has d ≡ true) starts
        → All (λ y. (has y ≡ true) × (contains targeted y ≡ true)) ys

  IsFound-visited : (e : ℕ) (v : List ℕ) → contains v e ≡ true → IsFound (e ∷ []) v [] v
  IsFound-visited e v h = record {
    begun = (h, tt);
    kept = λ x k. k;
    settled = λ x k n. absurd (ground (arith, k, n));
    reached = λ has a s. tt;
  }

  IsFound-targeted :
      (e : ℕ) (v : List ℕ) → contains targeted e ≡ true → IsFound (e ∷ []) v (e ∷ []) (e ∷ v)
  IsFound-targeted e v t = record {
    begun = (ground (arith, ==_refl e), tt);
    kept = λ x k. ground (arith, k);
    settled = λ x k n. (
      λ _. ground (arith, k, n),
      λ u.
          let same : e ≡ x = ==→eq e x (ground (arith, k, n)) in
          absurd (ground (arith, subst (λ z. contains targeted z ≡ true) same t, u)),
    );
    reached = λ has a s. ((s.0, t), tt);
  }

  IsFound-deeper :
      (e : ℕ) (v ys passed : List ℕ)
      → contains targeted e ≡ false
      → IsFound (deps e) (e ∷ v) ys passed
      → IsFound (e ∷ []) v ys passed
  IsFound-deeper e v ys passed u f = record {
    begun = (f.kept e (ground (arith, ==_refl e)), tt);
    kept = λ x k. f.kept x (ground (arith, k));
    settled = λ x k n. elim (Bool-cases (e == x)) [
      | inl same ↦
          subst (λ z. IsSettled z ys passed) (==→eq e x same)
            (λ t. absurd (ground (arith, t, u)), λ _. f.begun)
      | inr other ↦ f.settled x k (ground (arith, n, other))
    ];
    reached = λ has a s. f.reached has a (a e s.0 u);
  }

  IsFound-both :
      (d : ℕ) (ds v ys v1 zs v2 : List ℕ)
      → IsFound (d ∷ []) v ys v1
      → IsFound ds v1 zs v2
      → IsFound (d ∷ ds) v (ys ++ zs) v2
  IsFound-both d ds v ys v1 zs v2 f g = record {
    begun = (g.kept d f.begun.0, g.begun);
    kept = λ x k. g.kept x (f.kept x k);
    settled = λ x k n. elim (Bool-cases (contains v1 x)) [
      | inl early ↦
          let settled = f.settled x early n in
          (
            λ t. contains-left ys zs x (settled.0 t),
            λ u. All-weaken _ _ (deps x) (λ y p. g.kept y p) (settled.1 u),
          )
      | inr late ↦
          let settled = g.settled x k late in (λ t. contains-right ys zs x (settled.0 t), settled.1)
    ];
    reached = λ has a s. All-append _ ys zs (f.reached has a (s.0, tt)) (g.reached has a s.1);
  }

  find_each-IsFound :
      (find : ℕ → List ℕ → Outcome (List ℕ × List ℕ)) (ds v : List ℕ)
      → All (λ d. (w : List ℕ) → Returns (λ o. IsFound (d ∷ []) w o.0 o.1) (find d w)) ds
      → Returns (λ o. IsFound ds v o.0 o.1) (find_each find ds v)
  unfolding find_each
  find_each-IsFound find [] v h = record {
    begun = tt;
    kept = λ x k. k;
    settled = λ x k n. absurd (ground (arith, k, n));
    reached = λ has a s. tt;
  }
  find_each-IsFound find (d ∷ ds) v h =
      Returns-bind (λ o. IsFound (d ∷ []) v o.0 o.1) _ (find d v) _ (h.0 v)
        (λ (ys, v1) f.
          Returns-bind (λ o. IsFound ds v1 o.0 o.1) _ (find_each find ds v1) _
            (find_each-IsFound find ds v1 h.1) (λ (zs, v2) g. IsFound-both d ds v ys v1 zs v2 f g))

  module _ (rank : ℕ → ℕ) (falls : Falls deps rank) where
    find_intersection-IsFound :
        (fuel e : ℕ) (v : List ℕ)
        → rank e < fuel
        → Returns (λ o. IsFound (e ∷ []) v o.0 o.1) (find_intersection deps targeted fuel e v)
    unfolding find_intersection
    find_intersection-IsFound zero e v l = elim l [ ]
    find_intersection-IsFound (suc fuel) e v l =
        let deeper : Returns (λ o. IsFound (deps e) (e ∷ v) o.0 o.1)
            (find_each (find_intersection deps targeted fuel) (deps e) (e ∷ v)) =
          find_each-IsFound (find_intersection deps targeted fuel) (deps e) (e ∷ v) (
            All-weaken _ _ (deps e)
              (λ d r w. find_intersection-IsFound fuel d w (omega (arith, r, l))) (falls e)) in
        Returns-if _ (contains v e) (ok ([], v)) _ (λ h. IsFound-visited e v h)
          (λ h.
            Returns-if _ (contains targeted e) (ok (e ∷ [], e ∷ v)) _ (λ t. IsFound-targeted e v t)
              (λ u.
                Returns-weaken _ _
                  (find_each (find_intersection deps targeted fuel) (deps e) (e ∷ v))
                  (λ o f. IsFound-deeper e v o.0 o.1 u f) deeper))

    -- The intersection of the starts, with nothing visited before.
    pub find_each-IsBorder :
        (fuel : ℕ) (starts : List ℕ)
        → All (λ x. rank x < fuel) starts
        → Returns
            (λ o. IsBorder deps targeted starts o.0)
            (find_each (find_intersection deps targeted fuel) starts [])
    find_each-IsBorder fuel starts r =
        Returns-weaken _ _ (find_each (find_intersection deps targeted fuel) starts [])
          (λ o f. record {
            passed = o.1;
            begun = f.begun;
            approach = λ e k u. (f.settled e k refl).1 u;
            complete = λ x k t. (f.settled x k refl).0 t;
            reached = f.reached;
          })
          (find_each-IsFound (find_intersection deps targeted fuel) starts []
            (All-weaken _ _ starts (λ x l w. find_intersection-IsFound fuel x w l) r))
