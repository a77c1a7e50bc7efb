-- ===== src/Pipeline/Selection/Traversing.antt =====
-- src/buildstream/_pipeline.py, except_elements: the loop over `queue`.
use buildstream.Common.{
  ℕ, zero, suc, ◌+◌, ◌<◌, ◌≤◌, ◌≡◌, refl, sym, subst, Bool, Bool-cases, true, false, ◌||◌, inl, inr,
  List, [], ◌∷◌, if◌then◌else◌, ◌==◌, ==→eq, ==_refl, length, contains, All, All-weaken, Returns,
  arith,
}
use buildstream.Pipeline.Selection.{extend, traverse}

pub contains-extend :
    (ds q : List ℕ) (x : ℕ) → contains (extend ds q) x ≡ (contains ds x || contains q x)
contains-extend [] q x = refl
contains-extend (d ∷ ds) q x = ground (arith, contains-extend ds (d ∷ q) x)

pub length-extend : (ds q : List ℕ) → length (extend ds q) ≡ length ds + length q
length-extend [] q = omega arith
length-extend (d ∷ ds) q = omega (arith, length-extend ds (d ∷ q))

pub All-extend : (P : ℕ → Type 0) (ds q : List ℕ) → All P ds → All P q → All P (extend ds q)
All-extend P [] q h k = k
All-extend P (d ∷ ds) q h k = All-extend P ds (d ∷ q) h.1 (h.0, k)

pub contains_self : (ds : List ℕ) → All (λ d. contains ds d ≡ true) ds
contains_self [] = tt
contains_self (d ∷ ds) = (
  ground (arith, ==_refl d),
  All-weaken _ _ ds (λ x h. weaker (d == x) (contains ds x) h) (contains_self ds),
)
  where
    weaker : (b c : Bool) → c ≡ true → (b || c) ≡ true
    weaker b c h = ground arith

weight_falls :
    (b c : Bool) (n a a' : ℕ) → a ≤ a' → (if b || c then 0 else n) + a ≤ (if c then 0 else n) + a'
weight_falls b c n a a' l = ground arith

weight_stays :
    (b c : Bool) (n a a' k : ℕ)
    → a + k ≤ a'
    → (if b || c then 0 else n) + a + k ≤ (if c then 0 else n) + a'
weight_stays b c n a a' k l = ground arith

weight_goes :
    (b c : Bool) (n a a' : ℕ)
    → b ≡ true
    → c ≡ false
    → a ≤ a'
    → (if b || c then 0 else n) + a + n ≤ (if c then 0 else n) + a'
weight_goes b c n a a' h k l = ground arith

or_right : (b c : Bool) → b ≡ false → (b || c) ≡ true → c ≡ true
or_right b c h k = ground arith

neither : (b c : Bool) → (b || c) ≡ false → (b ≡ false) × (c ≡ false)
neither b c h = (ground arith, ground arith)

settled_anyway : (a b c : Bool) → (a || b) ≡ true → (a || b || c) ≡ true
settled_anyway a b c h = ground arith

settled_still : (a b c d : Bool) → d ≡ false → (a || b || (d || c)) ≡ true → (a || b || c) ≡ true
settled_still a b c d n h = ground arith

-- The dependencies of those among `all` that are yet to be visited.
abbrev pub todo : (ℕ → List ℕ) → List ℕ → List ℕ → ℕ
todo deps v [] = 0
todo deps v (x ∷ xs) = (if contains v x then 0 else length (deps x)) + todo deps v xs

todo-cons :
    (deps : ℕ → List ℕ) (v : List ℕ) (e : ℕ) (xs : List ℕ) → todo deps (e ∷ v) xs ≤ todo deps v xs
todo-cons deps v e [] = omega arith
todo-cons deps v e (x ∷ xs) =
    weight_falls (e == x) (contains v x) (length (deps x)) (todo deps (e ∷ v) xs) (todo deps v xs)
      (todo-cons deps v e xs)

todo-visit :
    (deps : ℕ → List ℕ) (v : List ℕ) (e : ℕ) (xs : List ℕ)
    → contains xs e ≡ true
    → contains v e ≡ false
    → todo deps (e ∷ v) xs + length (deps e) ≤ todo deps v xs
todo-visit deps v e [] h n = ground arith
todo-visit deps v e (x ∷ xs) h n = elim (Bool-cases (x == e)) [
  | inl m ↦
      subst (λ y. todo deps (e ∷ v) (y ∷ xs) + length (deps e) ≤ todo deps v (y ∷ xs))
        (sym (==→eq x e m))
        (weight_goes (e == e) (contains v e) (length (deps e)) (todo deps (e ∷ v) xs)
          (todo deps v xs) (==_refl e) n (todo-cons deps v e xs))
  | inr m ↦
      weight_stays (e == x) (contains v x) (length (deps x)) (todo deps (e ∷ v) xs) (todo deps v xs)
        (length (deps e)) (todo-visit deps v e xs (or_right (x == e) (contains xs e) m h) n)
]

module _ (deps : ℕ → List ℕ) (intersection : List ℕ) where
  -- Visited, excepted, or waiting.
  abbrev pub is_settled : List ℕ → List ℕ → ℕ → Bool
  is_settled q v x = contains v x || contains intersection x || contains q x

  settled-skip :
      (e : ℕ) (q v : List ℕ) (x : ℕ)
      → (contains v e || contains intersection e) ≡ true
      → is_settled (e ∷ q) v x ≡ true
      → is_settled q v x ≡ true
  settled-skip e q v x p h = elim (Bool-cases (e == x)) [
    | inl m ↦
        subst (λ y. is_settled q v y ≡ true) (==→eq e x m)
          (settled_anyway (contains v e) (contains intersection e) (contains q e) p)
    | inr m ↦ settled_still (contains v x) (contains intersection x) (contains q x) (e == x) m h
  ]

  settled-visit :
      (e : ℕ) (q v : List ℕ) (x : ℕ)
      → is_settled (e ∷ q) v x ≡ true
      → is_settled (extend (deps e) q) (e ∷ v) x ≡ true
  settled-visit e q v x h = ground (arith, contains-extend (deps e) q x)

  -- A state of the loop: the dependencies of what was visited are settled, and so are the targets.
  pub record IsTraversal (targets q v : List ℕ) : Type 0 where
    pub targets_settled : All (λ t. is_settled q v t ≡ true) targets
    pub dependencies_settled : All (λ x. All (λ d. is_settled q v d ≡ true) (deps x)) v
    pub apart : All (λ x. contains intersection x ≡ false) v

  IsTraversal-skip :
      (targets : List ℕ) (e : ℕ) (q v : List ℕ)
      → (contains v e || contains intersection e) ≡ true
      → IsTraversal targets (e ∷ q) v
      → IsTraversal targets q v
  IsTraversal-skip targets e q v p t = record {
    targets_settled = All-weaken _ _ targets (λ x h. settled-skip e q v x p h) t.targets_settled;
    dependencies_settled =
        All-weaken _ _ v (λ y. All-weaken _ _ (deps y) (λ x h. settled-skip e q v x p h))
          t.dependencies_settled;
    apart = t.apart;
  }

  settled_new :
      (e : ℕ) (q v : List ℕ) (x : ℕ)
      → contains (deps e) x ≡ true
      → is_settled (extend (deps e) q) (e ∷ v) x ≡ true
  settled_new e q v x h = ground (arith, contains-extend (deps e) q x)

  IsTraversal-visit :
      (targets : List ℕ) (e : ℕ) (q v : List ℕ)
      → (contains v e || contains intersection e) ≡ false
      → IsTraversal targets (e ∷ q) v
      → IsTraversal targets (extend (deps e) q) (e ∷ v)
  IsTraversal-visit targets e q v p t = record {
    targets_settled = All-weaken _ _ targets (λ x h. settled-visit e q v x h) t.targets_settled;
    dependencies_settled = (
      All-weaken _ _ (deps e) (λ x h. settled_new e q v x h) (contains_self (deps e)),
      All-weaken _ _ v (λ y. All-weaken _ _ (deps y) (λ x h. settled-visit e q v x h))
          t.dependencies_settled,
    );
    apart = ((neither (contains v e) (contains intersection e) p).1, t.apart);
  }

  module _ (P : ℕ → Type 0)
      (closed : (e : ℕ) → P e → contains intersection e ≡ false → All P (deps e))
      (elements : List ℕ)
      (within : (e : ℕ)
        → contains elements e ≡ true
        → All (λ d. contains elements d ≡ true) (deps e)) where
    -- What the loop does with this fuel, from every state.
    abbrev Traverses : List ℕ → ℕ → Type 0
    Traverses targets fuel =
        (q v : List ℕ)
        → length q + todo deps v elements < fuel
        → IsTraversal targets q v
        → All (λ x. contains elements x ≡ true) q
        → All P q
        → All P v
        → Returns (λ v'. IsTraversal targets [] v' × All P v') (traverse deps intersection fuel q v)

    traverse-cons :
        (targets : List ℕ) (fuel e : ℕ) (q v : List ℕ)
        → Traverses targets fuel
        → length (e ∷ q) + todo deps v elements < suc fuel
        → IsTraversal targets (e ∷ q) v
        → All (λ x. contains elements x ≡ true) (e ∷ q)
        → All P (e ∷ q)
        → All P v
        → (passed : Bool) → (contains v e || contains intersection e) ≡ passed
        → Returns
            (λ v'. IsTraversal targets [] v' × All P v')
            (traverse deps intersection fuel
              (if passed then q else extend (deps e) q)
              (if passed then v else e ∷ v))
    traverse-cons targets fuel e q v rest l t u p w true h =
        rest q v (omega arith) (IsTraversal-skip targets e q v h t) u.1 p.1 w
    traverse-cons targets fuel e q v rest l t u p w false h =
        let (n, m) = neither (contains v e) (contains intersection e) h in
        rest (extend (deps e) q) (e ∷ v)
          (omega (arith, length-extend (deps e) q, todo-visit deps v e elements u.0 n))
          (IsTraversal-visit targets e q v h t) (All-extend _ (deps e) q (within e u.0) u.1)
          (All-extend P (deps e) q (closed e p.0 m) p.1) (p.0, w)

    pub traverse_lem : (targets : List ℕ) (fuel : ℕ) → Traverses targets fuel
    unfolding traverse
    traverse_lem targets zero q v l t u p w = elim l [ ]
    traverse_lem targets (suc fuel) [] v l t u p w = (t, w)
    traverse_lem targets (suc fuel) (e ∷ q) v l t u p w =
        traverse-cons targets fuel e q v (traverse_lem targets fuel) l t u p w
          (contains v e || contains intersection e) refl
