-- ===== src/Pipeline/Dependencies/PostOrder.antt =====
-- Orders in which each element comes after its dependencies, on lists of element numbers.
use buildstream.Common.{
  ℕ, ◌<◌, ◌≡◌, refl, sym, fun_ext, subst, Bool, Bool-cases, true, false, ◌||◌, List, [], ◌∷◌, ◌++◌,
  inl, inr, ◌==◌, ==→eq, ==_refl, contains, All, All-weaken, arith,
}

-- What has been seen once these were yielded too.
abbrev pub with_yields : (ℕ → Bool) → List ℕ → ℕ → Bool
with_yields seen ys x = contains ys x || seen x

-- Each element comes after its dependencies, and comes once.
abbrev pub IsPostOrder : (ℕ → List ℕ) → (ℕ → Bool) → List ℕ → Type 0
IsPostOrder deps seen [] = Unit
IsPostOrder deps seen (y ∷ ys) =
    All (λ d. seen d ≡ true) (deps y) × seen y ≡ false × IsPostOrder deps (λ x. y == x || seen x) ys

-- The dependencies of an element have a lesser rank than the element.
abbrev pub Falls : (ℕ → List ℕ) → (ℕ → ℕ) → Type 0
Falls deps rank = (e : ℕ) → All (λ d. rank d < rank e) (deps e)

contains-append : (xs ys : List ℕ) (x : ℕ) → contains (xs ++ ys) x ≡ contains xs x || contains ys x
contains-append [] ys x = refl
contains-append (y ∷ xs) ys x = ground (arith, contains-append xs ys x)

==_sym : (a b : ℕ) → (a == b) ≡ false → (b == a) ≡ false
==_sym a b h = ground arith

below_itself : (n : ℕ) → n < n → ⊥
below_itself n l = omega arith

differs : (rank : ℕ → ℕ) (e d : ℕ) → rank d < rank e → (e == d) ≡ false
differs rank e d l = elim (Bool-cases (e == d)) [
  | inl h ↦ elim (below_itself (rank e) (subst (λ x. rank x < rank e) (sym (==→eq e d h)) l)) [ ]
  | inr h ↦ h
]

pub seen_of_lesser :
    (rank : ℕ → ℕ) (e : ℕ) (seen : ℕ → Bool) (ds : List ℕ)
    → All (λ d. rank d < rank e) ds
    → All (λ d. (e == d || seen d) ≡ true) ds
    → All (λ d. seen d ≡ true) ds
seen_of_lesser rank e seen [] l h = tt
seen_of_lesser rank e seen (d ∷ ds) l h =
    (by_other (e == d) (differs rank e d l.0) h.0, seen_of_lesser rank e seen ds l.1 h.1)
  where
    by_other : (b : Bool) → b ≡ false → (b || seen d) ≡ true → seen d ≡ true
    by_other b n h = ground arith

pub yields_lack :
    (rank : ℕ → ℕ) (e : ℕ) (ys : List ℕ) → All (λ y. rank y < rank e) ys → contains ys e ≡ false
yields_lack rank e [] l = refl
yields_lack rank e (y ∷ ys) l =
    neither (y == e) (==_sym e y (differs rank e y l.0)) (yields_lack rank e ys l.1)
  where
    neither : (b : Bool) → b ≡ false → contains ys e ≡ false → (b || contains ys e) ≡ false
    neither b n h = ground arith

pub with_yields-append :
    (seen : ℕ → Bool) (ys zs : List ℕ) (x : ℕ)
    → with_yields (with_yields seen ys) zs x ≡ with_yields seen (ys ++ zs) x
with_yields-append seen ys zs x = ground (arith, contains-append ys zs x)

pub append-seen :
    (seen : ℕ → Bool) (ys zs : List ℕ) (x : ℕ)
    → with_yields seen ys x ≡ true
    → with_yields seen (ys ++ zs) x ≡ true
append-seen seen ys zs x h = ground (arith, contains-append ys zs x)

pub marked_seen : (b c s t : Bool) → t ≡ (b || s) → (c || t) ≡ true → (b || (c || s)) ≡ true
marked_seen b c s t h k = ground arith

pub last_seen :
    (ys : List ℕ) (e x : ℕ) (s t : Bool)
    → t ≡ (e == x || s)
    → (contains ys x || t) ≡ (contains (ys ++ e ∷ []) x || s)
last_seen ys e x s t h = ground (arith, contains-append ys (e ∷ []) x)

pub contains-last : (ys : List ℕ) (e : ℕ) → contains (ys ++ e ∷ []) e ≡ true
contains-last ys e = ground (arith, contains-append ys (e ∷ []) e, ==_refl e)

module _ (deps : ℕ → List ℕ) where
  pub IsPostOrder-same :
      (s t : ℕ → Bool) (ys : List ℕ)
      → ((x : ℕ) → s x ≡ t x)
      → IsPostOrder deps s ys
      → IsPostOrder deps t ys
  IsPostOrder-same s t ys same h = subst (λ u. IsPostOrder deps u ys) (fun_ext same) h

  pub IsPostOrder-append :
      (seen : ℕ → Bool) (xs ys : List ℕ)
      → IsPostOrder deps seen xs
      → IsPostOrder deps (with_yields seen xs) ys
      → IsPostOrder deps seen (xs ++ ys)
  IsPostOrder-append seen [] ys h k = k
  IsPostOrder-append seen (x ∷ xs) ys h k = (
    h.0,
    h.1,
    IsPostOrder-append (λ z. x == z || seen z) xs ys h.2
        (IsPostOrder-same _ _ ys (λ z. ground arith) k),
  )

  pub IsPostOrder-last :
      (seen : ℕ → Bool) (e : ℕ)
      → All (λ d. seen d ≡ true) (deps e)
      → seen e ≡ false
      → IsPostOrder deps seen (e ∷ [])
  IsPostOrder-last seen e h k = (h, k, tt)

  module _ (rank : ℕ → ℕ) (falls : Falls deps rank) where
    -- What is not among the dependencies of the elements that are yielded can be forgotten.
    pub IsPostOrder-forget :
        (e : ℕ) (seen : ℕ → Bool) (ys : List ℕ)
        → All (λ y. rank y < rank e) ys
        → IsPostOrder deps (λ x. e == x || seen x) ys
        → IsPostOrder deps seen ys
    IsPostOrder-forget e seen [] l h = tt
    IsPostOrder-forget e seen (y ∷ ys) l h = (
      seen_of_lesser rank e seen (deps y)
          (All-weaken _ _ (deps y) (λ d k. omega (arith, l.0)) (falls y)) h.0,
      ground arith,
      IsPostOrder-forget e (λ x. y == x || seen x) ys l.1
          (IsPostOrder-same _ _ ys (λ z. ground arith) h.2),
    )

pub post_order_at :
    (deps : ℕ → List ℕ) (seen : ℕ → Bool) (xs zs : List ℕ) (e : ℕ)
    → IsPostOrder deps seen (xs ++ e ∷ zs)
    → All (λ d. with_yields seen xs d ≡ true) (deps e) × with_yields seen xs e ≡ false
post_order_at deps seen [] zs e h = (h.0, h.1)
post_order_at deps seen (x ∷ xs) zs e h =
    let (a, n) = post_order_at deps (λ z. x == z || seen z) xs zs e h.2 in
    (All-weaken _ _ (deps e) (λ d k. shifted d true k) a, shifted e false n)
  where
    shifted :
        (d : ℕ) (b : Bool)
        → (contains xs d || (x == d || seen d)) ≡ b
        → ((x == d || contains xs d) || seen d) ≡ b
    shifted d b k = ground arith

pub without_seen : (b c : Bool) → (b || false) ≡ c → b ≡ c
without_seen b c h = ground arith
