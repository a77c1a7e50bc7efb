-- ===== src/Pipeline/Planner/Order.antt =====
-- The order of the plan that _Planner.plan returns.
use buildstream.Common.{
  subst, sym, ap, ◌∙◌, leb→le, ==→eq, ==_refl, ℕ, zero, suc, ◌+◌, ◌≤◌, ◌<◌, ◌≡◌, refl, true, false,
  Option, none, some, List, [], ◌∷◌, ◌++◌, map, arith, ◌==◌, leb, if◌then◌else◌, contains, lookup,
  insert, lookup-insert, Outcome, ok, All, All-weaken, Ensures, Ensures-bind, Ensures-if, Returns,
  Returns-bind, Returns-Ensures, Bool-cases, inl, inr,
}
use buildstream.Pipeline.Planner.{
  DepthMap, is_planned, plan_each, plan_element, plan_roots, insert_sorted, depth_sorted, plan,
}
use buildstream.Pipeline.Planner.Depths.{AtLeast, IsRanked, plan_roots_lem}

abbrev HasUniqueKeys : DepthMap → Type 0
HasUniqueKeys [] = Unit
HasUniqueKeys ((k, v) ∷ m) = (lookup k m ≡ none) × HasUniqueKeys m

insert-HasUniqueKeys : (k v : ℕ) (m : DepthMap) → HasUniqueKeys m → HasUniqueKeys (insert k v m)
insert-HasUniqueKeys k v [] u = (refl, tt)
insert-HasUniqueKeys k v ((j, w) ∷ m) u = elim (Bool-cases (j == k)) [
  | inl e ↦ rw e u
  | inr e ↦ rw e (fresh e, insert-HasUniqueKeys k v m u.1)
]
  where
    fresh : (j == k) ≡ false → lookup j (insert k v m) ≡ none
    fresh e = ground (arith, lookup-insert k j v m, u.0)

abbrev IsDescending : List (ℕ × ℕ) → Type 0
IsDescending [] = Unit
IsDescending (x ∷ xs) = All (λ y. y.1 ≤ x.1) xs × IsDescending xs

All-insert_sorted {ℓ} :
    (P : ℕ × ℕ → Type ℓ) (x : ℕ × ℕ) (xs : List (ℕ × ℕ))
    → P x
    → All P xs
    → All P (insert_sorted x xs)
unfolding insert_sorted
All-insert_sorted P x [] h a = (h, tt)
All-insert_sorted P (e, d) ((f, c) ∷ xs) h a = elim (Bool-cases (leb c d)) [
  | inl b ↦ rw b (h, a)
  | inr b ↦ rw b (a.0, All-insert_sorted P (e, d) xs h a.1)
]

insert_sorted-IsDescending :
    (x : ℕ × ℕ) (xs : List (ℕ × ℕ)) → IsDescending xs → IsDescending (insert_sorted x xs)
unfolding insert_sorted
insert_sorted-IsDescending x [] h = (tt, tt)
insert_sorted-IsDescending (e, d) ((f, c) ∷ xs) h = elim (Bool-cases (leb c d)) [
  | inl b ↦
      rw b
        ((ground arith, All-weaken _ (λ y. y.1 ≤ d) xs (λ y p. omega (arith, leb→le c d b)) h.0), h)
  | inr b ↦ rw b (
    All-insert_sorted (λ y. y.1 ≤ c) (e, d) xs (ground arith) h.0,
    insert_sorted-IsDescending (e, d) xs h.1,
  )
]

depth_sorted-IsDescending : (m : DepthMap) → IsDescending (depth_sorted m)
unfolding depth_sorted
depth_sorted-IsDescending [] = tt
depth_sorted-IsDescending (x ∷ xs) =
    insert_sorted-IsDescending x (depth_sorted xs) (depth_sorted-IsDescending xs)

lookup-insert_sorted :
    (e d x : ℕ) (xs : List (ℕ × ℕ))
    → lookup e xs ≡ none
    → lookup x (insert_sorted (e, d) xs) ≡ (if e == x then some d else lookup x xs)
unfolding insert_sorted
lookup-insert_sorted e d x [] h = refl
lookup-insert_sorted e d x ((f, c) ∷ xs) h = ground (arith, lookup-insert_sorted e d x xs)

lookup-depth_sorted :
    (x : ℕ) (m : DepthMap) → HasUniqueKeys m → lookup x (depth_sorted m) ≡ lookup x m
unfolding depth_sorted
lookup-depth_sorted x [] u = refl
lookup-depth_sorted x ((e, d) ∷ m) u =
    lookup-insert_sorted e d x (depth_sorted m) (lookup-depth_sorted e m u.1 ∙ u.0)
    ∙ ap (λ o. if e == x then some d else o) (lookup-depth_sorted x m u.1)

lookup-below :
    (b d c : ℕ) (xs : List (ℕ × ℕ)) → All (λ y. y.1 ≤ c) xs → lookup b xs ≡ some d → d ≤ c
lookup-below b d c [] a h = cc
lookup-below b d c (x ∷ xs) a h = ground (arith, lookup-below b d c xs a.1, a.0)

abbrev names : List (ℕ × ℕ) → List ℕ
names = map (λ x. x.0)

-- In a descending list the deeper of two elements stands first.
deeper_first :
    (items : List (ℕ × ℕ)) (xs ys : List ℕ) (e b d c : ℕ)
    → IsDescending items
    → names items ≡ xs ++ e ∷ ys
    → lookup e items ≡ some d
    → lookup b items ≡ some c
    → d < c
    → contains xs b ≡ true
deeper_first [] xs ys e b d c s n le lb l = cc
deeper_first ((k, v) ∷ items) [] ys e b d c s n le lb l =
    let q : k ≡ e = cc n in absurd (ground (arith, q, lookup-below b c v items s.0))
deeper_first ((k, v) ∷ items) (x ∷ xs) ys e b d c s n le lb l =
    let q : k ≡ x = cc n in
    let rest : names items ≡ xs ++ e ∷ ys = cc n in
    ground (
      arith,
      q,
      lookup-below b c v items s.0,
      λ (p : lookup e items ≡ some d) (r : lookup b items ≡ some c).
          deeper_first items xs ys e b d c s.1 rest p r l,
    )

contains-names :
    (e d : ℕ) (items : List (ℕ × ℕ)) → AtLeast d (lookup e items) → contains (names items) e ≡ true
contains-names e d [] h = absurd h
contains-names e d ((k, v) ∷ items) h = elim (Bool-cases (k == e)) [
  | inl q ↦ rw q
  | inr q ↦ rw q (contains-names e d items (rw q at h))
]

some_of_names :
    (e : ℕ) (items : List (ℕ × ℕ)) (xs ys : List ℕ)
    → names items ≡ xs ++ e ∷ ys
    → (d : ℕ) × (lookup e items ≡ some d)
some_of_names e [] [] ys n = absurd (cc n)
some_of_names e [] (x ∷ xs) ys n = absurd (cc n)
some_of_names e ((k, v) ∷ items) [] ys n = let q : k ≡ e = cc n in (v, rw (q, ==_refl e))
some_of_names e ((k, v) ∷ items) (x ∷ xs) ys n =
    let (d, p) = some_of_names e items xs ys (cc n) in
    elim (Bool-cases (k == e)) [ inl q ↦ (v, rw q) | inr q ↦ (d, rw q p) ]

AtLeast-some : (d : ℕ) (o : Option ℕ) → AtLeast d o → (c : ℕ) × (o ≡ some c) × (d ≤ c)
AtLeast-some d none h = absurd h
AtLeast-some d (some c) h = (c, refl, h)

All_at {ℓ} : (P : ℕ → Type ℓ) (b : ℕ) (xs : List ℕ) → All P xs → contains xs b ≡ true → P b
All_at P b [] a h = cc
All_at P b (x ∷ xs) a h = elim (Bool-cases (x == b)) [
  | inl q ↦ subst P (==→eq x b q) a.0
  | inr q ↦ All_at P b xs a.1 (rw q at h)
]

module _ (run_deps build_deps : ℕ → List ℕ) where
  plan_each-HasUniqueKeys :
      (f : ℕ → DepthMap → Outcome DepthMap) (ds : List ℕ) (m : DepthMap)
      → ((d : ℕ) (n : DepthMap) → HasUniqueKeys n → Ensures HasUniqueKeys (f d n))
      → HasUniqueKeys m
      → Ensures HasUniqueKeys (plan_each run_deps build_deps f ds m)
  unfolding plan_each
  plan_each-HasUniqueKeys f [] m h u = u
  plan_each-HasUniqueKeys f (d ∷ ds) m h u =
      Ensures-bind HasUniqueKeys HasUniqueKeys (f d m) _ (h d m u)
        (λ m' u'. plan_each-HasUniqueKeys f ds m' h u')

  plan_element-HasUniqueKeys :
      (fuel : ℕ) (visiting : List ℕ) (depth e : ℕ) (m : DepthMap)
      → HasUniqueKeys m
      → Ensures HasUniqueKeys (plan_element run_deps build_deps fuel visiting depth e m)
  unfolding plan_element
  plan_element-HasUniqueKeys zero visiting depth e m u = tt
  plan_element-HasUniqueKeys (suc fuel) visiting depth e m u =
      Ensures-if HasUniqueKeys (contains visiting e) (ok m) _ u (
        Ensures-if HasUniqueKeys (is_planned (lookup e m) depth) (ok m) _ u (
          Ensures-bind HasUniqueKeys HasUniqueKeys
            (plan_each run_deps build_deps
              (plan_element run_deps build_deps fuel (e ∷ visiting) depth) (run_deps e) m)
            _
            (plan_each-HasUniqueKeys _ (run_deps e) m
              (λ d n. plan_element-HasUniqueKeys fuel (e ∷ visiting) depth d n) u)
            (λ m1 u1.
              Ensures-bind HasUniqueKeys HasUniqueKeys
                (plan_each run_deps build_deps
                  (plan_element run_deps build_deps fuel (e ∷ visiting) (depth + 1)) (build_deps e)
                  m1)
                _
                (plan_each-HasUniqueKeys _ (build_deps e) m1
                  (λ d n. plan_element-HasUniqueKeys fuel (e ∷ visiting) (depth + 1) d n) u1)
                (λ m2 u2. insert-HasUniqueKeys e depth m2 u2))))

  -- Of a graph without cycles the plan is made, every root is in it, and each build dependency of an
  -- element of the plan stands before the element.
  pub plan-ordered :
      (rank : ℕ → ℕ) (fuel : ℕ) (roots : List ℕ)
      → IsRanked run_deps build_deps rank
      → All (λ e. rank e < fuel) roots
      → Returns
          (λ p.
            All (λ e. contains p.0 e ≡ true) roots
            × ((xs ys : List ℕ) (e b : ℕ)
                → p.0 ≡ xs ++ e ∷ ys
                → contains (build_deps e) b ≡ true
                → contains xs b ≡ true))
          (plan run_deps build_deps fuel roots)
  unfolding plan plan_roots
  plan-ordered rank fuel roots ranked h =
      Returns-bind _ _
        (plan_each run_deps build_deps (plan_element run_deps build_deps fuel [] 0) roots []) _
        (Returns-Ensures _ HasUniqueKeys
          (plan_each run_deps build_deps (plan_element run_deps build_deps fuel [] 0) roots [])
          (unfold plan_roots in plan_roots_lem run_deps build_deps rank ranked fuel roots h)
          (plan_each-HasUniqueKeys _ roots [] (λ d n. plan_element-HasUniqueKeys fuel [] 0 d n) tt))
        (λ m ((closed, there), unique). (
          All-weaken _ _ roots
              (λ e a. contains-names e 0 (depth_sorted m) (rw (lookup-depth_sorted e m unique) a))
              there,
          λ xs ys e b n mem.
              let (d, le) = some_of_names e (depth_sorted m) xs ys n in
              let at_b =
                All_at _ b (build_deps e) (closed e d (sym (lookup-depth_sorted e m unique) ∙ le)).1
                  mem in
              let (c, lb, l) = AtLeast-some (d + 1) (lookup b m) at_b in
              deeper_first (depth_sorted m) xs ys e b d c (depth_sorted-IsDescending m) n le
                (lookup-depth_sorted b m unique ∙ lb) (omega arith),
        ))
