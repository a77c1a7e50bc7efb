-- ===== src/Pipeline/Planner/Depths.antt =====
-- The depths that _Planner gives: at least as deep as asked for, and deeper along build dependencies.
use buildstream.Common.{
  subst, sym, ap, ◌∙◌, ==→eq, ==_refl, All-weaken, ℕ, zero, suc, ◌+◌, ◌≤◌, ◌<◌, ◌≡◌, refl, Bool,
  true, false, Option, none, some, List, [], ◌∷◌, arith, ◌==◌, if◌then◌else◌, contains, lookup,
  insert, lookup-insert, Outcome, ok, All, Returns, Returns-bind, Returns-weaken, Returns-if,
  Bool-cases, inl, inr,
}
use buildstream.Pipeline.Planner.{DepthMap, is_planned, plan_each, plan_element, plan_roots}

-- The element has a depth, of at least `d`.
abbrev pub AtLeast : ℕ → Option ℕ → Type 0
AtLeast d none = ⊥
AtLeast d (some c) = d ≤ c

-- Nothing becomes less deep.
abbrev pub Deeper : DepthMap → DepthMap → Type 0
Deeper m m' = (x d : ℕ) → AtLeast d (lookup x m) → AtLeast d (lookup x m')

module _ (run_deps build_deps : ℕ → List ℕ) where
  -- Of every element with a depth, the run dependencies are as deep and the build dependencies
  -- deeper.
  abbrev pub IsClosed : DepthMap → Type 0
  IsClosed m =
      (x d : ℕ)
      → lookup x m ≡ some d
      → All (λ r. AtLeast d (lookup r m)) (run_deps x)
        × All (λ b. AtLeast (d + 1) (lookup b m)) (build_deps x)

  -- A rank that falls along dependencies: the graph has no cycle.
  pub record IsRanked (rank : ℕ → ℕ) : Type 0 where
    pub run_falls : (x : ℕ) → All (λ r. rank r < rank x) (run_deps x)
    pub build_falls : (x : ℕ) → All (λ b. rank b < rank x) (build_deps x)

  module _ (rank : ℕ → ℕ) (ranked : IsRanked rank) where
    -- The result of planning elements of ranks below `bound`: closed, nothing less deep, and the
    -- elements from there on as they were.
    abbrev Grown : ℕ → DepthMap → DepthMap → Type 0
    Grown bound m m' =
        IsClosed m' × Deeper m m' × ((x : ℕ) → bound ≤ rank x → lookup x m' ≡ lookup x m)

    abbrev Planned : ℕ → ℕ → ℕ → DepthMap → DepthMap → Type 0
    Planned bound e depth m m' = Grown bound m m' × AtLeast depth (lookup e m')

    Grown-trans :
        (bound : ℕ) (m m1 m2 : DepthMap) → Grown bound m m1 → Grown bound m1 m2 → Grown bound m m2
    Grown-trans bound m m1 m2 g h = (h.0, (λ x k a. h.1 x k (g.1 x k a)), λ x l. h.2 x l ∙ g.2 x l)

    plan_each_lem :
        (bound : ℕ) (f : ℕ → DepthMap → Outcome DepthMap) (depth : ℕ) (ds : List ℕ) (m : DepthMap)
        → IsClosed m
        → All (λ d. (n : DepthMap) → IsClosed n → Returns (Planned bound d depth n) (f d n)) ds
        → Returns
            (λ m'. Grown bound m m' × All (λ d. AtLeast depth (lookup d m')) ds)
            (plan_each run_deps build_deps f ds m)
    unfolding plan_each
    plan_each_lem bound f depth [] m c h = ((c, (λ x d a. a), λ x l. refl), tt)
    plan_each_lem bound f depth (d ∷ ds) m c h =
        Returns-bind (Planned bound d depth m) _ (f d m) _ (h.0 m c) (λ m1 (g1, at1).
          Returns-weaken _ _ (plan_each run_deps build_deps f ds m1)
            (λ m2 (g2, all2). (Grown-trans bound m m1 m2 g1 g2, (g2.1 d depth at1, all2)))
            (plan_each_lem bound f depth ds m1 g1.0 h.1))

    insert-Deeper :
        (e depth : ℕ) (m : DepthMap)
        → is_planned (lookup e m) depth ≡ false
        → Deeper m (insert e depth m)
    insert-Deeper e depth m n x k a = rw (lookup-insert e x depth m) (decide (e == x) refl)
      where
        below : (o : Option ℕ) → is_planned o depth ≡ false → AtLeast k o → k ≤ depth
        below none h b = absurd b
        below (some p) h b = ground arith

        decide : (b : Bool) → (e == x) ≡ b → AtLeast k (if b then some depth else lookup x m)
        decide true q =
            below (lookup e m) n (subst (λ y. AtLeast k (lookup y m)) (sym (==→eq e x q)) a)
        decide false q = a

    -- The element whose dependencies are planned gets its depth.
    insert-Planned :
        (e depth : ℕ) (m : DepthMap)
        → is_planned (lookup e m) depth ≡ false
        → IsClosed m
        → All (λ r. AtLeast depth (lookup r m)) (run_deps e)
        → All (λ b. AtLeast (depth + 1) (lookup b m)) (build_deps e)
        → Planned (rank e + 1) e depth m (insert e depth m)
    insert-Planned e depth m n c rs bs = ((closed, deeper, frame), there)
      where
        deeper : Deeper m (insert e depth m)
        deeper = insert-Deeper e depth m n

        lift :
            (k : ℕ) (xs : List ℕ)
            → All (λ r. AtLeast k (lookup r m)) xs
            → All (λ r. AtLeast k (lookup r (insert e depth m))) xs
        lift k xs h = All-weaken _ _ xs (λ x a. deeper x k a) h

        decide :
            (b : Bool) (x d : ℕ)
            → (e == x) ≡ b
            → (if b then some depth else lookup x m) ≡ some d
            → All (λ r. AtLeast d (lookup r (insert e depth m))) (run_deps x)
              × All (λ r. AtLeast (d + 1) (lookup r (insert e depth m))) (build_deps x)
        decide true x d q h =
            subst
              (λ y.
                All (λ r. AtLeast d (lookup r (insert e depth m))) (run_deps y)
                × All (λ r. AtLeast (d + 1) (lookup r (insert e depth m))) (build_deps y))
              (==→eq e x q)
              (subst
                (λ k.
                  All (λ r. AtLeast k (lookup r (insert e depth m))) (run_deps e)
                  × All (λ r. AtLeast (k + 1) (lookup r (insert e depth m))) (build_deps e))
                (ground arith) (lift depth (run_deps e) rs, lift (depth + 1) (build_deps e) bs))
        decide false x d q h =
            let (cr, cb) = c x d h in (lift d (run_deps x) cr, lift (d + 1) (build_deps x) cb)

        closed : IsClosed (insert e depth m)
        closed x d h = decide (e == x) x d refl (rw (lookup-insert e x depth m) at h)

        other : (x : ℕ) → rank e + 1 ≤ rank x → (e == x) ≡ false
        other x l = elim (Bool-cases (e == x)) [
          | inl q ↦ absurd (omega (arith, ap rank (==→eq e x q)))
          | inr q ↦ q
        ]

        frame : (x : ℕ) → rank e + 1 ≤ rank x → lookup x (insert e depth m) ≡ lookup x m
        frame x l = rw (lookup-insert e x depth m, other x l)

        there : AtLeast depth (lookup e (insert e depth m))
        there = rw (lookup-insert e e depth m, ==_refl e) (omega arith)

    not_visiting :
        (e : ℕ) (visiting : List ℕ)
        → All (λ v. rank e < rank v) visiting
        → contains visiting e ≡ false
    not_visiting e [] h = refl
    not_visiting e (v ∷ vs) h = elim (Bool-cases (v == e)) [
      | inl q ↦ absurd (omega (arith, ap rank (==→eq v e q), h.0))
      | inr q ↦ rw q (not_visiting e vs h.1)
    ]

    is_planned-AtLeast : (o : Option ℕ) (depth : ℕ) → is_planned o depth ≡ true → AtLeast depth o
    is_planned-AtLeast none depth h = cc
    is_planned-AtLeast (some p) depth h = ground arith

    -- An element's own depth is set after those of its dependencies.
    finish-Planned :
        (e depth : ℕ) (m m1 m2 : DepthMap)
        → is_planned (lookup e m) depth ≡ false
        → Grown (rank e) m m1
        → All (λ r. AtLeast depth (lookup r m1)) (run_deps e)
        → Grown (rank e) m1 m2
        → All (λ b. AtLeast (depth + 1) (lookup b m2)) (build_deps e)
        → Planned (rank e + 1) e depth m (insert e depth m2)
    finish-Planned e depth m m1 m2 n g1 rs g2 bs =
        let (c, deep, frame) = Grown-trans (rank e) m m1 m2 g1 g2 in
        let same : lookup e m2 ≡ lookup e m = frame e (omega arith) in
        let (grown, there) =
          insert-Planned e depth m2 (rw same n) c
            (All-weaken _ _ (run_deps e) (λ r a. g2.1 r depth a) rs) bs in
        (
          Grown-trans (rank e + 1) m m2 (insert e depth m2) (c, deep, λ x l. frame x (omega arith))
              grown,
          there,
        )

    -- With more fuel than its rank, planning an element ends, gives it at least the depth asked for,
    -- and keeps build dependencies deeper than what needs them.
    pub plan_element_lem :
        (fuel : ℕ) (visiting : List ℕ) (depth e : ℕ) (m : DepthMap)
        → rank e < fuel
        → All (λ v. rank e < rank v) visiting
        → IsClosed m
        → Returns
            (Planned (rank e + 1) e depth m)
            (plan_element run_deps build_deps fuel visiting depth e m)
    unfolding plan_element
    plan_element_lem zero visiting depth e m l v c = elim l [ ]
    plan_element_lem (suc fuel) visiting depth e m l v c =
        let below : (k d : ℕ)
            → rank d < rank e
            → (n : DepthMap) → IsClosed n
            → Returns (Planned (rank e) d k n)
                (plan_element run_deps build_deps fuel (e ∷ visiting) k d n) =
          λ k d f n cn.
            Returns-weaken _ _ (plan_element run_deps build_deps fuel (e ∷ visiting) k d n)
              (λ n' (g, a). ((g.0, g.1, λ x q. g.2 x (omega arith)), a))
              (plan_element_lem fuel (e ∷ visiting) k d n (omega arith)
                (f, All-weaken _ _ visiting (λ w p. omega arith) v) cn) in
        rw (not_visiting e visiting v) (
          Returns-if (Planned (rank e + 1) e depth m) (is_planned (lookup e m) depth) (ok m) _
            (λ p. ((c, (λ x d a. a), λ x k. refl), is_planned-AtLeast (lookup e m) depth p))
            (λ n.
              Returns-bind _ _
                (plan_each run_deps build_deps
                  (plan_element run_deps build_deps fuel (e ∷ visiting) depth) (run_deps e) m)
                _
                (plan_each_lem (rank e) _ depth (run_deps e) m c
                  (All-weaken _ _ (run_deps e) (λ d f. below depth d f) (ranked.run_falls e)))
                (λ m1 (g1, rs).
                  Returns-bind _ _
                    (plan_each run_deps build_deps
                      (plan_element run_deps build_deps fuel (e ∷ visiting) (depth + 1))
                      (build_deps e) m1)
                    _
                    (plan_each_lem (rank e) _ (depth + 1) (build_deps e) m1 g1.0 (
                      All-weaken _ _ (build_deps e) (λ d f. below (depth + 1) d f)
                        (ranked.build_falls e)))
                    (λ m2 (g2, bs). finish-Planned e depth m m1 m2 n g1 rs g2 bs))))

    -- The whole plan: it ends, every root has a depth, and the depths are closed.
    pub plan_roots_lem :
        (fuel : ℕ) (roots : List ℕ)
        → All (λ e. rank e < fuel) roots
        → Returns
            (λ m. IsClosed m × All (λ e. AtLeast 0 (lookup e m)) roots)
            (plan_roots run_deps build_deps fuel roots [])
    unfolding plan_roots
    plan_roots_lem fuel roots h =
        Returns-weaken _ _
          (plan_each run_deps build_deps (plan_element run_deps build_deps fuel [] 0) roots [])
          (λ m (g, all). (g.0, all))
          (plan_each_lem fuel (plan_element run_deps build_deps fuel [] 0) 0 roots [] (λ x d e. cc)
            (All-weaken _ _ roots
              (λ e l n c.
                Returns-weaken _ _ (plan_element run_deps build_deps fuel [] 0 e n)
                  (λ n' (g, a). ((g.0, g.1, λ x q. g.2 x (omega arith)), a))
                  (plan_element_lem fuel [] 0 e n l tt c))
              h))
