-- ===== src/Loader/Circles.antt =====
-- src/buildstream/_loader/loader.py: what the check of circular dependencies finds.
use buildstream.Common.{
  ℕ, zero, suc, ◌<◌, ◌≡◌, refl, sym, subst, true, List, [], ◌∷◌, ◌==◌, ==→eq, Bool-cases, either,
  contains, get_elem?, Option, none, some, Never, All, inl, inr, arith,
}
use buildstream.Loader.{
  Verdict, all_validated, circular, unfinished, Search, elements_of, chain_from, Step, found, going,
  visit, look, search, check_circular_deps,
}

module _ (dependencies : ℕ → List ℕ) where
  -- Whatever an element depends on, also indirectly, ends somewhere.
  pub data IsAcyclic : ℕ → Type 0 where
    acyclic :
        (e : ℕ) → ((i d : ℕ) → get_elem? (dependencies e) i ≡ some d → IsAcyclic d) → IsAcyclic e

  abbrev pub Depends : ℕ → ℕ → Type 0
  Depends e d = (i : ℕ) × (get_elem? (dependencies e) i ≡ some d)

  -- Each depends on the next, from the first element to the last.
  abbrev pub Leads : ℕ → List ℕ → ℕ → Type 0
  Leads e [] last = e ≡ last
  Leads e (d ∷ ds) last = Depends e d × Leads d ds last

  abbrev pub IsCircle : List ℕ → Type 0
  IsCircle [] = Never
  IsCircle (e ∷ []) = Never
  IsCircle (e ∷ d ∷ ds) = Leads e (d ∷ ds) e

  abbrev BeginAcyclic : ℕ → ℕ → Type 0
  BeginAcyclic e n = (i d : ℕ) → i < n → get_elem? (dependencies e) i ≡ some d → IsAcyclic d

  module _ (top : ℕ) where
    -- An element waits for the one that follows it in the sequence.
    abbrev Wait : ℕ → List (ℕ × ℕ) → Type 0
    Wait above [] = above ≡ top
    Wait above ((e, n) ∷ rest) =
        ((i : ℕ) × (n ≡ suc i) × BeginAcyclic e i × (get_elem? (dependencies e) i ≡ some above))
        × Wait e rest

    abbrev IsSequence : List (ℕ × ℕ) → Type 0
    IsSequence [] = IsAcyclic top
    IsSequence ((e, n) ∷ rest) = BeginAcyclic e n × Wait e rest

    abbrev IsSearch : Search → Type 0
    IsSearch s = IsSequence s.sequence × All IsAcyclic s.validated

    abbrev pub Judges : Verdict → Type 0
    Judges all_validated = IsAcyclic top
    Judges (circular chain) = IsCircle chain
    Judges unfinished = Unit

    abbrev IsStep : Step → Type 0
    IsStep (found chain) = IsCircle chain
    IsStep (going next) = IsSearch next

    get_elem?-before :
        (xs : List ℕ) (n i d : ℕ) → get_elem? xs n ≡ none → get_elem? xs i ≡ some d → i < n
    get_elem?-before [] n i d h k = absurd (ground (arith, k))
    get_elem?-before (x ∷ xs) zero i d h k = absurd (ground (arith, h))
    get_elem?-before (x ∷ xs) (suc n) zero d h k = omega arith
    get_elem?-before (x ∷ xs) (suc n) (suc i) d h k = omega (arith, get_elem?-before xs n i d h k)

    BeginAcyclic-suc :
        (e n d : ℕ)
        → BeginAcyclic e n
        → get_elem? (dependencies e) n ≡ some d
        → IsAcyclic d
        → BeginAcyclic e (suc n)
    BeginAcyclic-suc e n d h at a i c l k = elim (Bool-cases (i == n)) [
      | inl same ↦ subst IsAcyclic {x = d} (ground (arith, at, k, ==→eq i n same)) a
      | inr other ↦ h i c (ground arith) k
    ]

    BeginAcyclic-IsAcyclic :
        (e n : ℕ) → BeginAcyclic e n → get_elem? (dependencies e) n ≡ none → IsAcyclic e
    BeginAcyclic-IsAcyclic e n h ended =
        acyclic e λ i d k. h i d (get_elem?-before (dependencies e) n i d ended k) k

    All-contains : (es : List ℕ) (e : ℕ) → All IsAcyclic es → contains es e ≡ true → IsAcyclic e
    All-contains [] e h k = absurd (ground (arith, k))
    All-contains (x ∷ es) e h k = elim (Bool-cases (x == e)) [
      | inl same ↦ subst IsAcyclic (==→eq x e same) h.0
      | inr other ↦ All-contains es e h.1 (ground (arith, k, other))
    ]

    Wait-IsSequence : (e : ℕ) (rest : List (ℕ × ℕ)) → Wait e rest → IsAcyclic e → IsSequence rest
    Wait-IsSequence e [] w a = subst IsAcyclic w a
    Wait-IsSequence e ((u, n) ∷ rest) ((i, next, h, at), w) a =
        (subst (BeginAcyclic u) (sym next) (BeginAcyclic-suc u i e h at a), w)

    -- Down the sequence to the element, every entry depends on the one above.
    chain_from-IsCircle :
        (element e d : ℕ) (ds : List ℕ) (rest : List (ℕ × ℕ))
        → Wait e rest
        → Leads e (d ∷ ds) element
        → contains (e ∷ elements_of rest) element ≡ true
        → IsCircle (chain_from element (e ∷ elements_of rest) (d ∷ ds))
    chain_from-IsCircle element e d ds [] w path h =
        either IsCircle (e == element) _ _
          (λ same. subst (Leads e (d ∷ ds)) (sym (==→eq e element same)) path)
          (λ other. absurd (ground (arith, h, other)))
    chain_from-IsCircle element e d ds ((u, n) ∷ rest) ((i, next, k, at), w) path h =
        either IsCircle (e == element) _ _
          (λ same. subst (Leads e (d ∷ ds)) (sym (==→eq e element same)) path)
          (λ other.
            chain_from-IsCircle element u e (d ∷ ds) rest w ((i, at), path)
              (ground (arith, h, other)))

    visit-IsStep :
        (element this index : ℕ) (rest : List (ℕ × ℕ)) (validated : List ℕ)
        → BeginAcyclic this index
        → Wait this rest
        → All IsAcyclic validated
        → get_elem? (dependencies this) index ≡ some element
        → IsStep (visit dependencies element this index rest validated)
    unfolding visit
    visit-IsStep element this index rest validated h w v eq =
        either IsStep (contains (this ∷ elements_of rest) element) _ _
          (λ c. chain_from-IsCircle element this element [] rest w ((index, eq), refl) c)
          (λ fresh.
            either IsStep (contains validated element) _ _
              (λ c.
                let before = All-contains validated element v c in
                ((BeginAcyclic-suc this index element h eq before, w), v))
              (λ unvisited.
                ((λ i d l at. absurd (omega (arith, l)), ((index, refl, h, eq), w)), v)))

    look-IsStep :
        (this index : ℕ) (rest : List (ℕ × ℕ)) (validated : List ℕ)
        → BeginAcyclic this index
        → Wait this rest
        → All IsAcyclic validated
        → (dependency : Option ℕ) → get_elem? (dependencies this) index ≡ dependency
        → IsStep (elim dependency [
          | some element ↦ visit dependencies element this index rest validated
          | none ↦ going (record { sequence = rest; validated = this ∷ validated })
        ])
    look-IsStep this index rest validated h w v (some element) eq =
        visit-IsStep element this index rest validated h w v eq
    look-IsStep this index rest validated h w v none eq =
        let done = BeginAcyclic-IsAcyclic this index h eq in
        (Wait-IsSequence this rest w done, (done, v))

    goes_on-Judges :
        (run : Search → Verdict) (step : Step)
        → IsStep step
        → ((next : Search) → IsSearch next → Judges (run next))
        → Judges (elim step [ found chain ↦ circular chain | going next ↦ run next ])
    goes_on-Judges run (found chain) c h = c
    goes_on-Judges run (going next) c h = h next c

    search-Judges :
        (fuel : ℕ) (sequence : List (ℕ × ℕ)) (validated : List ℕ)
        → IsSequence sequence
        → All IsAcyclic validated
        → Judges (search dependencies fuel sequence validated)
    unfolding search look
    search-Judges zero sequence validated h v = tt
    search-Judges (suc fuel) [] validated h v = h
    search-Judges (suc fuel) ((this, index) ∷ rest) validated (h, w) v =
        goes_on-Judges (λ next. search dependencies fuel next.sequence next.validated)
          (look dependencies this index rest validated)
          (look-IsStep this index rest validated h w v (get_elem? (dependencies this) index) refl)
          (λ next c. search-Judges fuel next.sequence next.validated c.0 c.1)

    pub check_circular_deps-Judges : (fuel : ℕ) → Judges (check_circular_deps dependencies fuel top)
    unfolding check_circular_deps
    check_circular_deps-Judges fuel =
        search-Judges fuel ((top, 0) ∷ []) [] (λ i d l at. absurd (omega (arith, l)), refl) tt
