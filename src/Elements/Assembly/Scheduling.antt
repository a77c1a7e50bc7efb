-- ===== src/Elements/Assembly/Scheduling.antt =====
-- src/buildstream/element.py: the dependencies of what is required and of what is scheduled are
-- required.
use buildstream.Common.{
  ℕ, suc, ◌+◌, ◌≤◌, ◌<◌, ◌≡◌, refl, sym, ◌∙◌, Bool, true, false, List, [], ◌∷◌, length,
  if◌then◌else◌, contains, arith, All, All-weaken, Outcome, Returns, Returns-bind, Returns-weaken,
}
use buildstream.Pipeline.Dependencies.{run_deps, build_deps, direct}
use buildstream.Elements.{Elements, Graph, has}
use buildstream.Elements.Counting.{unready}
use buildstream.Elements.Notifying.{Settled, Kept, Accounts, IsUpdated}
use buildstream.Elements.Assembly.{require_each}

pub unready_mono :
    (R R' : ℕ → Bool) (xs : List ℕ)
    → ((i : ℕ) → R i ≡ true → R' i ≡ true)
    → unready R' xs ≤ unready R xs
unready_mono R R' [] h = omega arith
unready_mono R R' (x ∷ xs) h = less (R x) (R' x) _ _ (h x) (unready_mono R R' xs h)
  where
    less :
        (b c : Bool) (n m : ℕ)
        → (b ≡ true → c ≡ true)
        → m ≤ n
        → (if c then 0 else 1) + m ≤ (if b then 0 else 1) + n
    less b c n m k l = ground arith

pub unready-length : (R : ℕ → Bool) (xs : List ℕ) → unready R xs ≤ length xs
unready-length R [] = omega arith
unready-length R (x ∷ xs) = less (R x) _ _ (unready-length R xs)
  where
    less : (b : Bool) (n m : ℕ) → n ≤ m → (if b then 0 else 1) + n ≤ suc m
    less b n m l = ground arith

abbrev pub required_of : Elements → ℕ → Bool
required_of s i = (s.state i).required

-- What is required stays so.
abbrev pub Grown : Elements → Elements → Type 0
Grown s s' = (i : ℕ) → required_of s i ≡ true → required_of s' i ≡ true

module _ (graph : Graph) (universe : List ℕ) where
  abbrev pub run_of : ℕ → List ℕ
  run_of = direct graph.build_dependencies graph.runtime_dependencies run_deps

  abbrev pub build_of : ℕ → List ℕ
  build_of = direct graph.build_dependencies graph.runtime_dependencies build_deps

  abbrev pub AllRequired : Elements → List ℕ → Type 0
  AllRequired s ds = All (λ d. required_of s d ≡ true) ds

  -- The direct runtime dependencies of what is required are required, but those of `xs`.
  abbrev pub RunClosed : List ℕ → Elements → Type 0
  RunClosed xs s =
      (i : ℕ) → contains xs i ≡ false → required_of s i ≡ true → AllRequired s (run_of i)

  -- The direct build dependencies of what is scheduled are required, but those of `ys`.
  abbrev pub BuildClosed : List ℕ → Elements → Type 0
  BuildClosed ys s =
      (i : ℕ)
      → contains ys i ≡ false
      → (s.state i).assemble_scheduled ≡ true
      → AllRequired s (build_of i)

  -- How many are not required.
  abbrev pub unrequired : Elements → ℕ
  unrequired s = unready (required_of s) universe

  -- What a request does: accounts, settlement and closure hold, and nothing is taken back.
  pub record IsRequested (xs ys : List ℕ) (s s' : Elements) : Type 0 where
    pub accounts : Accounts graph universe [] [] s'
    pub settled : Settled s'
    pub run_closed : RunClosed xs s'
    pub build_closed : BuildClosed ys s'
    pub grown : Grown s s'
    pub same_artifacts : (i : ℕ) → has (s'.state i).artifact ≡ has (s.state i).artifact

  pub IsRequested-trans :
      (xs ys xs' ys' : List ℕ) (s t u : Elements)
      → IsRequested xs ys s t
      → IsRequested xs' ys' t u
      → IsRequested xs' ys' s u
  IsRequested-trans xs ys xs' ys' s t u h k = record {
    accounts = k.accounts;
    settled = k.settled;
    run_closed = k.run_closed;
    build_closed = k.build_closed;
    grown = λ i r. k.grown i (h.grown i r);
    same_artifacts = λ i. k.same_artifacts i ∙ h.same_artifacts i;
  }

  pub fewer : (s s' : Elements) → Grown s s' → unrequired s' ≤ unrequired s
  fewer s s' g = unready_mono (required_of s) (required_of s') universe g

  pub AllRequired-Grown :
      (s s' : Elements) (ds : List ℕ) → Grown s s' → AllRequired s ds → AllRequired s' ds
  AllRequired-Grown s s' ds g h = All-weaken _ _ ds (λ d r. g d r) h

  pub Kept-Grown : (s s' : Elements) → Kept s s' → Grown s s'
  Kept-Grown s s' k i r = (k i).same_required ∙ r

  -- What only updates readiness is a request of nothing.
  pub IsUpdated-IsRequested :
      (xs ys : List ℕ) (s s' : Elements)
      → RunClosed xs s
      → BuildClosed ys s
      → IsUpdated graph universe [] [] s s'
      → IsRequested xs ys s s'
  IsUpdated-IsRequested xs ys s s' h k u =
      let g = Kept-Grown s s' u.kept in
      record {
        accounts = u.accounts;
        settled = u.settled;
        run_closed =
            λ i n r. AllRequired-Grown s s' (run_of i) g (h i n (sym (u.kept i).same_required ∙ r));
        build_closed = λ i n r.
            AllRequired-Grown s s' (build_of i) g (k i n (sym (u.kept i).same_scheduled ∙ r));
        grown = g;
        same_artifacts = λ i. (u.kept i).same_artifact;
      }

  -- What `_set_required` does, given enough fuel.
  abbrev pub Requires : ℕ → (ℕ → Elements → Outcome Elements) → Type 0
  Requires n set_required =
      (e : ℕ) (s : Elements) (xs ys : List ℕ)
      → contains universe e ≡ true
      → unrequired s < n
      → Accounts graph universe [] [] s
      → Settled s
      → RunClosed xs s
      → BuildClosed ys s
      → Returns (λ s'. IsRequested xs ys s s' × required_of s' e ≡ true) (set_required e s)

  pub require_each-IsRequested :
      (n : ℕ) (set_required : ℕ → Elements → Outcome Elements) (ds : List ℕ) (s : Elements)
      (xs ys : List ℕ)
      → Requires n set_required
      → All (λ d. contains universe d ≡ true) ds
      → unrequired s < n
      → Accounts graph universe [] [] s
      → Settled s
      → RunClosed xs s
      → BuildClosed ys s
      → Returns (λ s'. IsRequested xs ys s s' × AllRequired s' ds) (require_each set_required ds s)
  unfolding require_each
  require_each-IsRequested n set_required [] s xs ys f u l a w h k = (
    record {
      accounts = a;
      settled = w;
      run_closed = h;
      build_closed = k;
      grown = λ i r. r;
      same_artifacts = λ i. refl;
    },
    tt,
  )
  require_each-IsRequested n set_required (d ∷ ds) s xs ys f u l a w h k =
      Returns-bind (λ t. IsRequested xs ys s t × required_of t d ≡ true) _ (set_required d s) _
        (f d s xs ys u.0 l a w h k)
        (λ t (q, r).
          Returns-weaken (λ s'. IsRequested xs ys t s' × AllRequired s' ds) _
            (require_each set_required ds t)
            (λ s' (q', r'). (IsRequested-trans xs ys xs ys s t s' q q', (q'.grown d r, r')))
            (require_each-IsRequested n set_required ds t xs ys f u.1
              (omega (arith, fewer s t q.grown)) q.accounts q.settled q.run_closed q.build_closed))
