-- ===== src/Elements/Assembly/Closing.antt =====
-- src/buildstream/element.py: what requiring and scheduling one element keep.
use buildstream.Common.{
  ℕ, ◌≡◌, refl, sym, Bool, Bool-cases, true, false, inl, inr, List, [], ◌∷◌, ◌==◌, ==→eq,
  if◌then◌else◌, contains, subst, arith, fun_ext, none,
}
use buildstream.Elements.{Element, Elements, Graph, put, has}
use buildstream.Elements.Counting.{unready, mark, put-each, readiness}
use buildstream.Elements.Readiness.{IsAccounted, is_settled}
use buildstream.Elements.Notifying.{Settled, put-Settled, Accounts, put-Accounts}
use buildstream.Elements.Assembly.Scheduling.{
  required_of, Grown, run_of, build_of, AllRequired, RunClosed, BuildClosed, IsRequested,
  AllRequired-Grown,
}

pub required_accounts :
    (u p v q : ℕ) (x : Element)
    → IsAccounted u p v q x
    → IsAccounted u p v q (record x { required = true })
required_accounts u p v q x a = record {
  runtime_count = a.runtime_count;
  build_count = a.build_count;
  ready_runtime = a.ready_runtime;
  ready_cached = a.ready_cached;
  ready_keyed = a.ready_keyed;
  artifact_keyed = a.artifact_keyed;
  assembly_artifact = a.assembly_artifact;
}

pub scheduled_accounts :
    (u p v q : ℕ) (x : Element)
    → has x.artifact ≡ true
    → IsAccounted u p v q x
    → IsAccounted u p v q (record x { assemble_scheduled = true })
scheduled_accounts u p v q x h a = record {
  runtime_count = a.runtime_count;
  build_count = a.build_count;
  ready_runtime = a.ready_runtime;
  ready_cached = a.ready_cached;
  ready_keyed = a.ready_keyed;
  artifact_keyed = a.artifact_keyed;
  assembly_artifact = λ _. h;
}

pub called_accounts :
    (u p v q : ℕ) (x : Element)
    → IsAccounted u p v q x
    → IsAccounted u p v q (record x { required_callback = none })
called_accounts u p v q x a = record {
  runtime_count = a.runtime_count;
  build_count = a.build_count;
  ready_runtime = a.ready_runtime;
  ready_cached = a.ready_cached;
  ready_keyed = a.ready_keyed;
  artifact_keyed = a.artifact_keyed;
  assembly_artifact = a.assembly_artifact;
}

-- One element is replaced: what the other elements have stays.
put-Grown :
    (e : ℕ) (x : Element) (s : Elements)
    → ((s.state e).required ≡ true → x.required ≡ true)
    → Grown s (put e x s)
put-Grown e x s h i r =
    put-each (λ j y. required_of s j ≡ true → y.required ≡ true) e x s i (λ _ k. k) h r

pub mark-required :
    (e : ℕ) (x : Element) (s : Elements)
    → x.required ≡ true
    → required_of (put e x s) ≡ mark e (required_of s)
mark-required e x s h = fun_ext (λ i. by_case i (i == e))
  where
    by_case :
        (i : ℕ) (b : Bool)
        → (if b then x else s.state i).required ≡ (if b then true else required_of s i)
    by_case i true = h
    by_case i false = refl

-- Of an exemption list one more element, which is shown to need none.
in_cons : (e i : ℕ) (xs : List ℕ) → contains (e ∷ xs) i ≡ false → (i == e) ≡ false
in_cons e i xs h = ground (arith, h)

not_in_cons :
    (e i : ℕ) (xs : List ℕ) → contains xs i ≡ false → (i == e) ≡ false → contains (e ∷ xs) i ≡ false
not_in_cons e i xs h n = ground (arith, h, n)

pub in_tail : (e i : ℕ) (xs : List ℕ) → contains (e ∷ xs) i ≡ false → contains xs i ≡ false
in_tail e i xs h = ground (arith, h)

module _ (graph : Graph) (universe : List ℕ) where
  pub run_exempt :
      (e : ℕ) (xs : List ℕ) (s : Elements)
      → RunClosed graph universe (e ∷ xs) s
      → AllRequired graph universe s (run_of graph universe e)
      → RunClosed graph universe xs s
  run_exempt e xs s h this i n r = elim (Bool-cases (i == e)) [
    | inl m ↦
        subst (λ j. AllRequired graph universe s (run_of graph universe j)) (sym (==→eq i e m)) this
    | inr m ↦ h i (not_in_cons e i xs n m) r
  ]

  pub build_exempt :
      (e : ℕ) (ys : List ℕ) (s : Elements)
      → BuildClosed graph universe (e ∷ ys) s
      → AllRequired graph universe s (build_of graph universe e)
      → BuildClosed graph universe ys s
  build_exempt e ys s h this i n r = elim (Bool-cases (i == e)) [
    | inl m ↦
        subst (λ j. AllRequired graph universe s (build_of graph universe j)) (sym (==→eq i e m))
          this
    | inr m ↦ h i (not_in_cons e i ys n m) r
  ]

  pub put-RunClosed :
      (e : ℕ) (x : Element) (xs : List ℕ) (s : Elements)
      → ((s.state e).required ≡ true → x.required ≡ true)
      → ((contains xs e ≡ false) → x.required ≡ true → (s.state e).required ≡ true)
      → RunClosed graph universe xs s
      → RunClosed graph universe xs (put e x s)
  put-RunClosed e x xs s g back h i n r =
      AllRequired-Grown graph universe s (put e x s) (run_of graph universe i) (put-Grown e x s g) (
        put-each
          (λ j y.
            contains xs j ≡ false
            → y.required ≡ true
            → AllRequired graph universe s (run_of graph universe j))
          e x s i (λ _. h i) (λ m k. h e m (back m k)) n r)

  pub put-BuildClosed :
      (e : ℕ) (x : Element) (ys : List ℕ) (s : Elements)
      → ((s.state e).required ≡ true → x.required ≡ true)
      → ((contains ys e ≡ false)
          → x.assemble_scheduled ≡ true
          → (s.state e).assemble_scheduled ≡ true)
      → BuildClosed graph universe ys s
      → BuildClosed graph universe ys (put e x s)
  put-BuildClosed e x ys s g back h i n r =
      AllRequired-Grown graph universe s (put e x s) (build_of graph universe i) (put-Grown e x s g)
        (put-each
          (λ j y.
            contains ys j ≡ false
            → y.assemble_scheduled ≡ true
            → AllRequired graph universe s (build_of graph universe j))
          e x s i (λ _. h i) (λ m k. h e m (back m k)) n r)

  -- An element is replaced by one that waits for no less and has its artifact.
  pub put-IsRequested :
      (e : ℕ) (x : Element) (xs ys : List ℕ) (s : Elements)
      → x.ready_for_runtime_and_cached ≡ readiness s e
      → is_settled x ≡ true
      → has x.artifact ≡ has (s.state e).artifact
      → ((s.state e).required ≡ true → x.required ≡ true)
      → ((contains xs e ≡ false) → x.required ≡ true → (s.state e).required ≡ true)
      → ((contains ys e ≡ false)
          → x.assemble_scheduled ≡ true
          → (s.state e).assemble_scheduled ≡ true)
      → Accounts graph universe [] [] s
      → Settled s
      → RunClosed graph universe xs s
      → BuildClosed graph universe ys s
      → IsAccounted
          (unready (readiness s) (graph.runtime_dependencies e))
          0
          (unready (readiness s) (graph.build_dependencies e))
          0
          x
      → IsRequested graph universe xs ys s (put e x s)
  put-IsRequested e x xs ys s same k artifact g back back' a w h h' this = record {
    accounts = put-Accounts graph universe e x s [] [] [] [] same a (λ i n. (refl, refl)) this;
    settled = put-Settled e x s (λ i _. w i) k;
    run_closed = put-RunClosed e x xs s g back h;
    build_closed = put-BuildClosed e x ys s g back' h';
    grown = put-Grown e x s g;
    same_artifacts = λ i.
        put-each (λ j y. has y.artifact ≡ has (s.state j).artifact) e x s i (λ _. refl) artifact;
  }
