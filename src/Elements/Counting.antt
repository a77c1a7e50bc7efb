-- ===== src/Elements/Counting.antt =====
-- src/buildstream/element.py: the counters of dependencies that are not ready, as counts over lists.
use buildstream.Common.{
  ℕ, ◌+◌, ◌≤◌, ◌<◌, ◌≡◌, refl, sym, Bool, true, false, List, [], ◌∷◌, ◌++◌, ◌==◌, ==→eq,
  if◌then◌else◌, contains, subst, arith, fun_ext,
}
use buildstream.Elements.{Element, Elements, put}

abbrev pub count : ℕ → List ℕ → ℕ
count e [] = 0
count e (d ∷ ds) = (if d == e then 1 else 0) + count e ds

abbrev pub unready : (ℕ → Bool) → List ℕ → ℕ
unready ready [] = 0
unready ready (d ∷ ds) = (if ready d then 0 else 1) + unready ready ds

abbrev pub mark : ℕ → (ℕ → Bool) → ℕ → Bool
mark e ready i = if i == e then true else ready i

pub count-append : (ds es : List ℕ) (e : ℕ) → count e (ds ++ es) ≡ count e ds + count e es
count-append [] es e = omega arith
count-append (d ∷ ds) es e = omega (arith, count-append ds es e)

marked :
    (b r : Bool) (n m k : ℕ)
    → (b ≡ true → r ≡ false)
    → n + k ≡ m
    → (if (if b then true else r) then 0 else 1) + n + ((if b then 1 else 0) + k)
      ≡ (if r then 0 else 1) + m
marked b r n m k h e = ground arith

pub unready-mark :
    (e : ℕ) (ready : ℕ → Bool) (ds : List ℕ)
    → ready e ≡ false
    → unready (mark e ready) ds + count e ds ≡ unready ready ds
unready-mark e ready [] h = omega arith
unready-mark e ready (d ∷ ds) h =
    marked (d == e) (ready d) (unready (mark e ready) ds) (unready ready ds) (count e ds)
      (λ m. subst (λ x. ready x ≡ false) (sym (==→eq d e m)) h) (unready-mark e ready ds h)

pub count-contains : (e : ℕ) (xs : List ℕ) → contains xs e ≡ true → 1 ≤ count e xs
count-contains e [] h = ground arith
count-contains e (x ∷ xs) h = ground (arith, count-contains e xs)

pub unready-mark_less :
    (e : ℕ) (ready : ℕ → Bool) (xs : List ℕ)
    → contains xs e ≡ true
    → ready e ≡ false
    → unready (mark e ready) xs < unready ready xs
unready-mark_less e ready xs c h = omega (arith, unready-mark e ready xs h, count-contains e xs c)

-- What holds of every element holds after one is replaced, if it holds of the new state.
pub put-each :
    (P : ℕ → Element → Type 0) (e : ℕ) (x : Element) (s : Elements) (i : ℕ)
    → ((i == e) ≡ false → P i (s.state i))
    → P e x
    → P i ((put e x s).state i)
put-each P e x s i other this = by_case (i == e) refl
  where
    by_case : (b : Bool) → (i == e) ≡ b → P i (if b then x else s.state i)
    by_case true h = subst (λ j. P j x) (sym (==→eq i e h)) this
    by_case false h = other h

abbrev pub readiness : Elements → ℕ → Bool
readiness s i = (s.state i).ready_for_runtime_and_cached

-- Replacing an element by one that is as ready.
pub readiness-put :
    (e : ℕ) (x : Element) (s : Elements)
    → x.ready_for_runtime_and_cached ≡ readiness s e
    → readiness (put e x s) ≡ readiness s
readiness-put e x s h =
    fun_ext
      (λ i. put-each (λ j y. y.ready_for_runtime_and_cached ≡ readiness s j) e x s i (λ _. refl) h)

pub readiness-put_ready :
    (e : ℕ) (x : Element) (s : Elements)
    → x.ready_for_runtime_and_cached ≡ true
    → readiness (put e x s) ≡ mark e (readiness s)
readiness-put_ready e x s h = fun_ext (λ i. by_case i (i == e))
  where
    by_case :
        (i : ℕ) (b : Bool)
        → (if b then x else s.state i).ready_for_runtime_and_cached
          ≡ (if b then true else readiness s i)
    by_case i true = h
    by_case i false = refl
