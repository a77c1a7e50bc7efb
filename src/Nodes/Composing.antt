-- ===== src/Nodes/Composing.antt =====
-- src/buildstream/node.pyx, mappings: what each key of a composed mapping holds.
use buildstream.Common.{
  ℕ, ◌≡◌, refl, ◌∙◌, Bool, true, false, ◌==◌, ==→eq, ==_refl, if◌then◌else◌, Option, none, some,
  Outcome, ok, raise, Ensures, Ensures-bind, Ensures-weaken, subst, arith,
}
use buildstream.Nodes.{Node, Fields, no_fields, field, get, assign, compose_on, composite_fields}

pub get-assign_same : (key : ℕ) (n : Node) (fs : Fields) → get key (assign key n fs) ≡ some n
get-assign_same key n no_fields = ground (arith, ==_refl key)
get-assign_same key n (field k m fs) = ground (arith, ==_refl key, get-assign_same key n fs)

pub get-assign_other :
    (key other : ℕ) (n : Node) (fs : Fields)
    → (key == other) ≡ false
    → get other (assign key n fs) ≡ get other fs
get-assign_other key other n no_fields h = ground arith
get-assign_other key other n (field k m fs) h = ground (arith, get-assign_other key other n fs h, h)

abbrev pub has : ℕ → Fields → Bool
has key no_fields = false
has key (field k n fs) = if k == key then true else has key fs

-- No key stands twice, as in a dictionary.
abbrev pub IsDistinct : Fields → Type 0
IsDistinct no_fields = Unit
IsDistinct (field k n fs) = (has k fs ≡ false) × IsDistinct fs

-- What a key holds once `source` is composed onto `old`.
abbrev pub Holds : ℕ → Option Node → Option Node → Option Node → Type 0
Holds key none old new = new ≡ old
Holds key (some n) old new = (m : Node) × (compose_on key n old ≡ ok m) × (new ≡ some m)

absent : (key : ℕ) (fs : Fields) → has key fs ≡ false → get key fs ≡ none
absent key no_fields h = refl
absent key (field k n fs) h = ground (arith, absent key fs)

ok_self {ℓ} : {A : Type ℓ} (m : Outcome A) → Ensures (λ a. m ≡ ok a) m
ok_self (ok a) = refl
ok_self (raise e) = tt

-- From a target in which the first field is composed to that target.
step-Holds :
    (k : ℕ) (n m : Node) (fs target result : Fields)
    → has k fs ≡ false
    → compose_on k n (get k target) ≡ ok m
    → ((key : ℕ) → Holds key (get key fs) (get key (assign k m target)) (get key result))
    → (key : ℕ) → (b : Bool) → (k == key) ≡ b
    → Holds key (if b then some n else get key fs) (get key target) (get key result)
step-Holds k n m fs target result fresh composed rest key true same =
    let kept : get k result ≡ get k (assign k m target) =
      subst (λ source. Holds k source (get k (assign k m target)) (get k result))
        (absent k fs fresh) (rest k) in
    subst (λ j. Holds j (some n) (get j target) (get j result)) (==→eq k key same)
      (m, composed, kept ∙ get-assign_same k m target)
step-Holds k n m fs target result fresh composed rest key false other =
    subst (λ old. Holds key (get key fs) old (get key result))
      (get-assign_other k key m target other) (rest key)

-- Once fields with distinct keys are composed onto a target without an error, each of their keys
-- holds its node composed onto what the target held, and every other key what it held.
pub composite_fields-Holds :
    (fs target : Fields)
    → IsDistinct fs
    → Ensures
        (λ result. (key : ℕ) → Holds key (get key fs) (get key target) (get key result))
        (composite_fields fs target)
unfolding composite_fields
composite_fields-Holds no_fields target d = λ key. refl
composite_fields-Holds (field k n fs) target d =
    Ensures-bind (λ m. compose_on k n (get k target) ≡ ok m)
      (λ result. (key : ℕ) → Holds key (get key (field k n fs)) (get key target) (get key result))
      (compose_on k n (get k target)) (λ m. composite_fields fs (assign k m target))
      (ok_self (compose_on k n (get k target)))
      (λ m composed.
        Ensures-weaken
          (λ result.
            (key : ℕ) → Holds key (get key fs) (get key (assign k m target)) (get key result))
          (λ result.
            (key : ℕ) → Holds key (get key (field k n fs)) (get key target) (get key result))
          (composite_fields fs (assign k m target))
          (λ result rest key.
            step-Holds k n m fs target result d.0 composed rest key (k == key) refl)
          (composite_fields-Holds fs (assign k m target) d.1))
