-- ===== src/Common/Raising.antt =====
-- Code that may raise: the errors that leave a handler, and the chain of such calls.
use mathlib.Core.Path.{◌≡◌, refl}
use mathlib.Core.Bool.{Bool, true, false}
use buildstream.Common.Tests.{if◌then◌else◌}

-- `assertion` is a failed `assert`, `impl_error` an `ImplError`, `key_error` a missing key,
-- `value_error` a `list.remove` of what is not there, `attribute_error` a use of None, `type_error` an
-- argument of another type than the one declared, `index_error` an item that a list lacks,
-- `recursion_error` a recursion deeper than the code permits, and `diverged` a model that ran out of
-- fuel.
pub data Error : Type 0 where
  assertion impl_error key_error value_error attribute_error : Error
  index_error recursion_error : Error
  type_error load_error plugin_error pipeline_error diverged : Error

pub data Outcome {ℓ} (A : Type ℓ) : Type ℓ where
  ok : A → Outcome A
  raise : Error → Outcome A

-- What follows a call runs on its value, and an error passes through.
infixl 5 ◌>>=◌ ◌>>◌
abbrev pub ◌>>=◌ {ℓ μ} : {A : Type ℓ} {B : Type μ} → Outcome A → (A → Outcome B) → Outcome B
raise error >>= next = raise error
ok value >>= next = next value

abbrev pub ◌>>◌ {ℓ} : {B : Type ℓ} → Outcome (Unit {0}) → Outcome B → Outcome B
checked >> rest = checked >>= λ _. rest

-- assert condition
abbrev pub assert : Bool → Outcome (Unit {0})
assert true = ok tt
assert false = raise assertion

-- What holds of the value, if the code returns one.
abbrev pub Ensures {ℓ κ} : {A : Type ℓ} → (A → Type κ) → Outcome A → Type κ
Ensures P (ok a) = P a
Ensures P (raise e) = Unit

pub Ensures-bind {ℓ κ μ ν} :
    {A : Type ℓ} {B : Type κ} (P : A → Type μ) (Q : B → Type ν) (m : Outcome A) (f : A → Outcome B)
    → Ensures P m
    → ((a : A) → P a → Ensures Q (f a))
    → Ensures Q (m >>= f)
Ensures-bind P Q (ok a) f h k = k a h
Ensures-bind P Q (raise e) f h k = tt

pub Ensures-weaken {ℓ κ μ} :
    {A : Type ℓ} (P : A → Type κ) (Q : A → Type μ) (m : Outcome A)
    → ((a : A) → P a → Q a)
    → Ensures P m
    → Ensures Q m
Ensures-weaken P Q (ok a) f h = f a h
Ensures-weaken P Q (raise e) f h = tt

-- The empty type, at every level.
pub data Never {κ} : Type κ where

-- The code returns, and this holds of the value.
abbrev pub Returns {ℓ κ} : {A : Type ℓ} → (A → Type κ) → Outcome A → Type κ
Returns P (ok a) = P a
Returns P (raise e) = Never

pub Returns-bind {ℓ κ μ ν} :
    {A : Type ℓ} {B : Type κ} (P : A → Type μ) (Q : B → Type ν) (m : Outcome A) (f : A → Outcome B)
    → Returns P m
    → ((a : A) → P a → Returns Q (f a))
    → Returns Q (m >>= f)
Returns-bind P Q (ok a) f h k = k a h
Returns-bind P Q (raise e) f h k = elim h [ ]

pub Returns-weaken {ℓ κ μ} :
    {A : Type ℓ} (P : A → Type κ) (Q : A → Type μ) (m : Outcome A)
    → ((a : A) → P a → Q a)
    → Returns P m
    → Returns Q m
Returns-weaken P Q (ok a) f h = f a h
Returns-weaken P Q (raise e) f h = elim h [ ]

pub Returns-Ensures {ℓ κ μ} :
    {A : Type ℓ} (P : A → Type κ) (Q : A → Type μ) (m : Outcome A)
    → Returns P m
    → Ensures Q m
    → Returns (λ a. P a × Q a) m
Returns-Ensures P Q (ok a) h k = (h, k)
Returns-Ensures P Q (raise e) h k = elim h [ ]

pub Returns-if {ℓ κ} :
    {A : Type ℓ} (P : A → Type κ) (b : Bool) (m n : Outcome A)
    → (b ≡ true → Returns P m)
    → (b ≡ false → Returns P n)
    → Returns P (if b then m else n)
Returns-if P true m n h k = h refl
Returns-if P false m n h k = k refl

pub Ensures-if {ℓ κ} :
    {A : Type ℓ} (P : A → Type κ) (b : Bool) (m n : Outcome A)
    → Ensures P m
    → Ensures P n
    → Ensures P (if b then m else n)
Ensures-if P true m n h k = h
Ensures-if P false m n h k = k

pub Ensures-any {ℓ κ} :
    {A : Type ℓ} (P : A → Type κ) (m : Outcome A) → ((a : A) → P a) → Ensures P m
Ensures-any P (ok a) f = f a
Ensures-any P (raise e) f = tt

pub Returns→Ensures {ℓ κ} :
    {A : Type ℓ} (P : A → Type κ) (m : Outcome A) → Returns P m → Ensures P m
Returns→Ensures P (ok a) h = h
Returns→Ensures P (raise e) h = tt
