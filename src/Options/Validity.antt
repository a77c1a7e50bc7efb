-- ===== src/Options/Validity.antt =====
-- src/buildstream/_options: an option has a value that its definition allows.
use buildstream.Common.{
  ◌≡◌, refl, Bool, true, false, ◌&&◌, List, [], ◌∷◌, if◌then◌else◌, all, Outcome, raise, load_error,
  subst, sym, ◌>>◌, Ensures, Ensures-bind, Ensures-any, Ensures-if, Ensures-weaken, arith,
}
use buildstream.Options.Texts.{
  Text, codes, text_in, insert_text, sorted, without_space, split_commas,
}
use buildstream.Options.Nodes.{Mapping, find_node, as_str_list, as_bool, get_str}
use buildstream.Options.Kinds.{
  OptionType, option_arch, option_os, OptionValue, bool_value, str_value, list_value, ProjectOption,
  require, Family, one_bool, one_text, many_texts, family, load_value_as, load_value, set_value_as,
  set_value, check_host_value,
}

-- The value is of the type's family, and what it names is among the values.
abbrev pub allows : Family → List Text → OptionValue → Bool
allows one_bool values (bool_value b) = true
allows one_text values (str_value t) = text_in values t
allows many_texts values (list_value ts) = all (text_in values) ts
allows _ values _ = false

-- An option for a name of the host may have a default that its values lack, until it is resolved.
abbrev pub awaits : OptionType → OptionValue → Bool
awaits option_arch (str_value t) = true
awaits option_os (str_value t) = true
awaits _ _ = false

abbrev pub is_valid : ProjectOption → Bool
is_valid o = allows (family o.type) o.values o.value

abbrev pub is_loaded : OptionType → List Text → OptionValue → Bool
is_loaded type values value = if awaits type value then true else allows (family type) values value

abbrev pub IsLoaded : ProjectOption → Type 0
IsLoaded o = is_loaded o.type o.values o.value ≡ true

pub Ensures-require :
    {A : Type 0} (P : A → Type 0) (b : Bool) (m : Outcome A)
    → (b ≡ true → Ensures P m)
    → Ensures P (require b >> m)
Ensures-require P true m h = h refl
Ensures-require P false m h = tt

pub valid-loaded :
    (type : OptionType) (values : List Text) (value : OptionValue)
    → allows (family type) values value ≡ true
    → is_loaded type values value ≡ true
valid-loaded type values value h = ground arith

all-insert_text :
    (p : Text → Bool) (t : Text) (ts : List Text)
    → p t ≡ true
    → all p ts ≡ true
    → all p (insert_text t ts) ≡ true
all-insert_text p t [] h k = ground arith
all-insert_text p t (x ∷ xs) h k = ground (arith, all-insert_text p t xs h)

all-sorted : (p : Text → Bool) (ts : List Text) → all p ts ≡ true → all p (sorted ts) ≡ true
all-sorted p [] h = refl
all-sorted p (t ∷ ts) h =
    let (a, b) = both (p t) (all p ts) h in all-insert_text p t (sorted ts) a (all-sorted p ts b)
  where
    both : (a b : Bool) → (a && b) ≡ true → (a ≡ true) × (b ≡ true)
    both a b h = (ground arith, ground arith)

-- What an assignment to an option makes of it.
abbrev IsAssigned : Family → ProjectOption → ProjectOption → Type 0
IsAssigned f o o' = (o'.type ≡ o.type) × allows f o'.values o'.value ≡ true

assigned-valid : (o o' : ProjectOption) → IsAssigned (family o.type) o o' → is_valid o' ≡ true
assigned-valid o o' (same, a) =
    subst (λ t. allows (family t) o'.values o'.value ≡ true) (sym same) a

set_value_as-IsAssigned :
    (f : Family) (o : ProjectOption) (t : Text) → Ensures (IsAssigned f o) (set_value_as f o t)
unfolding set_value_as
set_value_as-IsAssigned one_bool o t =
    Ensures-if _ (text_in (codes "True" ∷ codes "true" ∷ []) t) _ _ (refl, refl)
      (Ensures-if _ (text_in (codes "False" ∷ codes "false" ∷ []) t) _ _ (refl, refl) tt)
set_value_as-IsAssigned one_text o t = Ensures-require _ (text_in o.values t) _ (λ h. (refl, h))
set_value_as-IsAssigned many_texts o t =
    Ensures-require _ (all (text_in o.values) (split_commas (without_space t))) _
      (λ h. (refl, all-sorted (text_in o.values) (split_commas (without_space t)) h))

load_value_as-IsAssigned :
    (f : Family) (o : ProjectOption) (node : Mapping)
    → Ensures (IsAssigned f o) (load_value_as f o node)
unfolding load_value_as
load_value_as-IsAssigned one_bool o node =
    Ensures-bind (λ _. Unit {0}) _ (get_str o.name node) _
      (Ensures-any _ (get_str o.name node) (λ _. tt))
      (λ t _.
        Ensures-bind (λ _. Unit {0}) _ (as_bool t) _ (Ensures-any _ (as_bool t) (λ _. tt))
          (λ b _. (refl, refl)))
load_value_as-IsAssigned one_text o node =
    Ensures-bind (λ _. Unit {0}) _ (get_str o.name node) _
      (Ensures-any _ (get_str o.name node) (λ _. tt))
      (λ t _. Ensures-require _ (text_in o.values t) _ (λ h. (refl, h)))
load_value_as-IsAssigned many_texts o node =
    Ensures-bind (λ _. Unit {0}) _ (as_str_list (raise load_error) (find_node o.name node)) _
      (Ensures-any _ (as_str_list (raise load_error) (find_node o.name node)) (λ _. tt))
      (λ ts _. Ensures-require _ (all (text_in o.values) (sorted ts)) _ (λ h. (refl, h)))

pub set_value-valid :
    (o : ProjectOption) (t : Text) → Ensures (λ o'. is_valid o' ≡ true) (set_value o t)
unfolding set_value
set_value-valid o t =
    Ensures-weaken _ _ (set_value_as (family o.type) o t) (assigned-valid o)
      (set_value_as-IsAssigned (family o.type) o t)

pub load_value-valid :
    (o : ProjectOption) (node : Mapping) → Ensures (λ o'. is_valid o' ≡ true) (load_value o node)
unfolding load_value
load_value-valid o node =
    Ensures-weaken _ _ (load_value_as (family o.type) o node) (assigned-valid o)
      (load_value_as-IsAssigned (family o.type) o node)

require-true : (b : Bool) → Ensures (λ _. b ≡ true) (require b)
require-true true = refl
require-true false = tt

pub check_host_value-valid :
    (type : OptionType) (values : List Text) (value : OptionValue)
    → is_loaded type values value ≡ true
    → Ensures (λ _. allows (family type) values value ≡ true) (check_host_value type values value)
unfolding check_host_value
check_host_value-valid option_arch values (str_value t) h = require-true (text_in values t)
check_host_value-valid option_os values (str_value t) h = require-true (text_in values t)
check_host_value-valid type values value h = h
