-- ===== src/Options/Tables.antt =====
-- Dictionaries whose keys are texts, as src/buildstream/_options and other modules use them.
use buildstream.Common.{◌≡◌, refl, true, false, ==_refl, List, [], ◌∷◌, some, arith}
use buildstream.Options.Texts.{Text, same_text}
use buildstream.Options.Pool.{find, put}

pub same_text-eq : (a b : Text) → same_text a b ≡ true → a ≡ b
same_text-eq [] [] h = refl
same_text-eq [] (y ∷ ys) h = ground arith
same_text-eq (x ∷ xs) [] h = ground arith
same_text-eq (x ∷ xs) (y ∷ ys) h = ground (arith, same_text-eq xs ys)

pub same_text_refl : (a : Text) → same_text a a ≡ true
same_text_refl [] = refl
same_text_refl (x ∷ xs) = ground (arith, ==_refl x, same_text_refl xs)

module _ {ℓ} {V : Type ℓ} where
  pub find-put_same :
      (name : Text) (e : V) (values : List (Text × V)) → find name (put name e values) ≡ some e
  find-put_same name e [] = ground (arith, same_text_refl name)
  find-put_same name e ((k, w) ∷ values) =
      ground (arith, same_text_refl name, find-put_same name e values)

  pub find-put_other :
      (name other : Text) (e : V) (values : List (Text × V))
      → same_text name other ≡ false
      → find other (put name e values) ≡ find other values
  find-put_other name other e [] h = ground (arith, h)
  find-put_other name other e ((k, w) ∷ values) h =
      ground (arith, h, same_text-eq k name, find-put_other name other e values h)
