-- ===== src/Options/Texts.antt =====
-- Texts as lists of code points: equality, order, and the splitting that src/buildstream/_options
-- uses.
use Prim.Native.String.{String}
use Prim.Native.Char.{code}
use buildstream.Common.{
  ℕ, ◌+◌, Bool, true, false, not, ◌&&◌, ◌||◌, List, [], ◌∷◌, ◌++◌, ltb, leb, ◌==◌, if◌then◌else◌,
  all, select,
}

abbrev pub Text : Type 0
Text = List ℕ

abbrev pub codes : String → Text
codes String.[] = []
codes (String.◌∷◌ c s) = code c ∷ codes s

abbrev pub same_text : Text → Text → Bool
same_text [] [] = true
same_text [] (b ∷ bs) = false
same_text (a ∷ rest) [] = false
same_text (a ∷ rest) (b ∷ bs) = a == b && same_text rest bs

abbrev pub text_in : List Text → Text → Bool
text_in [] t = false
text_in (x ∷ xs) t = same_text x t || text_in xs t

-- The order of Python's `sorted` on texts.
abbrev pub text_before : Text → Text → Bool
text_before [] b = true
text_before (a ∷ rest) [] = false
text_before (a ∷ rest) (b ∷ bs) = ltb a b || (a == b && text_before rest bs)

abbrev pub insert_text : Text → List Text → List Text
insert_text t [] = t ∷ []
insert_text t (x ∷ xs) = if text_before t x then t ∷ x ∷ xs else x ∷ insert_text t xs

abbrev pub sorted : List Text → List Text
sorted [] = []
sorted (x ∷ xs) = insert_text x (sorted xs)

-- The white space among the ASCII characters.
abbrev pub is_space : ℕ → Bool
is_space c = c == 32 || (leb 9 c && leb c 13) || (leb 28 c && leb c 31)

-- "".join(value.split())
abbrev pub without_space : Text → Text
without_space = select (λ c. not (is_space c))

abbrev pub join_first : ℕ → List Text → List Text
join_first c [] = (c ∷ []) ∷ []
join_first c (t ∷ ts) = (c ∷ t) ∷ ts

-- value.split(",")
abbrev pub split_commas : Text → List Text
split_commas [] = [] ∷ []
split_commas (c ∷ cs) = if c == b',' then [] ∷ split_commas cs else join_first c (split_commas cs)

-- ",".join(values)
abbrev pub join_commas : List Text → Text
join_commas [] = []
join_commas (t ∷ []) = t
join_commas (t ∷ u ∷ ts) = t ++ b',' ∷ join_commas (u ∷ ts)

abbrev is_digit : ℕ → Bool
is_digit c = leb b'0' c && leb c b'9'

abbrev is_symbol_char : ℕ → Bool
is_symbol_char c =
    is_digit c || (leb b'a' c && leb c b'z') || (leb b'A' c && leb c b'Z') || c == b'_'

-- What `_assert_symbol_name` accepts.
abbrev pub is_symbol : Bool → Text → Bool
is_symbol allow_dashes [] = false
is_symbol allow_dashes (c ∷ cs) =
    not (is_digit c) && all (λ x. is_symbol_char x || (allow_dashes && x == b'-')) (c ∷ cs)

-- str.lower() on ASCII
abbrev pub lower : ℕ → ℕ
lower c = if leb b'A' c && leb c b'Z' then c + 32 else c
