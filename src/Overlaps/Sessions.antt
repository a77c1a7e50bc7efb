-- ===== src/Overlaps/Sessions.antt =====
-- src/buildstream/_overlapcollector.py: what a session collects, and whom it finds.
use buildstream.Common.{
  All, ap, either, ℕ, ◌≡◌, refl, Bool, true, false, ◌&&◌, ◌||◌, ◌==◌, ==_refl, List, [], ◌∷◌, ◌++◌,
  if◌then◌else◌, any, contains, lookup, insert, lookup-insert, Option, none, some, Returns,
  Returns-weaken, arith,
}
use buildstream.Overlaps.{
  Session, first_writer, overlap_list, collect_overwritten, search_session, or_earlier,
  search_stage_element,
}

-- No file comes twice.
abbrev pub IsDistinct : List ℕ → Type 0
IsDistinct [] = Unit
IsDistinct (x ∷ xs) = contains xs x ≡ false × IsDistinct xs

-- Who staged the file first: nobody did, or one element did and nobody before it.
abbrev pub BegunBy : ℕ → List (ℕ × List ℕ) → List ℕ → Type 0
BegunBy file written [] = All (λ x. contains x.1 file ≡ false) written
BegunBy file written (w ∷ ws) =
    (before : List (ℕ × List ℕ)) × (staged : List ℕ) × (later : List (ℕ × List ℕ)) × (written
      ≡ before ++ (w, staged) ∷ later)
    × (contains staged file ≡ true)
    × All (λ x. contains x.1 file ≡ false) before
    × (ws ≡ [])

-- The list that a file has, or the one that is begun for it.
abbrev pub OldList : ℕ → List (ℕ × List ℕ) → Option (List ℕ) → List ℕ → Type 0
OldList file written none old = BegunBy file written old
OldList file written (some es) old = old ≡ es

begun_later :
    (file e : ℕ) (files : List ℕ) (rest : List (ℕ × List ℕ)) (l : List ℕ)
    → contains files file ≡ false
    → BegunBy file rest l
    → BegunBy file ((e, files) ∷ rest) l
begun_later file e files rest [] n h = (n, h)
begun_later file e files rest (w ∷ ws) n (before, staged, after, eq, has, h, one) =
    ((e, files) ∷ before, staged, after, ap (λ l. (e, files) ∷ l) eq, has, (n, h), one)

first_writer-BegunBy :
    (file : ℕ) (written : List (ℕ × List ℕ)) → BegunBy file written (first_writer file written)
unfolding first_writer
first_writer-BegunBy file [] = tt
first_writer-BegunBy file ((e, files) ∷ rest) =
    either (BegunBy file ((e, files) ∷ rest)) (contains files file) (e ∷ [])
      (first_writer file rest) (λ has. ([], files, rest, refl, has, tt, refl))
      (λ lacks.
        begun_later file e files rest (first_writer file rest) lacks
          (first_writer-BegunBy file rest))

overlap_list-OldList :
    (file : ℕ) (written : List (ℕ × List ℕ)) (found : Option (List ℕ))
    → OldList file written found (overlap_list found (first_writer file written))
overlap_list-OldList file written none = first_writer-BegunBy file written
overlap_list-OldList file written (some es) = refl

collect_overwritten-lookup :
    (e : ℕ) (written : List (ℕ × List ℕ)) (files : List ℕ) (overlaps : List (ℕ × List ℕ)) (file : ℕ)
    → IsDistinct files
    → lookup file (collect_overwritten e written files overlaps) ≡ (
        if contains files file
        then some (overlap_list (lookup file overlaps) (first_writer file written) ++ e ∷ [])
        else lookup file overlaps)
unfolding collect_overwritten
collect_overwritten-lookup e written [] overlaps file d = refl
collect_overwritten-lookup e written (f ∷ files) overlaps file d = ground (
  arith,
  d,
  collect_overwritten-lookup e written files
      (insert f (overlap_list (lookup f overlaps) (first_writer f written) ++ e ∷ []) overlaps) file
      d.1,
  lookup-insert f file (overlap_list (lookup f overlaps) (first_writer f written) ++ e ∷ [])
      overlaps,
)

-- Of distinct files that a stage overwrites, the element goes to the end of the list of each. A
-- file that has no list yet has one that is empty, if no element of the session staged it, and
-- otherwise holds the first one that did, alone. The lists of other files stay.
pub collect_overwritten_lem :
    (e : ℕ) (written : List (ℕ × List ℕ)) (files : List ℕ) (overlaps : List (ℕ × List ℕ)) (file : ℕ)
    → IsDistinct files
    → (old : List ℕ) × OldList file written (lookup file overlaps) old
      × (lookup file (collect_overwritten e written files overlaps)
          ≡ (if contains files file then some (old ++ e ∷ []) else lookup file overlaps))
collect_overwritten_lem e written files overlaps file d = (
  overlap_list (lookup file overlaps) (first_writer file written),
  overlap_list-OldList file written (lookup file overlaps),
  collect_overwritten-lookup e written files overlaps file d,
)

module _ (join : ℕ → ℕ → ℕ) (filename : ℕ) where
  -- The element staged the file there.
  abbrev pub wrote : ℕ → List ℕ → Bool
  wrote location files = any (λ file. join location file == filename) files

  abbrev pub has_writer : ℕ → List (ℕ × List ℕ) → Bool
  has_writer location written = any (λ x. wrote location x.1) written

  abbrev pub is_writer : ℕ → ℕ → List (ℕ × List ℕ) → Bool
  is_writer e location written = any (λ x. x.0 == e && wrote location x.1) written

  -- Whom a session names.
  abbrev IsFound : ℕ → List (ℕ × List ℕ) → Option ℕ → Type 0
  IsFound location written none = has_writer location written ≡ false
  IsFound location written (some e) = is_writer e location written ≡ true

  IsFound-skip :
      (location e : ℕ) (files : List ℕ) (rest : List (ℕ × List ℕ)) (found : Option ℕ)
      → wrote location files ≡ false
      → IsFound location rest found
      → IsFound location ((e, files) ∷ rest) found
  IsFound-skip location e files rest none n h = ground arith
  IsFound-skip location e files rest (some e') n h = ground arith

  search_session-IsFound :
      (location : ℕ) (written : List (ℕ × List ℕ))
      → IsFound location written (search_session join filename location written)
  unfolding search_session
  search_session-IsFound location [] = refl
  search_session-IsFound location ((e, files) ∷ rest) =
      by_files (wrote location files) refl (search_session-IsFound location rest)
    where
      by_files :
          (b : Bool)
          → wrote location files ≡ b
          → IsFound location rest (search_session join filename location rest)
          → IsFound location
              ((e, files) ∷ rest)
              (if b then some e else search_session join filename location rest)
      by_files true h later = ground (arith, ==_refl e)
      by_files false h later = IsFound-skip location e files rest _ h later

  rest_has : (b c : Bool) → b ≡ false → (b || c) ≡ true → c ≡ true
  rest_has b c n h = ground arith

  -- Where a session staged the file, the search returns an element of such a session and the
  -- location at which that element staged it.
  pub search_stage_element-finds :
      (sessions : List Session)
      → any (λ s. has_writer s.location s.files_written) sessions ≡ true
      → Returns
          (λ r.
            any (λ s. s.location == r.1 && is_writer r.0 s.location s.files_written) sessions
            ≡ true)
          (search_stage_element join filename sessions)
  unfolding search_stage_element
  search_stage_element-finds [] h = ground arith
  search_stage_element-finds (s ∷ sessions) h =
      by_session (search_session join filename s.location s.files_written)
        (search_session-IsFound s.location s.files_written) (search_stage_element-finds sessions)
    where
      by_session :
          (found : Option ℕ)
          → IsFound s.location s.files_written found
          → (any (λ z. has_writer z.location z.files_written) sessions ≡ true
              → Returns
                  (λ r.
                    any
                      (λ z. z.location == r.1 && is_writer r.0 z.location z.files_written)
                      sessions
                    ≡ true)
                  (search_stage_element join filename sessions))
          → Returns
              (λ r.
                any
                  (λ z. z.location == r.1 && is_writer r.0 z.location z.files_written)
                  (s ∷ sessions)
                ≡ true)
              (or_earlier found s.location (search_stage_element join filename sessions))
      by_session none n later =
          Returns-weaken _ _ (search_stage_element join filename sessions) (λ r k. ground arith)
            (later (rest_has (has_writer s.location s.files_written) _ n h))
      by_session (some e) k later = ground (arith, ==_refl s.location)
