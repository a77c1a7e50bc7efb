-- ===== src/Overlaps.antt =====
-- src/buildstream/_overlapcollector.py: the overlaps of staged files. A file is a number, and
-- `join` is os.path.join; an element is its unique id.
use buildstream.Common.{
  ℕ, suc, Bool, true, false, not, ◌&&◌, ◌==◌, List, [], ◌∷◌, ◌++◌, if◌then◌else◌, any, contains,
  select, length, lookup, insert, Option, none, some, Outcome, ok, raise, assertion, plugin_error,
  ◌>>=◌,
}
pub mod Sessions

pub data OverlapAction : Type 0 where
  ignore warning fail : OverlapAction

pub record FileListResult : Type 0 where
  pub overwritten : List ℕ
  pub ignored : List ℕ
  pub files_written : List ℕ

-- `_ignored` and `_files_written` are keyed by element, and `_overlaps` by file.
pub record Session : Type 0 where
  pub action : OverlapAction
  pub location : ℕ
  pub ignored : List (ℕ × List ℕ)
  pub files_written : List (ℕ × List ℕ)
  pub overlaps : List (ℕ × List ℕ)

unfoldable pub new_session : OverlapAction → ℕ → Session
new_session action location = record {
  action = action;
  location = location;
  ignored = [];
  files_written = [];
  overlaps = [];
}

-- The first element of the session that staged the file.
unfoldable pub first_writer : ℕ → List (ℕ × List ℕ) → List ℕ
first_writer file [] = []
first_writer file ((e, files) ∷ rest) =
    if contains files file then e ∷ [] else first_writer file rest

abbrev pub overlap_list : Option (List ℕ) → List ℕ → List ℕ
overlap_list none fresh = fresh
overlap_list (some es) fresh = es

unfoldable pub collect_overwritten :
    ℕ → List (ℕ × List ℕ) → List ℕ → List (ℕ × List ℕ) → List (ℕ × List ℕ)
unfolding first_writer
collect_overwritten e written [] overlaps = overlaps
collect_overwritten e written (file ∷ files) overlaps = collect_overwritten e written files (
    insert file (overlap_list (lookup file overlaps) (first_writer file written) ++ e ∷ [])
      overlaps)

abbrev pub is_nonempty_list : List ℕ → Bool
is_nonempty_list [] = false
is_nonempty_list (_ ∷ _) = true

unfoldable pub collect_stage_result : ℕ → FileListResult → Session → Session
unfolding collect_overwritten
collect_stage_result e result s = record s {
  overlaps = collect_overwritten e s.files_written result.overwritten s.overlaps;
  files_written = insert e result.files_written s.files_written;
  ignored =
      if is_nonempty_list result.ignored then insert e result.ignored s.ignored else s.ignored;
}

-- A file that other sessions staged: its name, who staged it now, who staged it and where before.
abbrev pub External : Type 0
External = ℕ × ℕ × ℕ × ℕ

-- The warnings that are issued, with what their details list.
pub data Warning : Type 0 where
  overlaps_warning : List (ℕ × List ℕ × List ℕ) → Warning
  unstaged_warning : List (ℕ × List ℕ) → Warning
  external_warning : List External → Warning

-- The overlaps with a file of an earlier session: those whose list has one element.
unfoldable pub external_overlaps : List (ℕ × List ℕ) → List (ℕ × ℕ)
external_overlaps [] = []
external_overlaps ((file, e ∷ []) ∷ rest) = (file, e) ∷ external_overlaps rest
external_overlaps ((file, _) ∷ rest) = external_overlaps rest

abbrev pub or_earlier : Option ℕ → ℕ → Outcome (ℕ × ℕ) → Outcome (ℕ × ℕ)
or_earlier none location earlier = earlier
or_earlier (some e) location earlier = ok (e, location)

-- A file that is not permitted is one of which the list has elements.
abbrev pub is_forbidden : ℕ × List ℕ × List ℕ → Bool
is_forbidden x = is_nonempty_list x.1

abbrev pub is_nonempty_dict : List (ℕ × List ℕ) → Bool
is_nonempty_dict [] = false
is_nonempty_dict (_ ∷ _) = true

abbrev report : OverlapAction → List External → Outcome (List Warning)
report ignore found = ok []
report warning found = ok (external_warning found ∷ [])
report fail found = raise plugin_error

module _ (is_whitelisted : ℕ → ℕ → Bool) where
  -- _filter_whitelisted
  unfoldable pub filter_whitelisted : ℕ → List ℕ → List ℕ
  filter_whitelisted file elements = select (λ e. not (is_whitelisted e file)) elements

  -- The others, with the elements that the overlap is not permitted to.
  unfoldable pub internal_overlaps : List (ℕ × List ℕ) → List (ℕ × List ℕ × List ℕ)
  unfolding filter_whitelisted
  internal_overlaps [] = []
  internal_overlaps ((file, e ∷ []) ∷ rest) = internal_overlaps rest
  internal_overlaps ((file, []) ∷ rest) = (file, [], []) ∷ internal_overlaps rest
  internal_overlaps ((file, e ∷ f ∷ es) ∷ rest) =
      (file, filter_whitelisted file (f ∷ es), e ∷ f ∷ es) ∷ internal_overlaps rest

module _ (join : ℕ → ℕ → ℕ) where
  unfoldable pub search_session : ℕ → ℕ → List (ℕ × List ℕ) → Option ℕ
  search_session filename location [] = none
  search_session filename location ((e, files) ∷ rest) =
      if any (λ file. join location file == filename) files
      then some e
      else search_session filename location rest

  -- _search_stage_element, where the sessions come the last one first
  unfoldable pub search_stage_element : ℕ → List Session → Outcome (ℕ × ℕ)
  unfolding search_session
  search_stage_element filename [] = raise assertion
  search_stage_element filename (s ∷ sessions) =
      or_earlier (search_session filename s.location s.files_written) s.location
        (search_stage_element filename sessions)

  unfoldable pub find_external : ℕ → List Session → List (ℕ × ℕ) → Outcome (List External)
  unfolding search_stage_element
  find_external location sessions [] = ok []
  find_external location sessions ((file, e) ∷ rest) = do
    (before, there) ← search_stage_element (join location file) sessions
    found ← find_external location sessions rest
    ok ((join location file, e, before, there) ∷ found)

  -- The last part of `warnings`: nothing is searched where overlaps are ignored.
  unfoldable pub external_warnings :
      OverlapAction → ℕ → List Session → List (ℕ × ℕ) → Outcome (List Warning)
  unfolding find_external
  external_warnings action location sessions [] = ok []
  external_warnings ignore location sessions (x ∷ xs) = ok []
  external_warnings action location sessions (x ∷ xs) =
      find_external location sessions (x ∷ xs) >>= λ found. report action found

  -- The warnings issued before an external overlap is looked at, and how `warnings` ends.
  unfoldable pub warnings :
      (ℕ → ℕ → Bool) → List Session → Session → List Warning × Outcome (List Warning)
  unfolding external_warnings internal_overlaps external_overlaps
  warnings is_whitelisted sessions s =
      let inside = internal_overlaps is_whitelisted s.overlaps in
      let within = if any is_forbidden inside then overlaps_warning inside ∷ [] else [] in
      let unstaged = if is_nonempty_dict s.ignored then unstaged_warning s.ignored ∷ [] else [] in
      (
        within ++ unstaged,
        external_warnings s.action s.location sessions (external_overlaps s.overlaps),
      )

-- The ended sessions, the last one first, and the active one.
pub record OverlapCollector : Type 0 where
  pub sessions : List Session
  pub session : Option Session

-- The number of `/`.
abbrev root : ℕ
root = 0

abbrev or_root : Option ℕ → ℕ
or_root none = root
or_root (some location) = location

unfoldable pub start_session :
    OverlapAction → Option ℕ → OverlapCollector → Outcome OverlapCollector
start_session action location c = elim c.session [
  | none ↦ ok (record c { session = some (new_session action (or_root location)) })
  | some _ ↦ raise assertion
]

-- OverlapCollector.collect_stage_result
unfoldable pub collect : ℕ → FileListResult → OverlapCollector → Outcome OverlapCollector
unfolding collect_stage_result
collect e result c = elim c.session [
  | none ↦ raise assertion
  | some s ↦ ok (record c { session = some (collect_stage_result e result s) })
]

-- The end of a session: the warnings that were issued, and the collector after it. Where an
-- external overlap raises, the session is still the active one.
unfoldable pub end_session :
    (ℕ → ℕ → ℕ) → (ℕ → ℕ → Bool) → OverlapCollector → Outcome (List Warning × OverlapCollector)
unfolding warnings
end_session join is_whitelisted c = elim c.session [
  | none ↦ raise assertion
  | some s ↦ (warnings join is_whitelisted c.sessions s).1 >>= λ more. ok (
    (warnings join is_whitelisted c.sessions s).0 ++ more,
    record c { sessions = s ∷ c.sessions; session = none },
  )
]
