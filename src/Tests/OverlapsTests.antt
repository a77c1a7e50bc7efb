-- ===== src/Tests/OverlapsTests.antt =====
-- Overlaps at concrete inputs: the element 1 stages the files 7 and 8, and 2 overwrites 7 and 9.
use buildstream.Common.{
  ℕ, List, ◌+◌, ◌≡◌, refl, true, false, ◌&&◌, ◌==◌, [], ◌∷◌, ◌++◌, if◌then◌else◌, any, contains,
  lookup, some, none, ok, ◌>>=◌, Returns,
}
use buildstream.Overlaps.{
  Session, warning, ignore, FileListResult, OverlapCollector, new_session, first_writer,
  collect_overwritten, collect_stage_result, collect, start_session, end_session, warnings,
  internal_overlaps, external_overlaps, filter_whitelisted, external_warnings, find_external,
  search_stage_element, search_session, overlaps_warning, external_warning,
}
use buildstream.Overlaps.Sessions.{
  OldList, collect_overwritten_lem, is_writer, search_stage_element-finds,
}

abbrev first : FileListResult
first = record { overwritten = []; ignored = []; files_written = 7 ∷ 8 ∷ [] }

abbrev second : FileListResult
second = record { overwritten = 7 ∷ 9 ∷ []; ignored = []; files_written = 7 ∷ 9 ∷ [] }

abbrev earlier : Session
earlier = record {
  action = ignore;
  location = 0;
  ignored = [];
  files_written = (5, 9 ∷ []) ∷ [];
  overlaps = [];
}

abbrev collector : OverlapCollector
collector = record { sessions = earlier ∷ []; session = none }

-- 7 is an overlap within the session, and 9 one with the earlier session.
session_runs :
    (start_session warning none collector
      >>= collect 1 first
      >>= collect 2 second
      >>= end_session (λ a b. a + b) (λ e file. false)
      >>= λ r. ok r.0)
    ≡ ok (
        overlaps_warning ((7, 2 ∷ [], 1 ∷ 2 ∷ []) ∷ []) ∷ external_warning ((9, 2, 5, 0) ∷ []) ∷ [])
unfolding start_session new_session collect collect_stage_result collect_overwritten first_writer
    end_session warnings internal_overlaps external_overlaps filter_whitelisted external_warnings
    find_external search_stage_element search_session
session_runs = refl

collect_overwritten_lem_example :
    (old : List ℕ) × OldList 7 ((1, 7 ∷ 8 ∷ []) ∷ []) (lookup 7 []) old
    × (lookup 7 (collect_overwritten 2 ((1, 7 ∷ 8 ∷ []) ∷ []) (7 ∷ 9 ∷ []) [])
        ≡ (if contains (7 ∷ 9 ∷ []) 7 then some (old ++ 2 ∷ []) else lookup 7 []))
collect_overwritten_lem_example =
    collect_overwritten_lem 2 ((1, 7 ∷ 8 ∷ []) ∷ []) (7 ∷ 9 ∷ []) [] 7 (refl, (refl, tt))

search_stage_element-finds_example :
    Returns
      (λ r.
        any
          (λ s. s.location == r.1 && is_writer (λ a b. a + b) 9 r.0 s.location s.files_written)
          (earlier ∷ [])
        ≡ true)
      (search_stage_element (λ a b. a + b) 9 (earlier ∷ []))
search_stage_element-finds_example = search_stage_element-finds (λ a b. a + b) 9 (earlier ∷ []) refl
