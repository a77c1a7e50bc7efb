-- ===== src/Scheduler/Classes/Behaviour.antt =====
-- What the concrete queues do with an element.
use buildstream.Common.{
  Bool-cases, inl, inr, Ensures, Returns, ℕ, ◌≡◌, ◌≢◌, refl, Bool, true, false, Option, none, List,
  arith, if◌then◌else◌,
}
use buildstream.Scheduler.Resources.{cache}
use buildstream.Scheduler.Resources.Accounting.{IsDistinct}
use buildstream.Scheduler.Queues.{
  QueueStatus, pending, failed, Ending, returned, bst_error, exception, finished,
}
use buildstream.Scheduler.Queues.Usable.{IsUsable, IsCalm}
use buildstream.Scheduler.Classes.{
  Kind, build, fetch, pull, track, source_push, cache_query, artifact_push, status_read,
  status_write, answer, RefChange, Elements, resources, status, done, register_pending_element,
  class_of,
}

resources-IsDistinct : (k : Kind) → IsDistinct (resources k)
unfolding resources
resources-IsDistinct build cache = omega arith
resources-IsDistinct k t = ground arith

abbrev pub is_build : Kind → Bool
is_build build = true
is_build _ = false

module _ {W Ref : Type 0} (elements : Elements W Ref) where
  answer_known :
      (P : QueueStatus → Type 0) (s : QueueStatus) (written : Ending × W)
      → P s
      → Ensures (λ r. P r.0) (answer elements s written)
  unfolding answer
  answer_known P s (returned, w) h = h
  answer_known P s (bst_error, w) h = tt
  answer_known P s (exception, w) h = tt

  reads :
      (k : Kind) (e : ℕ) (w : W)
      → status_read elements k e w ≡ pending
      → register_pending_element elements k e ≢ none
  unfolding status_read register_pending_element
  reads build e w h p = cc
  reads (fetch s o) e w h p = cc
  reads _ e w h p = ground arith

  registers :
      (k : Kind) (e : ℕ) (w : W)
      → Ensures
          (λ r. r.0 ≡ pending → register_pending_element elements k e ≢ none)
          (status elements k e w)
  unfolding status
  registers k e w =
      answer_known (λ s. s ≡ pending → register_pending_element elements k e ≢ none)
        (status_read elements k e w) (status_write elements k e w) (reads k e w)

  -- Every concrete queue is one that the scheduler can run: it names each resource once, and only
  -- queues that override `register_pending_element` report an element as pending.
  pub class_of-IsUsable : (k : Kind) → IsUsable (class_of elements k)
  unfolding class_of
  class_of-IsUsable k = record { distinct = resources-IsDistinct k; registers = registers k }

  -- A failed job changes no element, except that the build queue reports the failed assembly.
  pub done_failed :
      (k : Kind) (e : ℕ) (r : Option (List (RefChange Ref))) (w : W)
      → done elements k e r failed w
        ≡ (if is_build k then elements.assemble_done e false w else finished returned w)
  unfolding done
  done_failed build e r w = refl
  done_failed _ e r w = refl

  answer_returned :
      (s : QueueStatus) (written : Ending × W)
      → written.0 ≡ returned
      → Returns (λ _. Unit {0}) (answer elements s written)
  unfolding answer
  answer_returned s (returned, w) h = tt
  answer_returned s (bst_error, w) h = cc
  answer_returned s (exception, w) h = cc

  write_returned :
      (k : Kind) (e : ℕ) (w : W)
      → ((e : ℕ) (w : W) → (elements.tracking_done e w).0 ≡ returned)
      → (status_write elements k e w).0 ≡ returned
  unfolding status_write
  write_returned track e w h = elim (Bool-cases (elements.has_sources e w)) [
    | inl b ↦ rw b refl
    | inr b ↦ rw b (h e w)
  ]
  write_returned build e w h = refl
  write_returned pull e w h = refl
  write_returned source_push e w h = refl
  write_returned (cache_query _ _) e w h = refl
  write_returned (fetch _ _) e w h = refl
  write_returned (artifact_push _) e w h = refl

  -- `status` raises nothing where `_tracking_done` does not, which the track queue's calls.
  pub class_of-IsCalm :
      (k : Kind)
      → ((e : ℕ) (w : W) → (elements.tracking_done e w).0 ≡ returned)
      → IsCalm (class_of elements k)
  unfolding class_of status
  class_of-IsCalm k h = record {
    usable = class_of-IsUsable k;
    answers = λ e w.
        answer_returned (status_read elements k e w) (status_write elements k e w)
          (write_returned k e w h);
  }
