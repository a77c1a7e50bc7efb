-- ===== src/Scheduler/Classes.antt =====
-- src/buildstream/_scheduler/queues/{build,cachequery,fetch,pull,track,artifactpush,sourcepush}queue.py:
-- the concrete queues. What they ask of an element (element.py) is the record `Elements`; a method
-- that changes state may raise, so it gives an `Ending`.
use buildstream.Common.{
  ℕ, Bool, true, false, not, ◌&&◌, ◌||◌, Option, none, some, List, [], ◌∷◌, if◌then◌else◌, Outcome,
  ok, raise, plugin_error, assertion,
}
use buildstream.Scheduler.Resources.{ResourceType, cache, download, process, upload}
use buildstream.Scheduler.Queues.{
  QueueClass, QueueStatus, pending, skip, ready, JobStatus, succeeded, failed, skipped, Ending,
  returned, bst_error, exception, Activity, finished,
}
use buildstream.Scheduler.Jobs.{ChildEnding, child_returned, skip_job, child_error, child_exception}
pub mod Behaviour

-- What a tracked source is to be set to.
pub record RefChange (Ref : Type 0) : Type 0 where
  pub source : ℕ
  pub new_ref : Ref
  pub ref_changed : Bool

abbrev pub Act : Type 0 → Type 0
Act W = W → Ending × W

-- The statements that follow run only if the ones before returned.
infixl 5 ◌>>◌
abbrev pub ◌>>◌ : {W : Type 0} → Act W → Act W → Act W
◌>>◌ m k w = elim (m w).0 [ returned ↦ k (m w).1 | _ ↦ m w ]

abbrev pub skip_act : {W : Type 0} → Act W
skip_act w = (returned, w)

-- A call that makes no element enter the queue.
abbrev pub alone : {W : Type 0} → Act W → W → Activity W
alone m w = finished (m w).0 (m w).1

pub record Elements (W Ref : Type 0) : Type 0 where
  pub cached_success : ℕ → W → Bool
  pub buildable : ℕ → W → Bool
  pub can_query_cache : ℕ → W → Bool
  pub has_weak_cache_key : ℕ → W → Bool
  pub can_query_source_cache : ℕ → W → Bool
  pub should_fetch : ℕ → Bool → W → Bool
  pub pull_pending : ℕ → W → Bool
  pub has_sources : ℕ → W → Bool
  pub skip_push : ℕ → Bool → W → Bool
  pub skip_source_push : ℕ → W → Bool
  pub set_buildable_callback : ℕ → W → W
  pub set_can_query_cache_callback : ℕ → W → W
  pub assemble_done : ℕ → Bool → W → Activity W
  pub load_artifact_done : ℕ → Act W
  pub fetch_done : ℕ → Bool → Act W
  pub tracking_done : ℕ → Act W
  pub set_ref : ℕ → Ref → Act W

-- The class attributes and constructor arguments of each queue.
pub data Kind : Type 0 where
  build pull track source_push : Kind
  cache_query : (sources sources_if_cached : Bool) → Kind
  fetch : (skip_cached fetch_original : Bool) → Kind
  artifact_push : (skip_uncached : Bool) → Kind

unfoldable pub resources : Kind → List ResourceType
resources build = process ∷ cache ∷ []
resources (cache_query _ _) = process ∷ cache ∷ []
resources (fetch _ _) = download ∷ []
resources pull = download ∷ cache ∷ []
resources track = download ∷ []
resources (artifact_push _) = upload ∷ []
resources source_push = upload ∷ []

module _ {W Ref : Type 0} (elements : Elements W Ref) where
  -- Read-only parts of `status`; that of the track queue also marks its element.
  status_read : Kind → ℕ → W → QueueStatus
  status_read build e w =
      if elements.cached_success e w
      then skip
      else if not (elements.buildable e w)
      then pending
      else ready
  status_read (cache_query _ _) e w =
      if elements.can_query_cache e w
      then skip
      else if not (elements.has_weak_cache_key e w)
      then skip
      else ready
  status_read (fetch skip_cached original) e w =
      if skip_cached && not (elements.can_query_cache e w)
      then pending
      else if skip_cached && elements.cached_success e w
      then skip
      else if elements.can_query_source_cache e w && not (elements.should_fetch e original w)
      then skip
      else ready
  status_read pull e w = if elements.pull_pending e w then ready else skip
  status_read track e w = if not (elements.has_sources e w) then skip else ready
  status_read (artifact_push skip_uncached) e w =
      if elements.skip_push e skip_uncached w then skip else ready
  status_read source_push e w = if elements.skip_source_push e w then skip else ready

  status_write : Kind → ℕ → Act W
  status_write track e w =
      if not (elements.has_sources e w) then elements.tracking_done e w else (returned, w)
  status_write _ e w = (returned, w)

  -- What the method raises leaves `status`: a `BstError`, or any other exception.
  answer : QueueStatus → Ending × W → Outcome (QueueStatus × W)
  answer s (returned, w) = ok (s, w)
  answer s (bst_error, w) = raise plugin_error
  answer s (exception, w) = raise assertion

  pub status : Kind → ℕ → W → Outcome (QueueStatus × W)
  unfolding status_read status_write answer
  status k e w = answer (status_read k e w) (status_write k e w)

  -- `source._set_ref(new_ref, save=True)` for each reference that changed
  set_refs : List (RefChange Ref) → Act W
  set_refs [] = skip_act
  set_refs (c ∷ cs) =
      let rest = set_refs cs in
      if c.ref_changed then elements.set_ref c.source c.new_ref >> rest else rest

  tracked_refs : Option (List (RefChange Ref)) → Act W
  tracked_refs none = skip_act
  tracked_refs (some cs) = set_refs cs

  is_succeeded : JobStatus → Bool
  is_succeeded succeeded = true
  is_succeeded _ = false

  -- `done` of a queue whose job did not fail
  done_unless_failed : Kind → ℕ → Option (List (RefChange Ref)) → Act W
  unfolding tracked_refs set_refs
  done_unless_failed (cache_query sources _) e r w =
      if not sources && not (elements.pull_pending e w)
      then elements.load_artifact_done e w
      else (returned, w)
  done_unless_failed (fetch _ original) e r w = elements.fetch_done e original w
  done_unless_failed pull e r w = elements.load_artifact_done e w
  done_unless_failed track e r w = (tracked_refs r >> elements.tracking_done e) w
  done_unless_failed _ e r w = (returned, w)

  when_not_failed : JobStatus → Act W → Act W
  when_not_failed failed a = skip_act
  when_not_failed _ a = a

  pub done : Kind → ℕ → Option (List (RefChange Ref)) → JobStatus → W → Activity W
  unfolding done_unless_failed when_not_failed is_succeeded
  done build e r s = elements.assemble_done e (is_succeeded s)
  done k e r s = alone (when_not_failed s (done_unless_failed k e r))

  pub register_pending_element : Kind → ℕ → Option (W → W)
  register_pending_element build e = some (elements.set_buildable_callback e)
  register_pending_element (fetch _ _) e = some (elements.set_can_query_cache_callback e)
  register_pending_element _ e = none

  unfoldable pub class_of : Kind → QueueClass W (List (RefChange Ref))
  class_of k = record {
    resources = resources k;
    status = status k;
    done = done k;
    register_pending_element = register_pending_element k;
  }

-- The process functions, which a job's thread runs. A method that may raise gives how it ended.
pub record Work (W : Type 0) : Type 0 where
  pub assemble : ℕ → W → ChildEnding × W
  pub load_artifact : ℕ → Bool → W → (ChildEnding × Bool) × W
  pub query_source_cache : ℕ → W → ChildEnding × W
  pub fetch_sources : ℕ → Bool → W → ChildEnding × W
  pub track_sources : ℕ → W → ChildEnding × W
  pub push_artifact : ℕ → W → (ChildEnding × Bool) × W
  pub push_sources : ℕ → W → (ChildEnding × Bool) × W

-- `if not element.method(): raise SkipJob(...)`
abbrev pub skip_unless : {W : Type 0} → (ChildEnding × Bool) × W → ChildEnding × W
skip_unless ((child_returned, false), w) = (skip_job, w)
skip_unless ((ending, _), w) = (ending, w)

abbrev pub after_load :
    {W : Type 0} → (ChildEnding × Bool) × W → (W → ChildEnding × W) → ChildEnding × W
after_load ((child_returned, _), w) k = k w
after_load ((ending, _), w) k = (ending, w)

module _ {W Ref : Type 0} (elements : Elements W Ref) (work : Work W) where
  query : Bool → Bool → ℕ → W → ChildEnding × W
  query sources sources_if_cached e w =
      if sources_if_cached
      then after_load (work.load_artifact e false w) (work.query_source_cache e)
      else if not sources
      then after_load (work.load_artifact e false w) (λ w'.
        if not (elements.can_query_cache e w') || not (elements.cached_success e w')
        then work.query_source_cache e w'
        else (child_returned, w'))
      else work.query_source_cache e w

  pub process_func : Kind → ℕ → W → ChildEnding × W
  unfolding query
  process_func build e w = work.assemble e w
  process_func (cache_query sources sources_if_cached) e w = query sources sources_if_cached e w
  process_func (fetch _ original) e w = work.fetch_sources e original w
  process_func pull e w = skip_unless (work.load_artifact e true w)
  process_func track e w = work.track_sources e w
  process_func (artifact_push _) e w = skip_unless (work.push_artifact e w)
  process_func source_push e w = skip_unless (work.push_sources e w)
