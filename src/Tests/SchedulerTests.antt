-- ===== src/Tests/SchedulerTests.antt =====
-- The scheduler at concrete inputs: two elements, the second of which waits for the first.
use buildstream.Common.{
  ℕ, zero, suc, ◌≤◌, ◌<◌, ◌≡◌, refl, true, false, none, some, List, [], ◌∷◌, ◌++◌, arith, ◌==◌, All,
  ok, raise, Returns, Ensures, ◌↔◌, ◌⊎◌, ◌-◌, ◌||◌, if◌then◌else◌, assertion, contains, ◌&&◌,
}
use buildstream.State.{new_task_group}
use buildstream.Scheduler.Resources.{
  ResourceType, cache, process, Resources, new_resources, can_reserve, reserve, release,
}
use buildstream.Scheduler.Resources.Accounting.{
  IsWithin, IsDistinct, uses, reserve-IsWithin, release_lem, release-reserve,
}
use buildstream.Scheduler.Queues.{
  Host, QueueClass, Queue, Entry, before, returned, failed, harvest_jobs, enters, finished,
}
use buildstream.Scheduler.Queues.Usable.{IsUsable, IsCalm}
use buildstream.Scheduler.Queues.Fairness.{
  IsOrdered, elements, harvest_jobs_fair, harvest_jobs_stops,
}
use buildstream.Scheduler.Jobs.{
  Job, new_job, terminate, child_begin, child_end, child_error, retries, code_terminated, status_of,
}
use buildstream.Scheduler.Jobs.Retrying.{
  retries-child_end, tries_until, tries_until_lem, terminate_unstarted,
}
use buildstream.Scheduler.Loop.{
  Sched, Event, schedule, thread_begins, completed, callback, retried, terminate_all,
  terminate_jobs, initial, sched_queue_jobs, step,
}
use buildstream.Scheduler.Loop.Safety.{queues_kept, initial-IsRunning}
use buildstream.Scheduler.Loop.Stopping.{step-terminated}
use buildstream.Scheduler.Loop.AfterStop.{IsPostImperative, sched_queue_jobs_stopped}
use buildstream.Scheduler.Classes.{build, fetch, pull, Elements, RefChange, class_of}
use buildstream.Scheduler.Classes.Behaviour.{class_of-IsUsable, class_of-IsCalm}

-- The world: the elements that are cached.
abbrev World : Type 0
World = List ℕ

abbrev host : Host World
host = record {
  is_required = λ e w. true;
  set_required_callback = λ e w. w;
  depth = λ e w. e;
  has_workspace = λ e w. false;
  update_workspace = λ e w. ok (false, w);
  save_config = λ w. (returned, w);
  set_last_task_error = λ w. w;
  message = λ m e w. w;
}

-- Element 2 can be built once element 1 is cached.
abbrev project : Elements World ℕ
project = record {
  cached_success = λ e w. contains w e;
  buildable = λ e w. e == 1 || contains w 1;
  can_query_cache = λ e w. true;
  has_weak_cache_key = λ e w. true;
  can_query_source_cache = λ e w. true;
  should_fetch = λ e o w. false;
  pull_pending = λ e w. false;
  has_sources = λ e w. true;
  skip_push = λ e s w. true;
  skip_source_push = λ e w. true;
  set_buildable_callback = λ e w. w;
  set_can_query_cache_callback = λ e w. w;
  assemble_done = λ e successful w.
      if successful && e == 1
      then enters 2 (1 ∷ w) (finished returned)
      else finished returned (if successful then e ∷ w else w);
  load_artifact_done = λ e w. (returned, w);
  fetch_done = λ e o w. (returned, w);
  tracking_done = λ e w. (returned, w);
  set_ref = λ e r w. (returned, w);
}

abbrev classes : ℕ → QueueClass World (List (RefChange ℕ))
classes zero = class_of project pull
classes (suc _) = class_of project build

classes-IsCalm : (i : ℕ) → IsCalm (classes i)
classes-IsCalm zero = class_of-IsCalm project pull (λ e w. refl)
classes-IsCalm (suc _) = class_of-IsCalm project build (λ e w. refl)

abbrev queue : List ℕ → List Entry → Queue
queue elts entries = record {
  ready_queue = entries;
  done_queue = elts;
  queued_elements = 5;
  required_element_check = false;
  session_elements = none;
  task_group = new_task_group;
  imperative = false;
}

abbrev entry : ℕ → ℕ → Entry
entry d e = record { depth = d; order = e; element = e }

abbrev two_queues : List Queue
two_queues = queue (1 ∷ 2 ∷ []) [] ∷ queue [] [] ∷ []

queue-IsOrdered : (es : List ℕ) → IsOrdered (queue es [])
queue-IsOrdered es = record { sorted = tt; numbered = tt }

abbrev events : List (Event (List (RefChange ℕ)))
events =
    schedule
    ∷ thread_begins 1
    ∷ completed 1 0 none
    ∷ callback 0 2
    ∷ retried 1 2
    ∷ schedule
    ∷ terminate_all
    ∷ terminate_jobs
    ∷ completed 2 4 none
    ∷ []

abbrev started : Sched World
started = initial 1 1 1 two_queues true []

-- The first queue is imperative, and what leaves it enters the second.
abbrev imperative_queues : List Queue
imperative_queues = record (queue (1 ∷ 2 ∷ []) []) { imperative = true } ∷ queue [] [] ∷ []

abbrev begun : Sched World
begun = initial 1 1 1 imperative_queues true []

sched_queue_jobs_stopped_example :
    Returns
      (λ s'.
        (new : List Job) × (s'.active_jobs ≡ [] ++ new)
        × All (λ j. IsPostImperative imperative_queues j.queue) new)
      (sched_queue_jobs host classes 2 (record begun { queue_jobs = false }))
unfolding initial
sched_queue_jobs_stopped_example =
    sched_queue_jobs_stopped host classes 2 classes-IsCalm (record begun { queue_jobs = false })
      (queues_kept host classes 2 classes-IsCalm (λ e w. tt) begun
        (initial-IsRunning host classes 2 classes-IsCalm (λ e w. tt) 1 1 1 imperative_queues true []
          (record { sorted = tt; numbered = tt }, (queue-IsOrdered [], tt))).sound)
      refl

step-terminated_example :
    Ensures
      (λ s'. (s'.terminated ≡ true) × (s'.next_id ≡ 1))
      (step host classes 2 schedule (record started { terminated = true }))
unfolding initial
step-terminated_example =
    step-terminated host classes 2 schedule (record started { terminated = true }) refl

abbrev waiting : Queue
waiting = queue [] (entry 1 1 ∷ entry 2 2 ∷ [])

waiting-IsOrdered : IsOrdered waiting
waiting-IsOrdered = record {
  sorted = ((refl, tt), (tt, tt));
  numbered = (omega arith, (omega arith, tt));
}

harvest_jobs_fair_example :
    (took : List Entry) × (waiting.ready_queue
      ≡ took ++ (harvest_jobs host (classes 1) waiting (new_resources 1 1 1)).1.ready_queue)
    × ((harvest_jobs host (classes 1) waiting (new_resources 1 1 1)).0 ≡ elements took)
    × All
        (λ x.
          All
            (λ y. before x y ≡ true)
            (harvest_jobs host (classes 1) waiting (new_resources 1 1 1)).1.ready_queue)
        took
harvest_jobs_fair_example =
    harvest_jobs_fair host (classes 1) waiting (new_resources 1 1 1) waiting-IsOrdered

harvest_jobs_stops_example :
    ((harvest_jobs host (classes 1) waiting (new_resources 1 1 1)).1.ready_queue ≡ [])
    ⊎ ((reserve
          (harvest_jobs host (classes 1) waiting (new_resources 1 1 1)).2
          (classes 1).resources
          []
          false).0
        ≡ false)
harvest_jobs_stops_example = harvest_jobs_stops host (classes 1) waiting (new_resources 1 1 1)

abbrev busy : Resources
busy = record (new_resources 1 1 1) { used_resources = λ _. 1 }

new_resources-IsWithin : IsWithin (new_resources 1 1 1)
unfolding new_resources
new_resources-IsWithin t h = omega arith

reserve-IsWithin_example :
    IsWithin (reserve (new_resources 1 1 1) (process ∷ cache ∷ []) [] false).1
reserve-IsWithin_example =
    reserve-IsWithin (new_resources 1 1 1) (process ∷ cache ∷ []) [] false new_resources-IsWithin

release_lem_example :
    (((t : ResourceType) → uses (process ∷ []) t ≤ busy.used_resources t)
      → release busy (process ∷ [])
        ≡ ok (record busy { used_resources = λ t. busy.used_resources t - uses (process ∷ []) t }))
    × ((t : ResourceType)
        → busy.used_resources t < uses (process ∷ []) t
        → release busy (process ∷ []) ≡ raise assertion)
release_lem_example = release_lem busy (process ∷ [])

process-IsDistinct : IsDistinct (process ∷ [])
process-IsDistinct t = ground arith

reserved : (reserve (new_resources 1 1 1) (process ∷ []) [] false).0 ≡ true
unfolding reserve can_reserve new_resources
reserved = refl

release-reserve_example :
    release (reserve (new_resources 1 1 1) (process ∷ []) [] false).1 (process ∷ [])
    ≡ ok (new_resources 1 1 1)
release-reserve_example =
    release-reserve (new_resources 1 1 1) (process ∷ []) [] process-IsDistinct reserved

abbrev job : Job
job = new_job 1 0 1 2

retries-child_end_example :
    (retries (child_end (child_error true) job).1 false job ≡ true)
    ↔ (child_error true ≡ child_error true) × (0 ≤ 2) × (false ≡ false)
retries-child_end_example = retries-child_end (child_error true) false job

tries_until_lem_example : Returns (λ j'. j'.tries ≡ 3) (tries_until 3 false job)
tries_until_lem_example = tries_until_lem 2 3 job refl refl (omega arith)

abbrev queued_job : Job
queued_job = record job { tries = 1; has_task = true }

terminate_unstarted_example :
    ((terminate queued_job).terminated ≡ false)
    × ((child_begin true (terminate queued_job)).1 ≡ some code_terminated)
    × (status_of code_terminated ≡ failed)
terminate_unstarted_example = terminate_unstarted queued_job refl refl

class_of-IsUsable_example : IsUsable (class_of project (fetch true false))
class_of-IsUsable_example = class_of-IsUsable project (fetch true false)
