-- ===== src/Scheduler/Loop.antt =====
-- src/buildstream/_scheduler/scheduler.py: the scheduler's main loop. Its state is `Sched`; what
-- the event loop may run next is an `Event`. The queues stand in a list, and `classes i` is the
-- class of queue number i. A callback that makes an element enter another queue than the one whose
-- `done` runs it is an event of its own, and so is what the user asks for when a job fails.
use buildstream.Common.{
  ℕ, zero, suc, ◌+◌, Bool, true, false, not, ◌&&◌, ◌||◌, Option, none, some, List, [], ◌∷◌, ◌++◌,
  map, ◌==◌, ltb, leb, if◌then◌else◌, any, length, contains, get_elem?, Outcome, ok, raise,
  key_error, value_error, diverged, ◌>>=◌, ◌>>◌,
}
use buildstream.State.{State, add_task, remove_task, fail_task}
use buildstream.Scheduler.Resources.{Resources, new_resources}
use buildstream.Scheduler.Queues.{
  Host, QueueClass, Queue, JobStatus, succeeded, failed, skipped, max_retries, enqueue_element,
  enqueue, retry_job, dequeue, dequeue_ready, harvest_jobs, job_done, any_failed_elements,
  is_nonempty,
}
use buildstream.Scheduler.Jobs.{
  Job, new_job, start, terminate, ChildEnding, child_begin, child_end, ReturnCode, to_return_code,
  status_of, retries,
}
pub mod ActiveJobs
pub mod ActiveTasks
pub mod Rounds
pub mod Invariant
pub mod Running
pub mod Completing
pub mod Entering
pub mod Safety
pub mod Stopping
pub mod AfterStop

-- SchedStatus
pub data SchedStatus : Type 0 where
  success sched_error sched_terminated : SchedStatus

-- `sched_handle` is whether a call of `real_schedule` is due, `terminate_due` whether one of
-- `_terminate_jobs_real` is, and `stopped` whether the event loop was told to stop.
pub record Sched (W : Type 0) : Type 0 where
  pub queues : List Queue
  pub pool : Resources
  pub active_jobs : List Job
  pub terminated : Bool
  pub queue_jobs : Bool
  pub sched_handle : Bool
  pub terminate_due : Bool
  pub stopped : Bool
  pub next_id : ℕ
  pub state : State
  pub world : W

-- What the event loop may run, in any order: `real_schedule`, the start of a job's thread, the
-- completion of a job with an exit code and a result, an element's callback into a queue, what the
-- user asks for after a failure (`retry_job`, `stop`, `terminate`), and `_terminate_jobs_real`.
pub data Event (R : Type 0) : Type 0 where
  schedule : Event R
  thread_begins : ℕ → Event R
  completed : ℕ → (returncode : ℕ) → Option R → Event R
  callback : (queue element : ℕ) → Event R
  retried : (queue element : ℕ) → Event R
  stop terminate_all terminate_jobs : Event R

-- The job with an id, and the list without it: `list.remove`, and replacing it in place.
pub find_job : ℕ → List Job → Option Job
find_job id [] = none
find_job id (j ∷ js) = if j.id == id then some j else find_job id js

pub remove_job : ℕ → List Job → List Job
remove_job id [] = []
remove_job id (j ∷ js) = if j.id == id then js else j ∷ remove_job id js

pub replace_job : Job → List Job → List Job
replace_job j [] = []
replace_job j (k ∷ ks) = if k.id == j.id then j ∷ ks else k ∷ replace_job j ks

-- How many queues come before `queues_to_process`.
pub first_imperative : List Queue → ℕ
first_imperative [] = 0
first_imperative (q ∷ qs) = if q.imperative then 1 else first_imperative qs + 1

unfoldable pub skipped_queues : Bool → List Queue → ℕ
skipped_queues queue_jobs qs = if queue_jobs then 0 else first_imperative qs

-- A job to be made: its queue and its element.
abbrev pub Wanted : Type 0
Wanted = ℕ × ℕ

module _ {W R : Type 0} (host : Host W) (classes : ℕ → QueueClass W R) where
  -- Pulls elements forward: what leaves a queue enters the next, and what leaves the last is done.
  pub pull_forward : ℕ → List ℕ → List Queue → W → Outcome (List Queue × W)
  pull_forward i es [] w = ok ([], w)
  pull_forward i es (q ∷ qs) w = do
    (q', w') ← enqueue host (classes i) es q w
    let (es', q'') = dequeue q'
    (qs', w'') ← pull_forward (i + 1) es' qs w'
    ok (q'' ∷ qs', w'')

  -- Harvests from the last queue to the first, leaving out the first `n` queues.
  pub harvest_from : ℕ → ℕ → List Queue → Resources → List Wanted × List Queue × Resources
  harvest_from n i [] pool = ([], [], pool)
  harvest_from zero i (q ∷ qs) pool =
      let (wanted, qs', pool') = harvest_from zero (i + 1) qs pool in
      let (elements, q', pool'') = harvest_jobs host (classes i) q pool' in
      (wanted ++ map (λ e. (i, e)) elements, q' ∷ qs', pool'')
  harvest_from (suc n) i (q ∷ qs) pool =
      let (wanted, qs', pool') = harvest_from n (i + 1) qs pool in (wanted, q ∷ qs', pool')

  -- any(q.dequeue_ready() for q in queues_to_process)
  pub any_ready : ℕ → List Queue → Bool
  any_ready n [] = false
  any_ready zero (q ∷ qs) = dequeue_ready q || any_ready zero qs
  any_ready (suc n) (q ∷ qs) = any_ready n qs

  -- The `while process_queues` loop.
  pub rounds : ℕ → List Wanted → Sched W → Outcome (List Wanted × Sched W)
  rounds zero ready s = raise diverged
  rounds (suc fuel) ready s =
      let n = skipped_queues s.queue_jobs s.queues in
      pull_forward 0 [] s.queues s.world >>= λ (qs, w).
      let (wanted, qs', pool') = harvest_from n 0 qs s.pool in
      let s' : Sched W = record s { queues = qs'; pool = pool'; world = w } in
      let more = rounds fuel (ready ++ wanted) s' in
      if any_ready n qs' then more else ok (ready ++ wanted, s')

module _ {W R : Type 0} (host : Host W) (classes : ℕ → QueueClass W R) (network_retries : ℕ) where
  pub start_job : Wanted → Sched W → Outcome (Sched W)
  start_job (i, e) s = do
    j ← start (new_job s.next_id i e (max_retries (classes i).resources network_retries))
    state' ← add_task s.next_id s.state
    ok (record s { active_jobs = s.active_jobs ++ j ∷ []; next_id = s.next_id + 1; state = state' })

  pub start_jobs : List Wanted → Sched W → Outcome (Sched W)
  start_jobs [] s = ok s
  start_jobs (x ∷ xs) s = start_job x s >>= λ s'. start_jobs xs s'

  -- One round is enough, so two are given.
  pub sched_queue_jobs : Sched W → Outcome (Sched W)
  sched_queue_jobs s = do (ready, s') ← rounds host classes 2 [] s; start_jobs ready s'

  bail_out : Sched W → Sched W
  bail_out s = if is_nonempty s.active_jobs then s else record s { stopped = true }

  pub real_schedule : Sched W → Outcome (Sched W)
  unfolding bail_out
  real_schedule s = do
    let s0 : Sched W = record s { sched_handle = false }
    s' ← if s.terminated then ok s0 else sched_queue_jobs s0
    ok (bail_out s')

  -- _sched(): `call_soon`, unless a call is due already
  sched : Sched W → Sched W
  sched s = record s { sched_handle = true }

  announce : JobStatus → ℕ → State → State
  announce failed id st = fail_task id st
  announce _ id st = st

  pub job_completed : Job → JobStatus → Sched W → Outcome (Sched W)
  unfolding sched announce
  job_completed j status s = do
    state' ← remove_task j.id (announce status j.id s.state)
    ok (sched (record s { active_jobs = remove_job j.id s.active_jobs; state = state' }))

  -- ElementJob.parent_complete(): the queue's `_job_done`
  parent_complete :
      ℕ
      → Job
      → JobStatus
      → Option R
      → List Queue
      → W
      → Resources
      → Outcome (List Queue × W × Resources)
  parent_complete n j status result [] w pool = raise key_error
  parent_complete zero j status result (q ∷ qs) w pool = do
    (q', w', pool') ← job_done host (classes j.queue) j.element status j.terminated result q w pool
    ok (q' ∷ qs, w', pool')
  parent_complete (suc n) j status result (q ∷ qs) w pool = do
    (qs', w', pool') ← parent_complete n j status result qs w pool
    ok (q ∷ qs', w', pool')

  -- _parent_child_completed()
  pub child_completed : Job → ReturnCode → Option R → Sched W → Outcome (Sched W)
  unfolding parent_complete
  child_completed j code result s =
      if retries code s.terminated j
      then (start j >>= λ j'. ok (record s { active_jobs = replace_job j' s.active_jobs }))
      else do
        (qs, w, pool') ← parent_complete j.queue j (status_of code) result s.queues s.world s.pool
        job_completed j (status_of code) (record s { queues = qs; world = w; pool = pool' })

  -- Runs an operation of the queue with a number.
  pub into : (Queue → W → Outcome (Queue × W)) → ℕ → List Queue → W → Outcome (List Queue × W)
  into f n [] w = raise key_error
  into f zero (q ∷ qs) w = do (q', w') ← f q w; ok (q' ∷ qs, w')
  into f (suc n) (q ∷ qs) w = do (qs', w') ← into f n qs w; ok (q ∷ qs', w')

  -- The user is asked about a job that failed.
  pub has_failed : Option Queue → ℕ → Bool
  has_failed none e = false
  has_failed (some q) e = contains q.task_group.failed_tasks e

  on_job : Option Job → Sched W → (Job → Outcome (Sched W)) → Outcome (Sched W)
  on_job none s f = ok s
  on_job (some j) s f = f j

  handle : Event R → Sched W → Outcome (Sched W)
  unfolding into on_job has_failed
  handle schedule s = if s.sched_handle then real_schedule s else ok s
  handle (thread_begins id) s =
      on_job (find_job id s.active_jobs) s
        λ j. ok (record s { active_jobs = replace_job (child_begin true j).0 s.active_jobs })
  handle (completed id returncode result) s =
      on_job (find_job id s.active_jobs) s
        λ j. child_completed (record j { thread = false }) (to_return_code returncode) result s
  handle (callback i e) s =
      if ltb i (length s.queues)
      then (into (enqueue_element host (classes i) e) i s.queues s.world >>= λ (qs, w).
          ok (record s { queues = qs; world = w }))
      else ok s
  handle (retried i e) s =
      if has_failed (get_elem? s.queues i) e
      then (into (retry_job host (classes i) e) i s.queues s.world >>= λ (qs, w).
          ok (record s { queues = qs; world = w }))
      else ok s
  handle stop s = ok (record s { queue_jobs = false })
  handle terminate_all s = ok (record s { terminated = true; terminate_due = true })
  handle terminate_jobs s =
      if s.terminate_due
      then ok (record s { active_jobs = map terminate s.active_jobs; terminate_due = false })
      else ok s

  -- An event that does not apply is no event; once the loop stops, none is handled.
  pub step : Event R → Sched W → Outcome (Sched W)
  unfolding handle
  step ev s = if s.stopped then ok s else handle ev s

  pub run_events : List (Event R) → Sched W → Outcome (Sched W)
  run_events [] s = ok s
  run_events (ev ∷ evs) s = step ev s >>= λ s'. run_events evs s'

-- The status with which `run` returns.
pub run_status : {W : Type 0} → Sched W → SchedStatus
run_status s =
    if any any_failed_elements s.queues
    then sched_error
    else if s.terminated
    then sched_terminated
    else success

-- The tasks that the state has already: that of the `simple_task` inside which the scheduler runs.
abbrev pub outer_tasks : Bool → List ℕ
outer_tasks true = 0 ∷ []
outer_tasks false = []

-- The scheduler when `run` has called `_sched` for the first time, inside a `simple_task` or not.
unfoldable pub initial : {W : Type 0} → ℕ → ℕ → ℕ → List Queue → Bool → W → Sched W
initial builders fetchers pushers queues simple_task w = record {
  queues = queues;
  pool = new_resources builders fetchers pushers;
  active_jobs = [];
  terminated = false;
  queue_jobs = true;
  sched_handle = true;
  terminate_due = false;
  stopped = false;
  next_id = 1;
  state = record { tasks = outer_tasks simple_task; announced = [] };
  world = w;
}
