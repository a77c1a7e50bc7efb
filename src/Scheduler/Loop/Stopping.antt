-- ===== src/Scheduler/Loop/Stopping.antt =====
-- What scheduler.py still starts after `stop` or `terminate`, and when its loop ends.
use buildstream.Common.{
  ℕ, ◌≡◌, refl, true, false, Option, none, some, arith, ltb, length, get_elem?, Outcome, Ensures,
  Ensures-bind, Ensures-if, Ensures-any,
}
use buildstream.Scheduler.Queues.{Host, QueueClass, JobStatus, enqueue_element, retry_job}
use buildstream.Scheduler.Jobs.{Job, start, ReturnCode, to_return_code, retries, status_of}
use buildstream.Scheduler.Loop.{
  Sched, Event, schedule, thread_begins, completed, callback, retried, stop, terminate_all,
  terminate_jobs, find_job, real_schedule, bail_out, sched, job_completed, parent_complete,
  child_completed, into, has_failed, on_job, handle, step,
}

module _ {W R : Type 0} (host : Host W) (classes : ℕ → QueueClass W R) (network_retries : ℕ) where
  -- Still terminating, and no job was made.
  abbrev Quiet : Sched W → Sched W → Type 0
  Quiet s s' = (s'.terminated ≡ true) × (s'.next_id ≡ s.next_id)

  real_schedule-Quiet :
      (s : Sched W)
      → s.terminated ≡ true
      → Ensures (Quiet s) (real_schedule host classes network_retries s)
  unfolding real_schedule bail_out
  real_schedule-Quiet s h = ground arith

  job_completed-Quiet :
      (j : Job) (status : JobStatus) (s : Sched W)
      → s.terminated ≡ true
      → Ensures (Quiet s) (job_completed host classes network_retries j status s)
  unfolding job_completed sched
  job_completed-Quiet j status s h = ground arith

  child_completed-Quiet :
      (j : Job) (code : ReturnCode) (result : Option R) (s : Sched W)
      → s.terminated ≡ true
      → Ensures (Quiet s) (child_completed host classes network_retries j code result s)
  unfolding child_completed
  child_completed-Quiet j code result s h =
      Ensures-if (Quiet s) (retries code s.terminated j) _ _
        (Ensures-bind (λ _. Unit {0}) (Quiet s) (start j) _ (Ensures-any _ (start j) (λ _. tt))
          (λ j' _. (h, refl)))
        (Ensures-bind (λ _. Unit {0}) (Quiet s)
          (parent_complete host classes network_retries j.queue j (status_of code) result s.queues
            s.world s.pool)
          _
          (Ensures-any _
            (parent_complete host classes network_retries j.queue j (status_of code) result s.queues
              s.world s.pool)
            (λ _. tt))
          (λ (qs, w, pool') _.
            job_completed-Quiet j (status_of code)
              (record s { queues = qs; world = w; pool = pool' }) h))

  on_job-Quiet :
      (o : Option Job) (s : Sched W) (f : Job → Outcome (Sched W))
      → s.terminated ≡ true
      → ((k : Job) → Ensures (Quiet s) (f k))
      → Ensures (Quiet s) (on_job host classes network_retries o s f)
  unfolding on_job
  on_job-Quiet none s f h k = (h, refl)
  on_job-Quiet (some j) s f h k = k j

  handle-Quiet :
      (ev : Event R) (s : Sched W)
      → s.terminated ≡ true
      → Ensures (Quiet s) (handle host classes network_retries ev s)
  unfolding handle
  handle-Quiet schedule s h =
      Ensures-if (Quiet s) s.sched_handle _ _ (real_schedule-Quiet s h) (h, refl)
  handle-Quiet (thread_begins id) s h =
      on_job-Quiet (find_job id s.active_jobs) s _ h (λ k. (h, refl))
  handle-Quiet (completed id c r) s h =
      on_job-Quiet (find_job id s.active_jobs) s _ h
        (λ k. child_completed-Quiet (record k { thread = false }) (to_return_code c) r s h)
  handle-Quiet (callback i e) s h =
      Ensures-if (Quiet s) (ltb i (length s.queues)) _ _
        (Ensures-bind (λ _. Unit {0}) (Quiet s)
          (into host classes network_retries (enqueue_element host (classes i) e) i s.queues
            s.world)
          _
          (Ensures-any _
            (into host classes network_retries (enqueue_element host (classes i) e) i s.queues
              s.world)
            (λ _. tt))
          (λ r _. (h, refl)))
        (h, refl)
  handle-Quiet (retried i e) s h =
      Ensures-if (Quiet s) (has_failed host classes network_retries (get_elem? s.queues i) e) _ _
        (Ensures-bind (λ _. Unit {0}) (Quiet s)
          (into host classes network_retries (retry_job host (classes i) e) i s.queues s.world) _
          (Ensures-any _
            (into host classes network_retries (retry_job host (classes i) e) i s.queues s.world)
            (λ _. tt))
          (λ r _. (h, refl)))
        (h, refl)
  handle-Quiet stop s h = (h, refl)
  handle-Quiet terminate_all s h = (refl, refl)
  handle-Quiet terminate_jobs s h = Ensures-if (Quiet s) s.terminate_due _ _ (h, refl) (h, refl)

  -- Once the scheduler is terminated it stays so, and no event makes a new job.
  pub step-terminated :
      (ev : Event R) (s : Sched W)
      → s.terminated ≡ true
      → Ensures
          (λ s'. (s'.terminated ≡ true) × (s'.next_id ≡ s.next_id))
          (step host classes network_retries ev s)
  unfolding step
  step-terminated ev s h = Ensures-if (Quiet s) s.stopped _ _ (h, refl) (handle-Quiet ev s h)
