-- ===== src/Scheduler/Loop/Invariant.antt =====
-- The invariant of scheduler.py's loop, and the jobs that a round starts.
use buildstream.Common.{
  ℕ, suc, ◌+◌, ◌<◌, ◌≡◌, refl, ◌∙◌, true, false, List, [], ◌∷◌, map-append, arith, All, All-append,
  All-weaken, length, contains, Returns, Returns-bind, Returns-weaken,
}
use buildstream.State.{add_task_fresh}
use buildstream.Scheduler.Resources.{ResourceType}
use buildstream.Scheduler.Resources.Accounting.{IsWithin}
use buildstream.Scheduler.Queues.{Host, QueueClass, max_retries}
use buildstream.Scheduler.Queues.Usable.{IsCalm}
use buildstream.Scheduler.Queues.Fairness.{IsOrdered}
use buildstream.Scheduler.Jobs.{Job, new_job, start}
use buildstream.Scheduler.Loop.{
  Sched, Wanted, pull_forward, harvest_from, skipped_queues, rounds, start_job, start_jobs,
}
use buildstream.Scheduler.Loop.ActiveJobs.{ids, IsValid, contains-fresh, held, held-append}
use buildstream.Scheduler.Loop.ActiveTasks.{HasTasks, HasTasks-fresh, HasTasks-snoc}
use buildstream.Scheduler.Loop.Rounds.{
  IsDrained, pull_forward-Returns, wanted_uses, any_ready-drained, harvest_from-Harvested,
}

module _ {W : Type 0} where
  -- What a round and its starts leave alone.
  pub record SameFlags (s s' : Sched W) : Type 0 where
    pub terminated : s'.terminated ≡ s.terminated
    pub terminate_due : s'.terminate_due ≡ s.terminate_due
    pub stopped : s'.stopped ≡ s.stopped
    pub sched_handle : s'.sched_handle ≡ s.sched_handle

  pub SameFlags-trans : {s s' s'' : Sched W} → SameFlags s s' → SameFlags s' s'' → SameFlags s s''
  SameFlags-trans p q = record {
    terminated = q.terminated ∙ p.terminated;
    terminate_due = q.terminate_due ∙ p.terminate_due;
    stopped = q.stopped ∙ p.stopped;
    sched_handle = q.sched_handle ∙ p.sched_handle;
  }

module _ {W R : Type 0} (host : Host W) (classes : ℕ → QueueClass W R) (network_retries : ℕ)
    (calm : (i : ℕ) → IsCalm (classes i)) where
  -- The resources, queues, jobs and tasks, where the jobs `ready` are still to be started. What is in
  -- use of each resource is what the active jobs and these hold, and the tasks of the state are those
  -- from before and the active jobs.
  pub record IsSound (ready : List Wanted) (s : Sched W) : Type 0 where
    pub within : IsWithin s.pool
    pub used :
        (t : ResourceType)
        → s.pool.used_resources t ≡ held classes s.active_jobs t + wanted_uses classes ready t
    pub ordered : All IsOrdered s.queues
    pub valid : All (IsValid (length s.queues) s.next_id s.terminated) s.active_jobs
    pub indices : All (λ x. x.0 < length s.queues) ready
    pub tasks : HasTasks s.next_id s.state.tasks (ids s.active_jobs)

  -- One round is enough: it drains every queue, and a harvest puts nothing in a done queue.
  pub rounds-IsSound :
      (fuel : ℕ) (s : Sched W)
      → IsSound [] s
      → Returns (λ r. IsSound r.0 r.1 × SameFlags s r.1) (rounds host classes (suc fuel) [] s)
  unfolding rounds
  rounds-IsSound fuel s h =
      Returns-bind _ _ (pull_forward host classes 0 [] s.queues s.world) _
        (pull_forward-Returns host classes calm 0 [] s.queues s.world h.ordered)
        (λ (qs, w) (drained, len).
          let n = skipped_queues s.queue_jobs s.queues in
          let r = harvest_from-Harvested host classes calm n 0 qs s.pool drained h.within in
          rw
            (any_ready-drained host classes calm n (harvest_from host classes n 0 qs s.pool).1
              r.drained)
            (
              record {
                within = r.within;
                used = λ t. omega (arith, h.used t, r.used t);
                ordered = All-weaken IsDrained IsOrdered _ (λ q d. d.0) r.drained;
                valid = rw (r.same_length ∙ len) h.valid;
                indices =
                    All-weaken _ _ (harvest_from host classes n 0 qs s.pool).0
                      (λ x p. omega (arith, p.1, r.same_length)) r.indices;
                tasks = h.tasks;
              },
              record {
                terminated = refl;
                terminate_due = refl;
                stopped = refl;
                sched_handle = refl;
              },
            ))

  start_job-IsSound :
      (x : Wanted) (xs : List Wanted) (s : Sched W)
      → IsSound (x ∷ xs) s
      → Returns (λ s'. IsSound xs s' × SameFlags s s') (start_job host classes network_retries x s)
  unfolding start_job start
  start_job-IsSound (i, e) xs s h =
      let retries = max_retries (classes i).resources network_retries in
      let j : Job = record (new_job s.next_id i e retries) { tries = 1; has_task = true } in
      rw (add_task_fresh s.next_id s.state (HasTasks-fresh _ _ _ h.tasks (fresh i e xs s h))) (
        record {
          within = h.within;
          used = λ t. omega (arith, h.used t, held-append classes s.active_jobs (j ∷ []) t);
          ordered = h.ordered;
          valid =
              All-append _ s.active_jobs (j ∷ [])
                (All-weaken _ _ s.active_jobs (λ k v. (v.0, omega (arith, v.1), v.2)) h.valid)
                ((h.indices.0, omega arith, λ f. absurd (cc)), tt);
          indices = h.indices.1;
          tasks = rw map-append (HasTasks-snoc _ _ _ h.tasks (fresh i e xs s h));
        },
        record { terminated = refl; terminate_due = refl; stopped = refl; sched_handle = refl },
      )
    where
      fresh :
          (i e : ℕ) (xs : List Wanted) (s : Sched W)
          → IsSound ((i, e) ∷ xs) s
          → contains (ids s.active_jobs) s.next_id ≡ false
      fresh i e xs s h =
          contains-fresh (length s.queues) s.next_id s.terminated s.active_jobs h.valid

  pub start_jobs-IsSound :
      (xs : List Wanted) (s : Sched W)
      → IsSound xs s
      → Returns
          (λ s'. IsSound [] s' × SameFlags s s')
          (start_jobs host classes network_retries xs s)
  unfolding start_jobs
  start_jobs-IsSound [] s h =
      (h, record { terminated = refl; terminate_due = refl; stopped = refl; sched_handle = refl })
  start_jobs-IsSound (x ∷ xs) s h =
      Returns-bind _ _ (start_job host classes network_retries x s) _ (start_job-IsSound x xs s h)
        (λ s' (h', same).
          Returns-weaken _ _ (start_jobs host classes network_retries xs s')
            (λ s'' (h'', same'). (h'', SameFlags-trans same same')) (start_jobs-IsSound xs s' h'))
