-- ===== src/Scheduler/Loop/AfterStop.antt =====
-- What scheduler.py still starts after `stop`.
use buildstream.Common.{
  zero, ◌<◌, get_elem?, length, some, Bool-cases, inl, inr, ℕ, suc, ◌≤◌, ◌≡◌, refl, sym, ap, ◌∙◌,
  true, false, List, [], ◌∷◌, ◌++◌, arith, append-nil, append_assoc, All, All-weaken, Ensures,
  Ensures-bind, Ensures-any, Ensures-weaken, Returns, Returns-bind, Returns-weaken, Returns-Ensures,
  Returns→Ensures,
}
use buildstream.State.{add_task}
use buildstream.Scheduler.Queues.{Queue, Host, QueueClass, max_retries}
use buildstream.Scheduler.Queues.Usable.{IsCalm}
use buildstream.Scheduler.Jobs.{Job, new_job, start}
use buildstream.Scheduler.Loop.{
  Sched, Wanted, first_imperative, skipped_queues, pull_forward, harvest_from, rounds, start_job,
  start_jobs, sched_queue_jobs,
}
use buildstream.Scheduler.Loop.Rounds.{
  IsDrained, pull_forward-Returns, any_ready-drained, harvest_from-Harvested,
}
use buildstream.Scheduler.Loop.Invariant.{IsSound, rounds-IsSound, start_jobs-IsSound}

module _ {W R : Type 0} (host : Host W) (classes : ℕ → QueueClass W R) (network_retries : ℕ) where
  start_job_added :
      (P : ℕ → Type 0) (x : Wanted) (s : Sched W)
      → P x.0
      → Ensures
          (λ s'. (j : Job) × (s'.active_jobs ≡ s.active_jobs ++ j ∷ []) × P j.queue)
          (start_job host classes network_retries x s)
  unfolding start_job start
  start_job_added P (i, e) s h =
      Ensures-bind (λ _. Unit {0}) _ (add_task s.next_id s.state) _
        (Ensures-any _ (add_task s.next_id s.state) (λ _. tt))
        (λ st _. (
          record (new_job s.next_id i e (max_retries (classes i).resources network_retries)) {
            tries = 1;
            has_task = true;
          },
          refl,
          h,
        ))

  -- The active jobs are those there were, and new ones of such queues.
  abbrev Grown : (ℕ → Type 0) → Sched W → Sched W → Type 0
  Grown P s s' =
      (new : List Job) × (s'.active_jobs ≡ s.active_jobs ++ new) × All (λ j. P j.queue) new

  start_jobs_added :
      (P : ℕ → Type 0) (xs : List Wanted) (s : Sched W)
      → All (λ x. P x.0) xs
      → Ensures (Grown P s) (start_jobs host classes network_retries xs s)
  unfolding start_jobs
  start_jobs_added P [] s h = ([], sym (append-nil s.active_jobs), tt)
  start_jobs_added P (x ∷ xs) s h =
      Ensures-bind _ _ (start_job host classes network_retries x s) _ (start_job_added P x s h.0)
        (λ s' (j, e, p).
          Ensures-weaken _ _ (start_jobs host classes network_retries xs s')
            (λ s'' (new, e', ps). (
              j ∷ new,
              e' ∙ ap (λ (l : List Job). l ++ new) e ∙ append_assoc s.active_jobs (j ∷ []) new,
              (p, ps),
            ))
            (start_jobs_added P xs s' h.1))

-- Some queue before this number is imperative.
abbrev pub IsPostImperative : List Queue → ℕ → Type 0
IsPostImperative queues n =
    (i : ℕ) × (q : Queue) × (get_elem? queues i ≡ some q) × (q.imperative ≡ true) × (i < n)

first_imperative-IsPostImperative :
    (queues : List Queue) (n : ℕ)
    → first_imperative queues ≤ n
    → n < length queues
    → IsPostImperative queues n
unfolding first_imperative
first_imperative-IsPostImperative [] n h l = absurd (omega (arith, l))
first_imperative-IsPostImperative (q ∷ queues) zero h l = absurd (ground (arith, h))
first_imperative-IsPostImperative (q ∷ queues) (suc n) h l = elim (Bool-cases q.imperative) [
  | inl is_imperative ↦ (0, q, refl, is_imperative, omega arith)
  | inr other ↦
      let (i, p, found, imperative, before) =
        first_imperative-IsPostImperative queues n (ground (arith, other, h)) (omega (arith, l)) in
      (suc i, p, found, imperative, omega (arith, before))
]

module _ {W R : Type 0} (host : Host W) (classes : ℕ → QueueClass W R) (network_retries : ℕ)
    (calm : (i : ℕ) → IsCalm (classes i)) where
  rounds_beyond :
      (fuel : ℕ) (s : Sched W)
      → IsSound host classes network_retries calm [] s
      → Ensures
          (λ r.
            All (λ x. (skipped_queues s.queue_jobs s.queues ≤ x.0) × (x.0 < length s.queues)) r.0
            × (r.1.active_jobs ≡ s.active_jobs))
          (rounds host classes (suc fuel) [] s)
  unfolding rounds
  rounds_beyond fuel s h =
      Ensures-bind (λ r. All IsDrained r.0 × (length r.0 ≡ length s.queues)) _
        (pull_forward host classes 0 [] s.queues s.world) _
        (Returns→Ensures _ (pull_forward host classes 0 [] s.queues s.world)
          (pull_forward-Returns host classes calm 0 [] s.queues s.world h.ordered))
        (λ (qs, w) (drained, same_length).
          let n = skipped_queues s.queue_jobs s.queues in
          let r = harvest_from-Harvested host classes calm n 0 qs s.pool drained h.within in
          rw
            (any_ready-drained host classes calm n (harvest_from host classes n 0 qs s.pool).1
              r.drained)
            (
              (All-weaken _ _ (harvest_from host classes n 0 qs s.pool).0
                  (λ x p. (omega (arith, p.0), omega (arith, p.1, same_length))) r.indices),
              refl,
            ))

  -- After `stop`, the jobs that the scheduler still starts are of queues that come after an imperative
  -- one; it starts none where no queue is imperative.
  pub sched_queue_jobs_stopped :
      (s : Sched W)
      → IsSound host classes network_retries calm [] s
      → s.queue_jobs ≡ false
      → Returns
          (λ s'.
            (new : List Job) × (s'.active_jobs ≡ s.active_jobs ++ new)
            × All (λ j. IsPostImperative s.queues j.queue) new)
          (sched_queue_jobs host classes network_retries s)
  unfolding sched_queue_jobs skipped_queues
  sched_queue_jobs_stopped s h e =
      Returns-bind _ _ (rounds host classes 2 [] s) _
        (Returns-Ensures _ _ (rounds host classes 2 [] s)
          (rounds-IsSound host classes network_retries calm 1 s h) (rounds_beyond 1 s h))
        (λ (ready, s') ((sound, _), (beyond, same)).
          Returns-weaken _ _ (start_jobs host classes network_retries ready s')
            (λ s'' (_, (new, eq, ps)). (new, eq ∙ ap (λ (l : List Job). l ++ new) same, ps))
            (Returns-Ensures _ _ (start_jobs host classes network_retries ready s')
              (start_jobs-IsSound host classes network_retries calm ready s' sound)
              (start_jobs_added host classes network_retries (IsPostImperative s.queues) ready s' (
                All-weaken _ _ ready (λ x p. first_imperative-IsPostImperative s.queues x.0 p.0 p.1)
                  (rw e at beyond)))))
