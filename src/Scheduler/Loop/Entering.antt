-- ===== src/Scheduler/Loop/Entering.antt =====
-- An element that enters a queue of scheduler.py between two rounds: by a callback, or by a retry.
use buildstream.Common.{
  ℕ, zero, suc, ◌<◌, ◌≡◌, refl, ap, subst, true, some, List, [], ◌∷◌, arith, contains, get_elem?,
  All, length, Outcome, Returns, Returns-bind,
}
use buildstream.Scheduler.Queues.{Host, QueueClass, Queue}
use buildstream.Scheduler.Queues.Fairness.{IsOrdered}
use buildstream.Scheduler.Loop.{into, has_failed}

module _ {W R : Type 0} (host : Host W) (classes : ℕ → QueueClass W R) (network_retries : ℕ) where
  -- An operation that returns at the queue it is run at and keeps the order of its heap.
  pub into-Returns :
      (f : Queue → W → Outcome (Queue × W)) (n : ℕ) (qs : List Queue) (w : W)
      → n < length qs
      → All IsOrdered qs
      → ((q : Queue)
          → get_elem? qs n ≡ some q
          → IsOrdered q
          → Returns (λ r. Unit {0} × IsOrdered r.0) (f q w))
      → Returns
          (λ r. (length r.0 ≡ length qs) × All IsOrdered r.0)
          (into host classes network_retries f n qs w)
  unfolding into
  into-Returns f n [] w l o h = elim l [ ]
  into-Returns f zero (q ∷ qs) w l o h =
      Returns-bind (λ r. Unit {0} × IsOrdered r.0) _ (f q w) _ (h q refl o.0)
        (λ (q', w') k. (refl, (k.1, o.1)))
  into-Returns f (suc n) (q ∷ qs) w l o h =
      Returns-bind (λ r. (length r.0 ≡ length qs) × All IsOrdered r.0) _
        (into host classes network_retries f n qs w) _ (into-Returns f n qs w (omega arith) o.1 h)
        (λ (qs', w') k. (ap suc k.0, (o.0, k.1)))

  pub has_failed-there :
      (qs : List Queue) (n e : ℕ)
      → has_failed host classes network_retries (get_elem? qs n) e ≡ true
      → (n < length qs)
        × ((q : Queue) → get_elem? qs n ≡ some q → contains q.task_group.failed_tasks e ≡ true)
  unfolding has_failed
  has_failed-there [] n e h = cc
  has_failed-there (q ∷ qs) zero e h = (
    omega arith,
    λ p eq. subst (λ (x : Queue). contains x.task_group.failed_tasks e ≡ true) (some_queue eq) h,
  )
    where
      some_queue : {x y : Queue} → some x ≡ some y → x ≡ y
      some_queue p = cc
  has_failed-there (q ∷ qs) (suc n) e h =
      let (l, there) = has_failed-there qs n e h in (omega (arith, l), there)
