-- ===== src/Scheduler/Queues/Usable.antt =====
-- Classes of queues that raise nothing when an element enters them.
use buildstream.Common.{
  ℕ, ◌≡◌, refl, not, ◌&&◌, Option, none, some, List, [], ◌∷◌, ◌≢◌, Bool-cases, inl, inr, Returns,
  Returns-bind, Ensures, Returns-Ensures, contains, true,
}
use buildstream.Scheduler.Resources.Accounting.{IsDistinct}
use buildstream.Scheduler.Queues.{
  Host, QueueClass, QueueStatus, pending, skip, ready, Queue, register, place, enqueue_element,
  enqueue_one, enqueue, retry_job,
}

-- A class that the scheduler can run: it names each resource once, and it registers what it
-- reports as pending.
pub record IsUsable {W R : Type 0} (c : QueueClass W R) : Type 0 where
  pub distinct : IsDistinct c.resources
  pub registers :
      (e : ℕ) (w : W)
      → Ensures (λ r. r.0 ≡ pending → c.register_pending_element e ≢ none) (c.status e w)

-- Such a class whose `status` raises nothing.
pub record IsCalm {W R : Type 0} (c : QueueClass W R) : Type 0 where
  pub usable : IsUsable c
  pub answers : (e : ℕ) (w : W) → Returns (λ _. Unit {0}) (c.status e w)

module _ {W R : Type 0} (host : Host W) (class : QueueClass W R) (calm : IsCalm class) where
  register-Returns :
      (r : Option (W → W)) (q : Queue) (w : W)
      → r ≢ none
      → Returns (λ _. Unit {0}) (register host class r q w)
  unfolding register
  register-Returns none q w h = absurd (h refl)
  register-Returns (some f) q w h = tt

  place-Returns :
      (status : QueueStatus) (e : ℕ) (q : Queue) (w : W)
      → (status ≡ pending → class.register_pending_element e ≢ none)
      → Returns (λ _. Unit {0}) (place host class status e q w)
  unfolding place
  place-Returns pending e q w h = register-Returns _ q w (h refl)
  place-Returns skip e q w h = tt
  place-Returns ready e q w h = tt

  pub enqueue_element-Returns :
      (e : ℕ) (q : Queue) (w : W) → Returns (λ _. Unit {0}) (enqueue_element host class e q w)
  unfolding enqueue_element
  enqueue_element-Returns e q w =
      Returns-bind (λ r. Unit {0} × (r.0 ≡ pending → class.register_pending_element e ≢ none))
        (λ _. Unit {0}) (class.status e w) _
        (Returns-Ensures (λ _. Unit {0}) _ (class.status e w) (calm.answers e w)
          (calm.usable.registers e w))
        (λ (status, w') h. place-Returns status e _ w' h.1)

  enqueue_one-Returns :
      (e : ℕ) (q : Queue) (w : W) → Returns (λ _. Unit {0}) (enqueue_one host class e q w)
  unfolding enqueue_one
  enqueue_one-Returns e q w =
      elim (Bool-cases (q.required_element_check && not (host.is_required e w))) [
        | inl b ↦ rw b tt
        | inr b ↦ rw b (enqueue_element-Returns e q w)
      ]

  pub enqueue-Returns :
      (es : List ℕ) (q : Queue) (w : W) → Returns (λ _. Unit {0}) (enqueue host class es q w)
  unfolding enqueue
  enqueue-Returns [] q w = tt
  enqueue-Returns (e ∷ es) q w =
      Returns-bind (λ _. Unit {0}) (λ _. Unit {0}) (enqueue_one host class e q w) _
        (enqueue_one-Returns e q w) (λ (q', w') _. enqueue-Returns es q' w')

  -- An element is retried whose job failed.
  pub retry_job-Returns :
      (e : ℕ) (q : Queue) (w : W)
      → contains q.task_group.failed_tasks e ≡ true
      → Returns (λ _. Unit {0}) (retry_job host class e q w)
  unfolding retry_job
  retry_job-Returns e q w h = rw h (enqueue-Returns (e ∷ []) _ w)
