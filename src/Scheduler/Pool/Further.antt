-- ===== src/Scheduler/Pool/Further.antt =====
-- What a worker of crates/dedupe-core/src/scheduler.rs has taken goes on, step by step.
use mathlib.Core.List.{Memᴰ}
use mathlib.Core.List.Memᴰ.{head, tail, append_left}
use safe_duplicate_finder.Base.{ℕ, ◌≡◌, refl, ap, inl, inr, List, [], ◌∷◌, ◌++◌}
use safe_duplicate_finder.Error.{Result, ok, err, cancelled}
use safe_duplicate_finder.Model.{WorkerConfig}
use safe_duplicate_finder.Scheduler.{VolumeJob}
use safe_duplicate_finder.Scheduler.Pool.{
  Task, Message, Worker, idle, taken, waiting, permitted, working, sending, gone, Pool,
  after_sending, Step, produce_check, produce, produce_cancelled, produce_refused, take,
  check_taken, cancel_taken, acquire_permit, cancel_waiting, check_permitted, cancel_permitted,
  work, send, leave, collect, cancel, set_paused,
}
use safe_duplicate_finder.Scheduler.Pool.Sound.{IsSound, Good}
use safe_duplicate_finder.Scheduler.Pool.Accounted.{
  in_middle, replaced, MessageHas, WorkerHas, SlotHas, Further, in_worker, in_message, in_slot,
  receive-SlotHas, received-SlotHas,
}

module _ {T R : Type 0} where
  -- A worker moves on, with what it has.
  moved-Further :
      (p q : Pool T R) (front back : List (Worker T R)) (w w' : Worker T R) (task : Task T)
      → p.workers ≡ front ++ (w ∷ back)
      → q.workers ≡ front ++ (w' ∷ back)
      → ((m : Message R) → Memᴰ m p.messages → Memᴰ m q.messages)
      → q.collected ≡ p.collected
      → (WorkerHas w task → Further q task)
      → Further p task
      → Further q task
  moved-Further p q front back w w' task e f ms c k (in_worker x m h) =
      elim (replaced front back w w' x (rw e at m)) [
        | inl same ↦ k (rw same at h)
        | inr m' ↦ in_worker x (rw f m') h
      ]
  moved-Further p q front back w w' task e f ms c k (in_message m n h) = in_message m (ms m n) h
  moved-Further p q front back w w' task e f ms c k (in_slot h) = in_slot (rw c h)

  -- Nothing that is further on is lost by a change elsewhere.
  pub other-Further :
      (p q : Pool T R) (task : Task T)
      → q.workers ≡ p.workers
      → ((m : Message R) → Memᴰ m p.messages → Memᴰ m q.messages)
      → q.collected ≡ p.collected
      → Further p task
      → Further q task
  other-Further p q task e ms c (in_worker w m h) = in_worker w (rw e m) h
  other-Further p q task e ms c (in_message m n h) = in_message m (ms m n) h
  other-Further p q task e ms c (in_slot h) = in_slot (rw c h)

  sent_has : (t task : Task T) (r : Result R) → t ≡ task → MessageHas (t.0, r) task
  sent_has t task (ok r) e = ap (λ x. x.0) e
  sent_has t task (err x) e = tt

module _ {T R : Type 0} (config : WorkerConfig) (Gives : T → Result R → Type 0)
    (jobs : List (VolumeJob T)) where
  collected-Further :
      (p : Pool T R) (m : Message R) (rest : List (Message R)) (task : Task T) (q : Pool T R)
      → IsSound Gives jobs p
      → p.messages ≡ m ∷ rest
      → q.workers ≡ p.workers
      → q.messages ≡ rest
      → ((i : ℕ) → SlotHas p.collected i → SlotHas q.collected i)
      → (MessageHas m task → SlotHas q.collected task.0)
      → Further p task
      → Further q task
  collected-Further p m rest task q s e f g keep got (in_worker w n h) = in_worker w (rw f n) h
  collected-Further p m rest task q s e f g keep got (in_slot h) = in_slot (keep task.0 h)
  collected-Further p m rest task q s e f g keep got (in_message n k h) = from_list n (rw e at k) h
    where
      from_list : (n : Message R) → Memᴰ n (m ∷ rest) → MessageHas n task → Further q task
      from_list n (head same) h = in_slot (got (rw same at h))
      from_list n (tail k) h = in_message n (rw g k) h

  pub Step-Further :
      {p q : Pool T R} (task : Task T)
      → Step config Gives p q
      → IsSound Gives jobs p
      → Further p task
      → Further q task
  Step-Further {p} task (produce_check t rest e y c u) s =
      other-Further p _ task refl (λ m k. k) refl
  Step-Further {p} task (produce t rest e y l) s = other-Further p _ task refl (λ m k. k) refl
  Step-Further {p} task (produce_cancelled t rest e y c l) s =
      other-Further p _ task refl (λ m k. append_left _ k) refl
  Step-Further {p} task (produce_refused t rest e y g) s =
      other-Further p _ task refl (λ m k. k) refl
  Step-Further {p} task (take t rest front back e f) s =
      moved-Further p _ front back idle (taken t) task e refl (λ m k. k) refl (λ h. absurd h)
  Step-Further {p} task (check_taken t front back e c u) s =
      moved-Further p _ front back (taken t) (waiting t) task e refl (λ m k. k) refl
        (λ h. in_worker (waiting t) (in_middle front back (waiting t)) h)
  Step-Further {p} task (cancel_taken t front back e c) s =
      moved-Further p _ front back (taken t) (sending (t.0, err cancelled)) task e refl (λ m k. k)
        refl (λ h. in_worker (sending (t.0, err cancelled)) (in_middle front back _) tt)
  Step-Further {p} task (acquire_permit t front back e c u pos) s =
      moved-Further p _ front back (waiting t) (permitted t) task e refl (λ m k. k) refl
        (λ h. in_worker (permitted t) (in_middle front back (permitted t)) h)
  Step-Further {p} task (cancel_waiting t front back e c) s =
      moved-Further p _ front back (waiting t) (sending (t.0, err cancelled)) task e refl (λ m k. k)
        refl (λ h. in_worker (sending (t.0, err cancelled)) (in_middle front back _) tt)
  Step-Further {p} task (check_permitted t front back e c u) s =
      moved-Further p _ front back (permitted t) (working t) task e refl (λ m k. k) refl
        (λ h. in_worker (working t) (in_middle front back (working t)) h)
  Step-Further {p} task (cancel_permitted t front back e c) s =
      moved-Further p _ front back (permitted t) (sending (t.0, err cancelled)) task e refl
        (λ m k. k) refl (λ h. in_worker (sending (t.0, err cancelled)) (in_middle front back _) tt)
  Step-Further {p} task (work t r front back e g) s =
      moved-Further p _ front back (working t) (sending (t.0, r)) task e refl (λ m k. k) refl
        (λ h. in_worker (sending (t.0, r)) (in_middle front back _) (sent_has t task r h))
  Step-Further {p} task (send m front back e l) s =
      moved-Further p _ front back (sending m) (after_sending m) task e refl
        (λ n k. append_left _ k) refl (λ h. in_message m (in_middle p.messages [] m) h)
  Step-Further {p} task (leave front back e x y) s =
      moved-Further p _ front back idle gone task e refl (λ m k. k) refl (λ h. absurd h)
  Step-Further {p} task (collect m rest e) s =
      collected-Further p m rest task _ s e refl refl (λ i h. receive-SlotHas m p.collected i h)
        (λ h.
          received-SlotHas (Good Gives jobs) jobs m p.collected task (rw e at s.messages).0 s.slots
            h)
  Step-Further {p} task cancel s = other-Further p _ task refl (λ m k. k) refl
  Step-Further {p} task (set_paused b) s = other-Further p _ task refl (λ m k. k) refl
