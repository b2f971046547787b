-- ===== src/Scheduler/Pool/Progress.antt =====
-- The pool of crates/dedupe-core/src/scheduler.rs never waits for itself. Where the token is not
-- paused, no thread waits in a checkpoint for a notification: `resume` notifies under the lock.
use safe_duplicate_finder.Base.{
  ℕ, zero, suc, ◌+◌, ◌<◌, ◌≡◌, refl, ap, ◌⊎◌, inl, inr, Bool-cases, false, List, [], ◌∷◌, ◌++◌,
  length, Text, arith,
}
use safe_duplicate_finder.Error.{Result}
use safe_duplicate_finder.Model.{WorkerConfig}
use safe_duplicate_finder.Scheduler.{VolumeJob}
use safe_duplicate_finder.Scheduler.Pool.{
  Task, Message, Worker, idle, taken, waiting, permitted, working, sending, gone, Pool, new_pool,
  per_volume, AllGone, Step, produce_check, produce, produce_cancelled, produce_refused, take,
  check_taken, cancel_taken, acquire_permit, cancel_waiting, check_permitted, cancel_permitted,
  work, send, leave, collect, Run, IsDone,
}
use safe_duplicate_finder.Scheduler.Pool.Permits.{holders, permits_kept}
use safe_duplicate_finder.Scheduler.Pool.Turns.{is_call}

-- The place of a worker in the pool.
record Place {T R : Type 0} (workers : List (Worker T R)) (w : Worker T R) : Type 0 where
  front : List (Worker T R)
  back : List (Worker T R)
  there : workers ≡ front ++ (w ∷ back)

module _ {T R : Type 0} where
  at_first : (w : Worker T R) (workers : List (Worker T R)) → Place (w ∷ workers) w
  at_first w workers = record { front = []; back = workers; there = refl }

  further_on :
      (x w : Worker T R) (workers : List (Worker T R)) → Place workers w → Place (x ∷ workers) w
  further_on x w workers p = record {
    front = x ∷ p.front;
    back = p.back;
    there = ap (◌∷◌ x) p.there;
  }

  -- A worker that is left, of a kind.
  data Active (workers : List (Worker T R)) : Type 0 where
    none_left : AllGone workers → Active workers
    is_idle : Place workers idle → Active workers
    is_taken : (task : Task T) → Place workers (taken task) → Active workers
    is_waiting : (task : Task T) → Place workers (waiting task) → Active workers
    is_permitted : (task : Task T) → Place workers (permitted task) → Active workers
    is_working : (task : Task T) → Place workers (working task) → Active workers
    is_sending : (m : Message R) → Place workers (sending m) → Active workers

  who_is_left : (workers : List (Worker T R)) → Active workers
  who_is_left [] = none_left tt
  who_is_left (idle ∷ workers) = is_idle (at_first idle workers)
  who_is_left (taken task ∷ workers) = is_taken task (at_first (taken task) workers)
  who_is_left (permitted task ∷ workers) = is_permitted task (at_first (permitted task) workers)
  who_is_left (waiting task ∷ workers) = is_waiting task (at_first (waiting task) workers)
  who_is_left (working task ∷ workers) = is_working task (at_first (working task) workers)
  who_is_left (sending m ∷ workers) = is_sending m (at_first (sending m) workers)
  who_is_left (gone ∷ workers) = elim (who_is_left workers) [
    | none_left g ↦ none_left g
    | is_idle p ↦ is_idle (further_on gone _ workers p)
    | is_taken task p ↦ is_taken task (further_on gone _ workers p)
    | is_permitted task p ↦ is_permitted task (further_on gone _ workers p)
    | is_waiting task p ↦ is_waiting task (further_on gone _ workers p)
    | is_working task p ↦ is_working task (further_on gone _ workers p)
    | is_sending m p ↦ is_sending m (further_on gone _ workers p)
  ]

  -- A worker that has a permit.
  abbrev AtWork : List (Worker T R) → Type 0
  AtWork workers = (task : Task T) × (Place workers (permitted task) ⊎ Place workers (working task))

  passed : (w : Worker T R) (workers : List (Worker T R)) → AtWork workers → AtWork (w ∷ workers)
  passed w workers (task, inl p) = (task, inl (further_on w (permitted task) workers p))
  passed w workers (task, inr p) = (task, inr (further_on w (working task) workers p))

  find_holder :
      (volume : Text) (workers : List (Worker T R)) → 0 < holders volume workers → AtWork workers
  find_holder volume [] n = absurd (omega (arith, n))
  find_holder volume (permitted task ∷ workers) n = (task, inl (at_first (permitted task) workers))
  find_holder volume (working task ∷ workers) n = (task, inr (at_first (working task) workers))
  find_holder volume (taken task ∷ workers) n =
      passed (taken task) workers (find_holder volume workers (omega (arith, n)))
  find_holder volume (idle ∷ workers) n =
      passed idle workers (find_holder volume workers (omega (arith, n)))
  find_holder volume (waiting task ∷ workers) n =
      passed (waiting task) workers (find_holder volume workers (omega (arith, n)))
  find_holder volume (sending m ∷ workers) n =
      passed (sending m) workers (find_holder volume workers (omega (arith, n)))
  find_holder volume (gone ∷ workers) n =
      passed gone workers (find_holder volume workers (omega (arith, n)))

module _ {T R : Type 0} (config : WorkerConfig) (Gives : T → Result R → Type 0)
    (answers : (t : T) → (r : Result R) × Gives t r) where
  -- A step of the pool's own, which is no call of `cancel`, `pause` or `resume`.
  abbrev pub CanMove : Pool T R → Type 0
  CanMove p = (q : Pool T R) × (s : Step config Gives p q) × (is_call config Gives s ≡ false)

  taken_moves :
      (p : Pool T R) (task : Task T) → p.paused ≡ false → Place p.workers (taken task) → CanMove p
  taken_moves p task u w = elim (Bool-cases p.cancelled) [
    | inl c ↦ (_, cancel_taken task w.front w.back w.there c, refl)
    | inr c ↦ (_, check_taken task w.front w.back w.there c u, refl)
  ]

  holder_moves : (p : Pool T R) → p.paused ≡ false → AtWork p.workers → CanMove p
  holder_moves p u (task, inl w) = elim (Bool-cases p.cancelled) [
    | inl c ↦ (_, cancel_permitted task w.front w.back w.there c, refl)
    | inr c ↦ (_, check_permitted task w.front w.back w.there c u, refl)
  ]
  holder_moves p u (task, inr w) =
      let answer = answers (task.1.value) in
      (_, work task answer.0 w.front w.back w.there answer.1, refl)

  waiting_moves :
      (p : Pool T R) (task : Task T)
      → p.paused ≡ false
      → Place p.workers (waiting task)
      → p.available (task.1.volume_id) + holders (task.1.volume_id) p.workers ≡ per_volume config
      → CanMove p
  waiting_moves p task u w balance = elim (Bool-cases p.cancelled) [
    | inl c ↦ (_, cancel_waiting task w.front w.back w.there c, refl)
    | inr c ↦ by_free c (p.available (task.1.volume_id)) refl
  ]
    where
      by_free : p.cancelled ≡ false → (n : ℕ) → p.available (task.1.volume_id) ≡ n → CanMove p
      by_free c zero e =
          holder_moves p u (find_holder (task.1.volume_id) p.workers (ground (arith, e, balance)))
      by_free c (suc n) e =
          (_, acquire_permit task w.front w.back w.there c u (omega (arith, e)), refl)

  -- The producer at its checkpoint.
  check_moves :
      (p : Pool T R) (t : Task T) (rest : List (Task T))
      → p.pending ≡ t ∷ rest
      → p.ready ≡ false
      → p.paused ≡ false
      → p.messages ≡ []
      → CanMove p
  check_moves p t rest e y u m = elim (Bool-cases p.cancelled) [
    | inl c ↦ (_, produce_cancelled t rest e y c (ground (arith, ap length m)), refl)
    | inr c ↦ (_, produce_check t rest e y c u, refl)
  ]

  idle_moves :
      (p : Pool T R) → p.paused ≡ false → p.messages ≡ [] → Place p.workers idle → CanMove p
  idle_moves p u m w = by_queue p.queue refl
    where
      by_pending : (ts : List (Task T)) → p.pending ≡ ts → p.queue ≡ [] → CanMove p
      by_pending [] e f = (_, leave w.front w.back w.there e f, refl)
      by_pending (t ∷ rest) e f = elim (Bool-cases p.ready) [
        | inl y ↦ (_, produce t rest e y (ground (arith, ap length f)), refl)
        | inr y ↦ check_moves p t rest e y u m
      ]

      by_queue : (ts : List (Task T)) → p.queue ≡ ts → CanMove p
      by_queue [] f = by_pending p.pending refl f
      by_queue (t ∷ rest) f = (_, take t rest w.front w.back w.there f, refl)

  ended_or_refused :
      (p : Pool T R) → p.paused ≡ false → AllGone p.workers → p.messages ≡ [] → IsDone p ⊎ CanMove p
  ended_or_refused p u g m = by_pending p.pending refl
    where
      by_pending : (ts : List (Task T)) → p.pending ≡ ts → IsDone p ⊎ CanMove p
      by_pending [] e = inl (record { producer = e; all_gone = g; received = m })
      by_pending (t ∷ rest) e = elim (Bool-cases p.ready) [
        | inl y ↦ inr (_, produce_refused t rest e y g, refl)
        | inr y ↦ inr (check_moves p t rest e y u m)
      ]

  -- If the work on each job gives an answer, then no reachable state in which the token is not paused
  -- is a deadlock, cancelled or not: the pool has ended, or one of its threads or the loop over the
  -- results can make a step, and nobody need call `cancel`, `pause` or `resume` for it.
  pub no_deadlock :
      (jobs : List (VolumeJob T)) {p : Pool T R}
      → Run config Gives (new_pool config jobs) p
      → p.paused ≡ false
      → IsDone p ⊎ CanMove p
  no_deadlock jobs {p} run u = by_messages p.messages refl
    where
      by_worker : Active p.workers → p.messages ≡ [] → IsDone p ⊎ CanMove p
      by_worker (none_left g) m = ended_or_refused p u g m
      by_worker (is_idle w) m = inr (idle_moves p u m w)
      by_worker (is_taken task w) m = inr (taken_moves p task u w)
      by_worker (is_waiting task w) m =
          inr (waiting_moves p task u w (permits_kept config Gives jobs run (task.1.volume_id)))
      by_worker (is_permitted task w) m = inr (holder_moves p u (task, inl w))
      by_worker (is_working task w) m = inr (holder_moves p u (task, inr w))
      by_worker (is_sending n w) m =
          inr (_, send n w.front w.back w.there (ground (arith, ap length m)), refl)

      by_messages : (ms : List (Message R)) → p.messages ≡ ms → IsDone p ⊎ CanMove p
      by_messages [] m = by_worker (who_is_left p.workers) m
      by_messages (n ∷ rest) m = inr (_, collect n rest m, refl)
