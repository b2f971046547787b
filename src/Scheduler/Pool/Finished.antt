-- ===== src/Scheduler/Pool/Finished.antt =====
-- How `run_volume_jobs` of crates/dedupe-core/src/scheduler.rs ends, whatever the threads do.
use mathlib.Core.List.{Memᴰ}
use mathlib.Core.List.Memᴰ.{head, tail, append_left}
use safe_duplicate_finder.Base.{
  ℕ, zero, suc, ◌+◌, ◌<◌, ◌≡◌, ◌∙◌, refl, ap, sym, inl, inr, false, Option, some, none, List, [],
  ◌∷◌, ◌++◌, length, get_elem?, arith,
}
use safe_duplicate_finder.Error.{DedupeError, Result, ok, err, cancelled}
use safe_duplicate_finder.Model.{WorkerConfig}
use safe_duplicate_finder.Scheduler.{VolumeJob, Results, finish, all_present}
use safe_duplicate_finder.Scheduler.Slots.{Slots, finish-Results}
use safe_duplicate_finder.Scheduler.Pool.{
  Task, Message, Worker, idle, taken, Pool, enumerate_from, replicate, new_pool, worker_count, Step,
  produce_check, produce, produce_cancelled, produce_refused, take, check_taken, cancel_taken,
  acquire_permit, cancel_waiting, check_permitted, cancel_permitted, work, send, leave, collect,
  cancel, set_paused, Run, here, after, IsDone,
}
use safe_duplicate_finder.Scheduler.Pool.Sound.{IsSound, Good, Run-IsSound}
use safe_duplicate_finder.Scheduler.Pool.Accounted.{
  in_middle, SlotHas, Further, in_worker, in_message, in_slot, Accounted, in_pending, in_queue,
  further,
}
use safe_duplicate_finder.Scheduler.Pool.Received.{received, first_failure, Run-first_failure}
use safe_duplicate_finder.Scheduler.Pool.Further.{other-Further, Step-Further}
use safe_duplicate_finder.Scheduler.Pool.Gone.{
  gone_in, all_gone, not_gone, GoneMeans, Step-nonempty, Step-GoneMeans,
}

enumerate_from-mem :
    {A : Type 0} (k : ℕ) (xs : List A) (i : ℕ) (x : A)
    → get_elem? xs i ≡ some x
    → Memᴰ (k + i, x) (enumerate_from k xs)
unfolding enumerate_from
enumerate_from-mem k [] i x e = absurd (ground (arith, e))
enumerate_from-mem {A = A} k (y ∷ xs) zero x e = head (pair_eq (omega arith) (some_inj (sym e)))
  where
    some_inj : some x ≡ some y → x ≡ y
    some_inj h = cc

    pair_eq : {i j : ℕ} → i ≡ j → x ≡ y → ◌≡◌ {A = ℕ × A} (i, x) (j, y)
    pair_eq h g = cc
enumerate_from-mem k (y ∷ xs) (suc i) x e =
    tail (rw (shift k i) (enumerate_from-mem (suc k) xs i x e))
  where
    shift : (k i : ℕ) → k + suc i ≡ suc k + i
    shift k i = omega arith

zero_add : (i : ℕ) → 0 + i ≡ i
zero_add i = omega arith

-- Slots that hold a result for each job are all present.
all_filled :
    {T R : Type 0} (Q : T → R → Type 0) (jobs : List (VolumeJob T)) (slots : List (Option R))
    → Slots Q jobs slots
    → ((i : ℕ) (job : VolumeJob T)
        → get_elem? jobs i ≡ some job
        → (r : R) × (get_elem? slots i ≡ some (some r)))
    → (rs : List R) × (all_present slots ≡ ok rs)
unfolding all_present
all_filled Q [] [] s f = ([], refl)
all_filled Q [] (slot ∷ slots) s f = absurd s
all_filled Q (job ∷ jobs) [] s f = absurd s
all_filled Q (job ∷ jobs) (none ∷ slots) (_, s) f = absurd (ground (arith, (f 0 job refl).1))
all_filled Q (job ∷ jobs) (some r ∷ slots) (_, s) f =
    let rest = all_filled Q jobs slots s (λ i j e. f (suc i) j e) in
    (r ∷ rest.0, rw (rest.1, all_present) refl)

module _ {T R : Type 0} (config : WorkerConfig) (Gives : T → Result R → Type 0)
    (jobs : List (VolumeJob T)) where
  record IsKept (p : Pool T R) : Type 0 where
    pub nonempty : 0 < length p.workers
    pub accounted : (task : Task T) → Memᴰ task (enumerate_from 0 jobs) → Accounted p task
    pub gone_means : GoneMeans config Gives jobs p

  Step-Accounted :
      {p q : Pool T R} (task : Task T)
      → Step config Gives p q
      → IsSound Gives jobs p
      → IsKept p
      → Accounted p task
      → Accounted q task
  Step-Accounted task step s k (further h) = further (Step-Further config Gives jobs task step s h)
  Step-Accounted {p} task (produce t rest e y l) s k (in_pending m) = from_list (rw e at m)
    where
      from_list :
          Memᴰ task (t ∷ rest)
          → Accounted (record p { pending = rest; ready = false; queue = p.queue ++ (t ∷ []) }) task
      from_list (head same) = in_queue (rw same (in_middle p.queue [] t))
      from_list (tail m) = in_pending m
  Step-Accounted {p} task (produce t rest e y l) s k (in_queue m) = in_queue (append_left _ m)
  Step-Accounted {p} task (produce_cancelled t rest e y c l) s k (in_pending m) =
      further (in_message (t.0, err cancelled) (in_middle p.messages [] _) tt)
  Step-Accounted {p} task (produce_refused t rest e y g) s k (in_pending m) =
      elim (k.gone_means (gone_in p.workers g k.nonempty)) [
        | inl h ↦ absurd (none_in h.0 m)
        | inr h ↦ further (other-Further p _ task refl (λ m k. k) refl (h task))
      ]
    where
      none_in : {ts : List (Task T)} → ts ≡ [] → Memᴰ task ts → ⊥
      none_in e m = elim (rw e at m) [ ]
  Step-Accounted {p} task (take t rest front back e f) s k (in_queue m) = from_list (rw f at m)
    where
      from_list :
          Memᴰ task (t ∷ rest)
          → Accounted (record p { queue = rest; workers = front ++ (taken t ∷ back) }) task
      from_list (head same) =
          further (in_worker (taken t) (in_middle front back (taken t)) (sym same))
      from_list (tail m) = in_queue m
  Step-Accounted task (take t rest front back e f) s k (in_pending m) = in_pending m
  Step-Accounted task (acquire_permit t front back e c u pos) s k (in_pending m) = in_pending m
  Step-Accounted task (cancel_waiting t front back e c) s k (in_pending m) = in_pending m
  Step-Accounted task (cancel_permitted t front back e c) s k (in_pending m) = in_pending m
  Step-Accounted task (produce_check t rest e y c u) s k (in_pending m) = in_pending m
  Step-Accounted task (check_taken t front back e c u) s k (in_pending m) = in_pending m
  Step-Accounted task (cancel_taken t front back e c) s k (in_pending m) = in_pending m
  Step-Accounted task (check_permitted t front back e c u) s k (in_pending m) = in_pending m
  Step-Accounted task (set_paused b) s k (in_pending m) = in_pending m
  Step-Accounted task (work t r front back e g) s k (in_pending m) = in_pending m
  Step-Accounted task (send n front back e l) s k (in_pending m) = in_pending m
  Step-Accounted task (leave front back e x y) s k (in_pending m) = in_pending m
  Step-Accounted task (collect n rest e) s k (in_pending m) = in_pending m
  Step-Accounted task cancel s k (in_pending m) = in_pending m
  Step-Accounted task (produce_cancelled t rest e y c l) s k (in_queue m) = in_queue m
  Step-Accounted task (produce_refused t rest e y g) s k (in_queue m) = in_queue m
  Step-Accounted task (acquire_permit t front back e c u pos) s k (in_queue m) = in_queue m
  Step-Accounted task (cancel_waiting t front back e c) s k (in_queue m) = in_queue m
  Step-Accounted task (cancel_permitted t front back e c) s k (in_queue m) = in_queue m
  Step-Accounted task (produce_check t rest e y c u) s k (in_queue m) = in_queue m
  Step-Accounted task (check_taken t front back e c u) s k (in_queue m) = in_queue m
  Step-Accounted task (cancel_taken t front back e c) s k (in_queue m) = in_queue m
  Step-Accounted task (check_permitted t front back e c u) s k (in_queue m) = in_queue m
  Step-Accounted task (set_paused b) s k (in_queue m) = in_queue m
  Step-Accounted task (work t r front back e g) s k (in_queue m) = in_queue m
  Step-Accounted task (send n front back e l) s k (in_queue m) = in_queue m
  Step-Accounted task (leave front back e x y) s k (in_queue m) = in_queue m
  Step-Accounted task (collect n rest e) s k (in_queue m) = in_queue m
  Step-Accounted task cancel s k (in_queue m) = in_queue m

  Step-IsKept :
      {p q : Pool T R} → Step config Gives p q → IsSound Gives jobs p → IsKept p → IsKept q
  Step-IsKept step s k = record {
    nonempty = Step-nonempty config Gives jobs step k.nonempty;
    accounted = λ task m. Step-Accounted task step s k (k.accounted task m);
    gone_means = Step-GoneMeans config Gives jobs step s k.gone_means;
  }

  length-replicate : (n : ℕ) → length (replicate {A = Worker T R} n idle) ≡ n
  unfolding replicate
  length-replicate zero = refl
  length-replicate (suc n) = ap suc (length-replicate n)

  new_pool-IsKept : 0 < length jobs → IsKept (new_pool config jobs)
  unfolding new_pool
  new_pool-IsKept n = record {
    nonempty = ground (arith, n, length-replicate (worker_count config jobs));
    accounted = λ task m. in_pending m;
    gone_means = λ m. absurd (not_gone T R (worker_count config jobs) m);
  }

  Run-IsKept :
      {p : Pool T R} → 0 < length jobs → Run config Gives (new_pool config jobs) p → IsKept p
  Run-IsKept n here = new_pool-IsKept n
  Run-IsKept n (after run step) =
      Step-IsKept step (Run-IsSound Gives jobs config run) (Run-IsKept n run)

  -- When the loop over the results ends, each task has its slot, or something has failed.
  done-SlotHas :
      (p : Pool T R) (task : Task T)
      → IsKept p
      → IsDone p
      → Memᴰ task (enumerate_from 0 jobs)
      → SlotHas p.collected task.0
  done-SlotHas p task k d m = from_accounted (k.accounted task m)
    where
      none_in : {A : Type 0} {x : A} {xs : List A} → xs ≡ [] → Memᴰ x xs → ⊥
      none_in e m = elim (rw e at m) [ ]

      from_further : Further p task → SlotHas p.collected task.0
      from_further (in_worker w m h) = absurd (all_gone p.workers w task d.all_gone m h)
      from_further (in_message n m h) = absurd (none_in d.received m)
      from_further (in_slot h) = h

      from_accounted : Accounted p task → SlotHas p.collected task.0
      from_accounted (in_pending m) = absurd (none_in d.producer m)
      from_accounted (in_queue m) = elim (k.gone_means (gone_in p.workers d.all_gone k.nonempty)) [
        | inl h ↦ absurd (none_in h.1 m)
        | inr h ↦ from_further (h task)
      ]
      from_accounted (further h) = from_further h

  -- What the caller gets: the results of all jobs in the order of the jobs, or the first failure.
  abbrev pub Ended : List (Message R) → Result (List R) → Type 0
  Ended ms (ok rs) = (first_failure ms ≡ none) × Results (λ t r. Gives t (ok r)) jobs rs
  Ended ms (err e) = first_failure ms ≡ some e

  -- However the threads take turns, when all of them have ended and the results are received, the
  -- pool returns the first failure among the messages of the run, in the order in which the loop
  -- received them, and without a failure one result for each job, in the order of the jobs, which
  -- the work gave for that very job. It never reports a task as lost.
  pub finish-Ended :
      {p : Pool T R}
      → 0 < length jobs
      → (run : Run config Gives (new_pool config jobs) p) → IsDone p
      → Ended (received config Gives run) (finish p.collected)
  unfolding finish
  finish-Ended {p} n run d = by_error p.collected.first_error refl
    where
      sound : IsSound Gives jobs p
      sound = Run-IsSound Gives jobs config run

      filled :
          (i : ℕ) (job : VolumeJob T)
          → p.collected.first_error ≡ none
          → get_elem? jobs i ≡ some job
          → (r : R) × (get_elem? p.collected.ordered i ≡ some (some r))
      filled i job f e =
          elim (done-SlotHas p (i, job) (Run-IsKept n run) d
            (rw (zero_add i) at (enumerate_from-mem 0 jobs i job e))) [
              | inl h ↦ absurd (ground (arith, f, h.1))
              | inr h ↦ h
            ]

      by_error :
          (o : Option DedupeError)
          → p.collected.first_error ≡ o
          → Ended (received config Gives run) (finish p.collected)
      by_error (some e) f = simp (f, finish) (sym (Run-first_failure config Gives jobs run) ∙ f)
      by_error none f =
          let all =
            all_filled (Good Gives jobs) jobs p.collected.ordered sound.slots
              (λ i job e. filled i job f e) in
          simp (f, finish, all.1)
            (
              sym (Run-first_failure config Gives jobs run) ∙ f,
              (simp (f, finish, all.1) at
                  (finish-Results (Good Gives jobs) jobs p.collected sound.slots)),
            )
