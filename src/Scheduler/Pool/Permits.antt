-- ===== src/Scheduler/Pool/Permits.antt =====
-- The permits of crates/dedupe-core/src/scheduler.rs.
use safe_duplicate_finder.Base.{
  ℕ, zero, suc, ◌+◌, ◌<◌, ◌≡◌, refl, ◌∙◌, ap, inl, inr, Bool, false, List, ◌∷◌, ◌++◌, count,
  count-append, Text, text_eq, text_eq→eq, arith, Bool-cases,
}
use safe_duplicate_finder.Error.{Result, ok, err}
use safe_duplicate_finder.Model.{WorkerConfig}
use safe_duplicate_finder.Scheduler.{VolumeJob}
use safe_duplicate_finder.Scheduler.Pool.{
  Task, Worker, idle, taken, waiting, permitted, working, sending, gone, Pool, replicate,
  per_volume, worker_count, new_pool, acquire, release, after_sending, Step, produce_check, produce,
  produce_cancelled, produce_refused, take, check_taken, cancel_taken, acquire_permit,
  cancel_waiting, check_permitted, cancel_permitted, work, send, leave, collect, cancel, set_paused,
  Run, here, after,
}

abbrev pub holds : {T R : Type 0} → Text → Worker T R → Bool
holds volume (permitted task) = text_eq volume (task.1.volume_id)
holds volume (working task) = text_eq volume (task.1.volume_id)
holds volume _ = false

-- How many workers have a permit of the volume.
abbrev pub holders : {T R : Type 0} → Text → List (Worker T R) → ℕ
holders volume workers = count (holds volume) workers

abbrev pub InBalance : {T R : Type 0} → WorkerConfig → Pool T R → Type 0
InBalance config p =
    (volume : Text) → p.available volume + holders volume p.workers ≡ per_volume config

holders_of_new :
    (T R : Type 0) (volume : Text) (n : ℕ) → holders {T = T} {R = R} volume (replicate n idle) ≡ 0
unfolding replicate
holders_of_new T R volume zero = refl
holders_of_new T R volume (suc n) = omega (arith, holders_of_new T R volume n)

after_sending-holds :
    (T : Type 0) {R : Type 0} (volume : Text) (m : ℕ × Result R)
    → holds volume (after_sending {T = T} m) ≡ false
after_sending-holds T volume (i, ok r) = refl
after_sending-holds T volume (i, err e) = refl

module _ {T R : Type 0} (volume : Text) where
  holders_split :
      (workers front back : List (Worker T R)) (w : Worker T R)
      → workers ≡ front ++ (w ∷ back)
      → holders volume workers ≡ holders volume front + holders volume (w ∷ back)
  holders_split workers front back w e = rw e (count-append (holds volume) front (w ∷ back))

  -- A worker that has as many permits of the volume behind the step as before it.
  holders_moved :
      (workers front back : List (Worker T R)) (w w' : Worker T R)
      → workers ≡ front ++ (w ∷ back)
      → holds volume w' ≡ holds volume w
      → holders volume (front ++ (w' ∷ back)) ≡ holders volume workers
  holders_moved workers front back w w' e h = ground (
    arith,
    holders_split workers front back w e,
    count-append (holds volume) front (w' ∷ back),
    h,
  )

  -- A worker that has no permit before and behind the step.
  holders_same :
      (workers front back : List (Worker T R)) (w w' : Worker T R)
      → workers ≡ front ++ (w ∷ back)
      → holds volume w ≡ false
      → holds volume w' ≡ false
      → holders volume (front ++ (w' ∷ back)) ≡ holders volume workers
  holders_same workers front back w w' e h h' = ground (
    arith,
    holders_split workers front back w e,
    count-append (holds volume) front (w' ∷ back),
    h,
    h',
  )

  balance_acquired :
      (workers front back : List (Worker T R)) (task : Task T) (available : Text → ℕ) (n : ℕ)
      → workers ≡ front ++ (waiting task ∷ back)
      → 0 < available (task.1.volume_id)
      → available volume + holders volume workers ≡ n
      → acquire (task.1.volume_id) available volume
          + holders volume (front ++ (permitted task ∷ back))
        ≡ n
  balance_acquired workers front back task available n e pos h =
      elim (Bool-cases (text_eq volume (task.1.volume_id))) [
        | inl t ↦
            let same = text_eq→eq volume (task.1.volume_id) t in
            ground (
              arith,
              rw (← same) at pos,
              holders_split workers front back (waiting task) e,
              count-append (holds volume) front (permitted task ∷ back),
              h,
              t,
            )
        | inr t ↦ ground (
          arith,
          holders_split workers front back (waiting task) e,
          count-append (holds volume) front (permitted task ∷ back),
          h,
          t,
        )
      ]

  balance_released :
      (workers front back : List (Worker T R)) (task : Task T) (held w : Worker T R)
      (available : Text → ℕ) (n : ℕ)
      → workers ≡ front ++ (held ∷ back)
      → holds volume held ≡ text_eq volume (task.1.volume_id)
      → holds volume w ≡ false
      → available volume + holders volume workers ≡ n
      → release n (task.1.volume_id) available volume + holders volume (front ++ (w ∷ back)) ≡ n
  balance_released workers front back task held w available n e k o h =
      elim (Bool-cases (text_eq volume (task.1.volume_id))) [
        | inl t ↦ ground (
          arith,
          holders_split workers front back held e,
          count-append (holds volume) front (w ∷ back),
          k,
          o,
          h,
          t,
        )
        | inr t ↦ ground (
          arith,
          holders_split workers front back held e,
          count-append (holds volume) front (w ∷ back),
          k,
          o,
          h,
          t,
        )
      ]

module _ {T R : Type 0} (config : WorkerConfig) (Gives : T → Result R → Type 0) where
  Step-InBalance :
      {p q : Pool T R} → Step config Gives p q → InBalance config p → InBalance config q
  Step-InBalance {p} (produce_check task rest e y c u) h v = h v
  Step-InBalance {p} (produce task rest e y l) h v = h v
  Step-InBalance {p} (produce_cancelled task rest e y c l) h v = h v
  Step-InBalance {p} (produce_refused t rest e y g) h v = h v
  Step-InBalance {p} (take task rest front back e f) h v =
      ap (λ n. p.available v + n)
        (holders_same v p.workers front back idle (taken task) e refl refl)
      ∙ h v
  Step-InBalance {p} (check_taken task front back e c u) h v =
      ap (λ n. p.available v + n)
        (holders_same v p.workers front back (taken task) (waiting task) e refl refl)
      ∙ h v
  Step-InBalance {p} (cancel_taken task front back e c) h v =
      ap (λ n. p.available v + n)
        (holders_same v p.workers front back (taken task) (sending _) e refl refl)
      ∙ h v
  Step-InBalance {p} (acquire_permit task front back e c u pos) h v =
      balance_acquired v p.workers front back task p.available (per_volume config) e pos (h v)
  Step-InBalance {p} (cancel_waiting task front back e c) h v =
      ap (λ n. p.available v + n)
        (holders_same v p.workers front back (waiting task) (sending _) e refl refl)
      ∙ h v
  Step-InBalance {p} (check_permitted task front back e c u) h v =
      ap (λ n. p.available v + n)
        (holders_moved v p.workers front back (permitted task) (working task) e refl)
      ∙ h v
  Step-InBalance {p} (cancel_permitted task front back e c) h v =
      balance_released v p.workers front back task (permitted task) (sending _) p.available
        (per_volume config) e refl refl (h v)
  Step-InBalance {p} (work task r front back e g) h v =
      balance_released v p.workers front back task (working task) (sending _) p.available
        (per_volume config) e refl refl (h v)
  Step-InBalance {p} (send m front back e l) h v =
      ap (λ n. p.available v + n)
        (holders_same v p.workers front back (sending m) (after_sending m) e refl
          (after_sending-holds T v m))
      ∙ h v
  Step-InBalance {p} (leave front back e x y) h v =
      ap (λ n. p.available v + n) (holders_same v p.workers front back idle gone e refl refl) ∙ h v
  Step-InBalance {p} (collect m rest e) h v = h v
  Step-InBalance {p} cancel h v = h v
  Step-InBalance {p} (set_paused b) h v = h v

  -- In every reachable state, the free permits of a volume and the workers that hold one add up to
  -- the limit of a volume: no more workers than that read from it, and no permit is lost or made.
  pub permits_kept :
      (jobs : List (VolumeJob T)) {p : Pool T R}
      → Run config Gives (new_pool config jobs) p
      → (volume : Text) → p.available volume + holders volume p.workers ≡ per_volume config
  unfolding new_pool
  permits_kept jobs here v = ground (arith, holders_of_new T R v (worker_count config jobs))
  permits_kept jobs (after run step) v = Step-InBalance step (permits_kept jobs run) v
