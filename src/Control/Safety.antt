-- ===== src/Control/Safety.antt =====
-- What a checkpoint of crates/dedupe-core/src/control.rs has seen when it returns.
use safe_duplicate_finder.Base.{
  ℕ, suc, ◌<◌, ◌≡◌, refl, ◌⊎◌, inl, inr, Bool, true, false, some, arith,
}
use safe_duplicate_finder.Control.{
  Pc, entering, locking, testing_pause, testing_cancel, about_to_wait, parked, woken, leaving,
  finished, Token, holds_lock, next, wake, Step, pause, resume, cancel, notify_all, work, new_token,
  Run, here, after, Reach,
}

-- What is known where the worker stands. While it has the lock, nobody else changes `paused`.
abbrev pub Known : Bool → Bool → ℕ → Pc → Type 0
Known cancelled paused notifying testing_cancel = paused ≡ true
Known cancelled paused notifying about_to_wait = paused ≡ true
Known cancelled paused notifying parked = (paused ≡ true) ⊎ (0 < notifying)
Known cancelled paused notifying leaving = (paused ≡ false) ⊎ (cancelled ≡ true)
Known cancelled paused notifying _ = Unit

abbrev pub IsSound : Token → Type 0
IsSound t = Known t.cancelled t.paused t.notifying t.worker

paused-Known :
    (c p : Bool) (n : ℕ) (pc : Pc) → holds_lock pc ≡ false → Known c p n pc → Known c true n pc
unfolding holds_lock
paused-Known c p n parked h k = inl refl
paused-Known c p n testing_pause h k = tt
paused-Known c p n testing_cancel h k = refl
paused-Known c p n about_to_wait h k = refl
paused-Known c p n leaving h k = absurd (ground (arith, h))
paused-Known c p n _ h k = tt

resumed-Known :
    (c p : Bool) (n : ℕ) (pc : Pc)
    → holds_lock pc ≡ false
    → Known c p n pc
    → Known c false (suc n) pc
unfolding holds_lock
resumed-Known c p n parked h k = inr (omega arith)
resumed-Known c p n testing_pause h k = tt
resumed-Known c p n testing_cancel h k = absurd (ground (arith, h))
resumed-Known c p n about_to_wait h k = absurd (ground (arith, h))
resumed-Known c p n leaving h k = inl refl
resumed-Known c p n _ h k = tt

cancelled-Known : (c p : Bool) (n : ℕ) (pc : Pc) → Known c p n pc → Known true p (suc n) pc
cancelled-Known c p n parked k = inr (omega arith)
cancelled-Known c p n testing_cancel k = k
cancelled-Known c p n about_to_wait k = k
cancelled-Known c p n leaving k = inr refl
cancelled-Known c p n _ k = tt

notified-Known : (c p : Bool) (n m : ℕ) (pc : Pc) → Known c p n pc → Known c p m (wake pc)
unfolding wake
notified-Known c p n m parked k = tt
notified-Known c p n m testing_cancel k = k
notified-Known c p n m about_to_wait k = k
notified-Known c p n m leaving k = k
notified-Known c p n m _ k = tt

some_inj : {a b : Pc} → some a ≡ some b → a ≡ b
some_inj h = cc

worked-Known :
    (c p : Bool) (n : ℕ) (pc pc' : Pc) → next c p pc ≡ some pc' → Known c p n pc → Known c p n pc'
unfolding next
worked-Known true p n entering pc' e k = rw (← some_inj e) tt
worked-Known false p n entering pc' e k = rw (← some_inj e) tt
worked-Known c p n locking pc' e k = rw (← some_inj e) tt
worked-Known c true n testing_pause pc' e k = rw (← some_inj e) refl
worked-Known c false n testing_pause pc' e k = rw (← some_inj e) (inl refl)
worked-Known true p n testing_cancel pc' e k = rw (← some_inj e) (inr refl)
worked-Known false p n testing_cancel pc' e k = rw (← some_inj e) k
worked-Known c p n about_to_wait pc' e k = rw (← some_inj e) (inl k)
worked-Known c p n parked pc' e k = absurd (ground (arith, e))
worked-Known c p n woken pc' e k = rw (← some_inj e) tt
worked-Known c p n leaving pc' e k = rw (← some_inj e) tt
worked-Known c p n (finished b) pc' e k = rw (← some_inj e) tt

Step-IsSound : {t u : Token} → Step t u → IsSound t → IsSound u
Step-IsSound {t} (pause h) k = paused-Known t.cancelled t.paused t.notifying t.worker h k
Step-IsSound {t} (resume h) k = resumed-Known t.cancelled t.paused t.notifying t.worker h k
Step-IsSound {t} cancel k = cancelled-Known t.cancelled t.paused t.notifying t.worker k
Step-IsSound {t} (notify_all n e) k = notified-Known t.cancelled t.paused t.notifying n t.worker k
Step-IsSound {t} (work pc e) k = worked-Known t.cancelled t.paused t.notifying t.worker pc e k

pub Run-IsSound : {t u : Token} → Run t u → IsSound t → IsSound u
Run-IsSound here k = k
Run-IsSound (after r s) k = Step-IsSound s (Run-IsSound r k)

pub new_token-IsSound : IsSound new_token
new_token-IsSound = tt

-- What the state shows when a checkpoint returns with `Ok` or with `Err(Cancelled)`.
abbrev pub Shows : Bool → Token → Type 0
Shows true t = (t.cancelled ≡ false) × (t.paused ≡ false)
Shows false t = t.cancelled ≡ true

leaving-Shows :
    (passed c p : Bool) (n : ℕ) (t : Token)
    → next c p leaving ≡ some (finished passed)
    → Known c p n leaving
    → Shows passed (record t { cancelled = c; paused = p })
unfolding next
leaving-Shows true false p n t e (inl k) = (refl, k)
leaving-Shows true false p n t e (inr k) = absurd (ground (arith, k))
leaving-Shows true true p n t e k = absurd (ground (arith, e))
leaving-Shows false true p n t e k = refl
leaving-Shows false false p n t e k = absurd (ground (arith, e))

returned-Shows :
    (passed c p : Bool) (n : ℕ) (pc : Pc) (t : Token)
    → next c p pc ≡ some (finished passed)
    → Known c p n pc
    → Shows passed (record t { cancelled = c; paused = p })
unfolding next
returned-Shows true true p n entering t e k = absurd (ground (arith, e))
returned-Shows false true p n entering t e k = refl
returned-Shows passed false p n entering t e k = absurd (ground (arith, e))
returned-Shows passed c p n locking t e k = absurd (ground (arith, e))
returned-Shows passed c p n testing_pause t e k = absurd (ground (arith, e))
returned-Shows passed c p n testing_cancel t e k = absurd (ground (arith, e))
returned-Shows passed c p n about_to_wait t e k = absurd (ground (arith, e))
returned-Shows passed c p n parked t e k = absurd (ground (arith, e))
returned-Shows passed c p n woken t e k = absurd (ground (arith, e))
returned-Shows passed c p n leaving t e k = leaving-Shows passed c p n t e k
returned-Shows passed c p n (finished b) t e k = absurd (ground (arith, e))

-- In every interleaving, a checkpoint returns `Ok` only in a state that is neither cancelled nor
-- paused, and `Err(Cancelled)` only in one that is cancelled.
pub checkpoint-Shows :
    (passed : Bool) {t : Token}
    → Reach t
    → next t.cancelled t.paused t.worker ≡ some (finished passed)
    → Shows passed t
checkpoint-Shows passed {t} r e =
    returned-Shows passed t.cancelled t.paused t.notifying t.worker t e
      (Run-IsSound r new_token-IsSound)
