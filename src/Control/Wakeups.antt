-- ===== src/Control/Wakeups.antt =====
-- Which calls of crates/dedupe-core/src/control.rs wake a worker that waits.
use safe_duplicate_finder.Base.{ℕ, suc, ◌≡◌, refl, ap, inl, inr, Bool, true, none, arith}
use safe_duplicate_finder.Control.{
  about_to_wait, parked, Token, next, wake, set_cancelled, moved, cancel, notify_all, work, after,
  Reach,
}
use safe_duplicate_finder.Control.Safety.{Known, Run-IsSound, new_token-IsSound}

in_wait : (c p : Bool) (k : ℕ) → Known c p k parked → k ≡ 0 → p ≡ true
in_wait c p k (inl h) n = h
in_wait c p k (inr h) n = absurd (omega (arith, h, n))

-- No call of `resume` is missed: a worker that waits while no notification is under way waits in a
-- paused state.
pub parked_needs_pause :
    {t : Token} → Reach t → t.worker ≡ parked → t.notifying ≡ 0 → t.paused ≡ true
parked_needs_pause {t} r p n =
    in_wait t.cancelled t.paused t.notifying (rw p at (Run-IsSound r new_token-IsSound)) n

abbrev notified : Token → Token
notified t = record t { notifying = 0; worker = wake t.worker }

-- A call of `cancel` can be missed: if it comes when the worker has tested both flags and does not
-- wait yet, then the notification is over before the worker waits, and the worker stays in the
-- wait although the token is cancelled.
pub cancel_missed :
    {t : Token}
    → Reach t
    → t.worker ≡ about_to_wait
    → t.notifying ≡ 0
    → (u : Token) × Reach u
      × (u.cancelled ≡ true)
      × (u.worker ≡ parked)
      × (u.notifying ≡ 0)
      × (next u.cancelled u.paused u.worker ≡ none)
unfolding next wake
cancel_missed {t} r p n = (
  moved (notified (set_cancelled t)) parked,
  after (after (after r cancel) (notify_all 0 (ap suc n))) (work parked (rw p refl)),
  refl,
  refl,
  refl,
  refl,
)
