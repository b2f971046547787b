-- ===== src/Progress/Newest.antt =====
-- What the observers of crates/dedupe-core/src/progress.rs find in their channels.
use safe_duplicate_finder.Base.{
  ◌≡◌, refl, inl, inr, Option, none, some, List, [], ◌∷◌, map, keep_if, Bool-cases,
}
use safe_duplicate_finder.Progress.{ProgressSnapshot, ProgressSubscriber, offer, publish}

-- The channel of an observer that has not looked since.
abbrev pub with_newest : ProgressSnapshot → ProgressSubscriber → ProgressSubscriber
with_newest snapshot subscriber = record { waiting = some snapshot; alive = subscriber.alive }

offer_lem :
    (snapshot : ProgressSnapshot) (waiting : Option ProgressSnapshot)
    → offer snapshot waiting ≡ some snapshot
unfolding offer
offer_lem snapshot none = refl
offer_lem snapshot (some stale) = refl

-- A snapshot that is published is all that the channel of each observer still there then holds,
-- whether it was full or empty; the observers that have gone are taken off the list, and the
-- others keep their order.
pub publish-with_newest :
    (snapshot : ProgressSnapshot) (subscribers : List ProgressSubscriber)
    → publish snapshot subscribers ≡ map (with_newest snapshot) (keep_if (λ s. s.alive) subscribers)
unfolding publish
publish-with_newest snapshot [] = refl
publish-with_newest snapshot (s ∷ subscribers) = elim (Bool-cases s.alive) [
  | inl e ↦
      simp (e, publish, offer_lem snapshot s.waiting, publish-with_newest snapshot subscribers) refl
  | inr e ↦ simp (e, publish, publish-with_newest snapshot subscribers) refl
]
