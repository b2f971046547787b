-- ===== src/Tests/Detection.antt =====
-- The theorems on roots, samples and checkpoints, applied to small cases.
use safe_duplicate_finder.Base.{
  ◌≡◌, refl, ◌↔◌, ◌⊎◌, true, false, none, List, [], ◌∷◌, ◌++◌, Text, arith,
}
use safe_duplicate_finder.Paths.{Component, cur_dir, parent_dir, normal}
use safe_duplicate_finder.Error.{ok}
use safe_duplicate_finder.PathNormalization.{lexical_components, pop, is_same_or_child}
use safe_duplicate_finder.PathNormalization.Lexical.{ArePlain, lexical_components-idempotent}
use safe_duplicate_finder.PathNormalization.Children.{is_same_or_child_iff, separator_root_misses}
use safe_duplicate_finder.ProjectManager.{validate_roots}
use safe_duplicate_finder.ProjectManager.Validated.{Validation, validate_roots-Validation}
use safe_duplicate_finder.QuickHash.{sample_offsets, hash_file}
use safe_duplicate_finder.QuickHash.Offsets.{AreSamples, sample_offsets-AreSamples}
use safe_duplicate_finder.QuickHash.Digest.{QuickHashed, hash_file-QuickHashed}
use safe_duplicate_finder.FullHash.Streaming.{Observed}
use safe_duplicate_finder.Ports.Hoare.{Post}
use safe_duplicate_finder.Control.{
  Token, locking, testing_pause, testing_cancel, about_to_wait, parked, leaving, set_paused,
  set_cancelled, moved, pause, cancel, notify_all, work, new_token, here, after, next, holds_lock,
  wake, Reach,
}
use safe_duplicate_finder.Control.Safety.{Shows, checkpoint-Shows}
use safe_duplicate_finder.Control.Wakeups.{parked_needs_pause, cancel_missed}
use safe_duplicate_finder.Tests.World.{platform, path, world, world_laws, idle}

-- `b/../a/.`
abbrev roundabout : List Component
roundabout = normal (98 ∷ []) ∷ parent_dir ∷ normal (97 ∷ []) ∷ cur_dir ∷ []

lexical_components-idempotent_example :
    ArePlain (normal (97 ∷ []) ∷ [])
    × (lexical_components [] (normal (97 ∷ []) ∷ []) ≡ ok (normal (97 ∷ []) ∷ []))
unfolding lexical_components pop
lexical_components-idempotent_example =
    lexical_components-idempotent roundabout (normal (97 ∷ []) ∷ []) refl

validate_roots-Validation_example :
    Validation platform
      (path 98 ∷ path 97 ∷ path 98 ∷ [])
      (validate_roots platform (path 98 ∷ path 97 ∷ path 98 ∷ []))
validate_roots-Validation_example =
    validate_roots-Validation platform (path 98 ∷ path 97 ∷ path 98 ∷ [])

sample_offsets-AreSamples_example : AreSamples 5000000 (sample_offsets 5000000)
sample_offsets-AreSamples_example = sample_offsets-AreSamples 5000000

hash_file-QuickHashed_example :
    Post
      (λ r s'. QuickHashed world (path 1) [] r s'.trace × Observed [] s'.trace)
      (λ e s'. Observed [] s'.trace)
      (hash_file world (path 1) idle)
hash_file-QuickHashed_example = hash_file-QuickHashed world world_laws (path 1) idle

-- A worker that finds the token paused and has tested both flags.
abbrev hesitant : Token
hesitant = moved (set_paused new_token) about_to_wait

hesitant-Reach : Reach hesitant
unfolding next holds_lock
hesitant-Reach =
    after
      (after (after (after (after here (pause refl)) (work locking refl)) (work testing_pause refl))
        (work testing_cancel refl))
      (work about_to_wait refl)

parked_needs_pause_example : (moved hesitant parked).paused ≡ true
unfolding next
parked_needs_pause_example =
    parked_needs_pause {t = moved hesitant parked} (after hesitant-Reach (work parked refl)) refl
      refl

cancel_missed_example :
    (u : Token) × Reach u
    × (u.cancelled ≡ true)
    × (u.worker ≡ parked)
    × (u.notifying ≡ 0)
    × (next u.cancelled u.paused u.worker ≡ none)
cancel_missed_example = cancel_missed hesitant-Reach refl refl

-- The worker waits, the token is cancelled, and the notification comes.
checkpoint-Shows_example :
    Shows false (moved (record (set_cancelled (set_paused new_token)) { notifying = 0 }) leaving)
unfolding next wake
checkpoint-Shows_example =
    checkpoint-Shows false
      (after
        (after
          (after
            (after (after (after hesitant-Reach (work parked refl)) cancel) (notify_all 0 refl))
            (work testing_pause refl))
          (work testing_cancel refl))
        (work leaving refl))
      refl

abbrev parent : Text
parent = 97 ∷ []

abbrev child : Text
child = 97 ∷ 92 ∷ 98 ∷ []

is_same_or_child_iff_example :
    (is_same_or_child parent child ≡ true)
    ↔ ((child ≡ parent) ⊎ ((rest : Text) × (child ≡ parent ++ (92 ∷ rest))))
is_same_or_child_iff_example = is_same_or_child_iff parent child

abbrev drive : Text
drive = 99 ∷ 58 ∷ []

separator_root_misses_example :
    is_same_or_child (99 ∷ 58 ∷ 92 ∷ []) (99 ∷ 58 ∷ 92 ∷ 98 ∷ 111 ∷ []) ≡ false
separator_root_misses_example = separator_root_misses drive (111 ∷ []) 98 (λ e. ground (arith, e))
