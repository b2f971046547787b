-- ===== src/Tests/Scans.antt =====
-- The theorems on filters and on progress, applied to small cases.
use safe_duplicate_finder.Base.{
  ℕ, refl, ◌⊎◌, pos, ◌≡◌, some, none, true, false, List, [], ◌∷◌, Text, map, keep_if, arith,
}
use safe_duplicate_finder.Error.{ok}
use safe_duplicate_finder.Filters.{FilterConfig, default_filter, Globs, new_filter}
use safe_duplicate_finder.Filters.Listed.{Compilation, new_filter-Compilation}
use safe_duplicate_finder.Progress.{
  CounterCall, count_discovered, count_error, add_bytes, add_errors, no_progress, apply_calls,
  ProgressSubscriber, publish,
}
use safe_duplicate_finder.Progress.Exact.{reported, Sums, apply_calls-reported}
use safe_duplicate_finder.Progress.Newest.{with_newest, publish-with_newest}
use safe_duplicate_finder.Metadata.Token.{Collision, snapshot_token-apart}
use safe_duplicate_finder.Tests.World.{world, world_laws, identity, platform}

-- Patterns that match nothing.
abbrev no_globs : Globs Text (List Text)
no_globs = record { new_glob = λ t. ok t; build = λ ts. ok ts; is_match = λ _ _. false }

-- The default, with ".pdf" excluded.
abbrev without_pdf : FilterConfig
without_pdf = record default_filter { exclude_extensions = (46 ∷ 112 ∷ 100 ∷ 102 ∷ []) ∷ [] }

new_filter-Compilation_example :
    Compilation platform no_globs without_pdf (new_filter platform no_globs without_pdf)
new_filter-Compilation_example = new_filter-Compilation platform no_globs without_pdf

abbrev calls : List CounterCall
calls = count_discovered ∷ add_bytes 7 ∷ count_error ∷ add_errors 2 ∷ count_discovered ∷ []

apply_calls-reported_example : Sums no_progress (reported calls) (apply_calls calls no_progress)
apply_calls-reported_example =
    apply_calls-reported calls
      (omega arith, omega arith, omega arith, omega arith, omega arith, omega arith)

abbrev observers : List ProgressSubscriber
observers =
    record { waiting = some no_progress; alive = true }
    ∷ record { waiting = none; alive = false }
    ∷ record { waiting = none; alive = true }
    ∷ []

publish-with_newest_example :
    publish (reported calls) observers
    ≡ map (with_newest (reported calls)) (keep_if (λ s. s.alive) observers)
publish-with_newest_example = publish-with_newest (reported calls) observers

abbrev snapshot_size : ℕ
snapshot_size = 2

snapshot_token-apart_example : ((snapshot_size ≡ snapshot_size) × (pos 3 ≡ pos 3)) ⊎ Collision world
snapshot_token-apart_example =
    snapshot_token-apart world world_laws (some identity) snapshot_size snapshot_size (pos 3)
      (pos 3) (omega arith) (omega arith) (omega arith) (omega arith) refl
