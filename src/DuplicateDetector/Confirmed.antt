-- ===== src/DuplicateDetector/Confirmed.antt =====
-- The groups that crates/dedupe-core/src/duplicate_detector.rs confirms are proven.
use mathlib.Core.List.{Memᴰ}
use safe_duplicate_finder.Base.{
  ℕ, ◌≡◌, refl, sym, ap, inl, inr, true, false, ◌&&◌, some, List, [], ◌∷◌, map, All, All-map,
  All-mono, All-append, All-self, All-Permᴰ, keep_if, keep_if-All, Text, text_eq→eq, arith,
  Bool-cases,
}
use safe_duplicate_finder.Model.{
  ComparisonMode, strict, content, HashAlgorithm, blake3_full, sha256_full, HashResult,
  FileMetadataSnapshot, ProvenFile, WorkerConfig,
}
use safe_duplicate_finder.Ports.{Ports, Sys, Event}
use safe_duplicate_finder.Paths.{FilePath}
use safe_duplicate_finder.Ports.Monad.{Action}
use safe_duplicate_finder.Ports.Calls.{new_uuid-Post}
use safe_duplicate_finder.Ports.Hoare.{Post, returns, Post-then, Post-mono}
use safe_duplicate_finder.FullHash.{hash_stream, blake3_file, sha256_file}
use safe_duplicate_finder.FullHash.Streaming.{
  HasherLaws, Observed, unseen, Observed-trans, hash_stream-digest, Hashed-Observed,
}
use safe_duplicate_finder.QuickHash as Quick
use safe_duplicate_finder.QuickHash.Digest.{hash_file-QuickHashed}
use safe_duplicate_finder.Scheduler.{Runner, RunnerLaws}
use safe_duplicate_finder.DuplicateDetector.{
  quick_stage, blake3_stage, sha256_stage, DetectionOutcome, no_outcome, MapOrder, is_eligible,
  is_hard_link, has_one_link, HashGroups, HashedOnce, keep_independent, at_least_two, name_of_group,
  group_stable_hashes, group_sha256, push_groups, confirm_sha256, confirm_blake3,
  confirm_with_config,
}
use safe_duplicate_finder.DuplicateDetector.Grouping.{Holds, Holds-mono}
use safe_duplicate_finder.DuplicateDetector.Stages.{IsFrom, stage-Post}
use safe_duplicate_finder.DuplicateDetector.Proven.{
  SameName, ReadThrough, Hashed-ReadThrough, ReadThrough-later, IsProven, IsProvenGroup,
  new_group-IsProvenGroup, IsProvenGroup-later,
}

eligible_lem :
    (mode : ComparisonMode) (size : ℕ) (name : Text) (c : FileMetadataSnapshot)
    → is_eligible mode size name c ≡ true
    → (c.size_bytes ≡ size)
      × SameName mode c (name_of_group mode name)
      × (is_hard_link c.link_kind ≡ false)
      × (has_one_link c.hardlink_count ≡ true)
unfolding is_eligible
eligible_lem strict size name c h = (
  ground (arith, h),
  ap some (sym (text_eq→eq c.normalized_name name (ground (arith, h)))),
  ground (arith, h),
  ground (arith, h),
)
eligible_lem content size name c h = (ground (arith, h), refl, ground (arith, h), ground (arith, h))

module _ {E H : Type 0} (ports : Ports E H) (hashing : HasherLaws ports) (runner : Runner E)
    (running : RunnerLaws runner) (maps : MapOrder) (workers : WorkerConfig) (mode : ComparisonMode)
    (candidates : List FileMetadataSnapshot) where
  module _ (t₀ : List Event) (size : ℕ) (name : Text) where
    -- The candidates that are looked at.
    abbrev IsLooked : FileMetadataSnapshot → Type 0
    IsLooked c = Memᴰ c candidates × (is_eligible mode size name c ≡ true)

    abbrev paired : FileMetadataSnapshot → HashResult → HashedOnce
    paired c r = (c, r)

    -- The run from u to t has read the file through.
    abbrev ReadBy : HashAlgorithm → FilePath → List Event → HashResult → List Event → Type 0
    ReadBy algorithm path u r t = ReadThrough ports hashing algorithm path u r t

    abbrev Blaked : List Event → Text → HashedOnce → Type 0
    Blaked t = IsFrom paired IsLooked (λ c r. ReadBy blake3_full c.path t₀ r t)

    abbrev joined : HashedOnce → HashResult → ProvenFile
    joined c r = record { metadata = c.0; blake3 = c.1; sha256 = r }

    abbrev Shaed : List Event → List Event → Text → Text → ProvenFile → Type 0
    Shaed t t' blake3 = IsFrom joined (Blaked t blake3) (λ c r. ReadBy sha256_full c.0.path t r t')

    abbrev Proven : List Event → Text → Text → ProvenFile → Type 0
    Proven t' = IsProven ports hashing mode candidates t₀ t' size (name_of_group mode name)

    hash_stream-Read :
        (algorithm : HashAlgorithm) (path : FilePath) (u : List Event) (s : Sys E)
        → Observed u s.trace
        → Post
            (λ r s'. ReadBy algorithm path u r s'.trace × Observed s.trace s'.trace)
            (λ e s'. Observed s.trace s'.trace)
            (hash_stream ports path algorithm s)
    hash_stream-Read algorithm path u s o =
        Post-mono _ (hash_stream-digest ports hashing path algorithm s)
          (λ r s' h. (Hashed-ReadThrough ports hashing o h, Hashed-Observed ports hashing h))
          (λ e s' o. o)

    abbrev AllProven : List Event → DetectionOutcome → Type 0
    AllProven t outcome = All (IsProvenGroup ports hashing mode candidates t₀ t) outcome.groups

    AllProven-later :
        {u v : List Event} (outcome : DetectionOutcome)
        → Observed u v
        → AllProven u outcome
        → AllProven v outcome
    AllProven-later {u} {v} outcome o =
        IsProvenGroup-later ports hashing mode candidates t₀ u v o outcome.groups

    Blaked-later :
        {u v : List Event}
        → Observed u v
        → (digest : Text) (x : HashedOnce) → Blaked u digest x
        → Blaked v digest x
    Blaked-later o digest x b = record {
      candidate = b.candidate;
      evidence = b.evidence;
      added = b.added;
      known = b.known;
      seen = ReadThrough-later ports hashing o b.seen;
      same_digest = b.same_digest;
      stable = b.stable;
    }

    Shaed-IsProven :
        {t t' : List Event}
        → (blake3 sha256 : Text) (file : ProvenFile) → Shaed t t' blake3 sha256 file
        → Proven t' blake3 sha256 file
    Shaed-IsProven {t} blake3 sha256 file h =
        let b = h.known in
        let pair = b.added in
        let looked = eligible_lem mode size name b.candidate b.known.1 in
        rw (h.added, pair)
          (record {
            is_candidate = b.known.0;
            same_size = looked.0;
            same_name = looked.1;
            no_hard_link = looked.2;
            one_link = looked.3;
            between = t;
            blake3_read = b.seen;
            blake3_same = b.same_digest;
            blake3_stable = b.stable;
            sha256_read = rw pair at h.seen;
            sha256_same = h.same_digest;
            sha256_stable = h.stable;
          })

    abbrev Confirms : Action (Sys E) DetectionOutcome → Sys E → Type 0
    Confirms m s =
        Post (λ o s'. AllProven s'.trace o × Observed s.trace s'.trace)
          (λ e s'. Observed s.trace s'.trace) (m s)

    push_groups-Post :
        (blake3 : Text) (groups : HashGroups ProvenFile) (outcome : DetectionOutcome) (s : Sys E)
        → Holds (Proven s.trace blake3) groups
        → AllProven s.trace outcome
        → Confirms (push_groups ports runner maps workers mode size name blake3 groups outcome) s
    unfolding push_groups
    push_groups-Post blake3 [] outcome s h p = returns (p, unseen)
    push_groups-Post blake3 ((sha256, files) ∷ groups) outcome s (h, hs) p =
        elim (Bool-cases (at_least_two files && at_least_two (keep_independent [] files))) [
          | inr e ↦ rw (e, push_groups) (push_groups-Post blake3 groups outcome s hs p)
          | inl e ↦
              rw (e, push_groups)
                (Post-then _ _ (new_uuid-Post ports s)
                  (λ id s₁ t₁.
                    Post-mono _
                      (push_groups-Post blake3 groups _ s₁ (rw t₁ hs) (
                        rw t₁ (
                          All-append _ outcome.groups _ p (
                            new_group-IsProvenGroup ports hashing mode candidates t₀ s.trace size
                                name blake3 sha256 files id (ground (arith, e)) h,
                            tt,
                          ))))
                      (λ o s' (q, o'). (q, rw t₁ at o')) (λ x s' o'. rw t₁ at o'))
                  (λ x s₁ b. absurd b))
        ]

    confirm_sha256-Post :
        (groups : HashGroups HashedOnce) (outcome : DetectionOutcome) (s : Sys E)
        → Observed t₀ s.trace
        → Holds (Blaked s.trace) groups
        → AllProven s.trace outcome
        → Confirms (confirm_sha256 ports runner maps workers mode size name groups outcome) s
    unfolding confirm_sha256 group_sha256 sha256_file
    confirm_sha256-Post [] outcome s o h p = returns (p, unseen)
    confirm_sha256-Post ((blake3, group) ∷ groups) outcome s o (h, hs) p =
        elim (Bool-cases (at_least_two group)) [
          | inr e ↦ rw (e, confirm_sha256) (confirm_sha256-Post groups outcome s o hs p)
          | inl e ↦
              rw (e, confirm_sha256)
                (Post-then _ _
                  (stage-Post joined (Blaked s.trace blake3)
                    (λ c r t. ReadBy sha256_full c.0.path s.trace r t)
                    (λ c r u v o. ReadThrough-later ports hashing o) runner running workers
                    sha256_stage (λ c. c.0.path) (λ c. c.0) (λ c. sha256_file ports c.0.path) group
                    outcome s h (λ c t o'. hash_stream-Read sha256_full c.0.path s.trace t o'))
                  (λ (shas, o₁) s₁ ((g, same), t₁).
                    Post-then _ _
                      (push_groups-Post blake3 (maps.in_map_order shas) o₁ s₁
                        (All-Permᴰ _ (maps.in_map_order-Permᴰ shas)
                          (Holds-mono (Shaed-IsProven blake3) shas g))
                        (rw same (AllProven-later outcome t₁ p)))
                      (λ o₂ s₂ (q, t₂).
                        let t₁₂ = Observed-trans t₁ t₂ in
                        Post-mono _
                          (confirm_sha256-Post groups o₂ s₂ (Observed-trans o t₁₂)
                            (Holds-mono (Blaked-later t₁₂) groups hs) q)
                          (λ o₃ s₃ (r, t₃). (r, Observed-trans t₁₂ t₃))
                          (λ x s₃ t₃. Observed-trans t₁₂ t₃))
                      (λ x s₂ t₂. Observed-trans t₁ t₂))
                  (λ x s₁ t₁. t₁))
        ]

    confirm_blake3-Post :
        (groups : HashGroups HashedOnce) (outcome : DetectionOutcome) (s : Sys E)
        → Observed t₀ s.trace
        → Holds (λ d x. IsLooked x.0) groups
        → AllProven s.trace outcome
        → Confirms (confirm_blake3 ports runner maps workers mode size name groups outcome) s
    unfolding confirm_blake3 group_stable_hashes blake3_file
    confirm_blake3-Post [] outcome s o h p = returns (p, unseen)
    confirm_blake3-Post ((quick, group) ∷ groups) outcome s o (h, hs) p =
        elim (Bool-cases (at_least_two group)) [
          | inr e ↦ rw (e, confirm_blake3) (confirm_blake3-Post groups outcome s o hs p)
          | inl e ↦
              rw (e, confirm_blake3)
                (Post-then _ _
                  (stage-Post paired IsLooked (λ c r t. ReadBy blake3_full c.path t₀ r t)
                    (λ c r u v o. ReadThrough-later ports hashing o) runner running workers
                    blake3_stage (λ c. c.path) (λ c. c) (λ c. blake3_file ports c.path)
                    (map (λ m. m.0) group) outcome s (All-map _ _ (λ m. m.0) (λ m x. x) group h)
                    (λ c t o'. hash_stream-Read blake3_full c.path t₀ t (Observed-trans o o')))
                  (λ (blakes, o₁) s₁ ((g, same), t₁).
                    Post-then _ _
                      (confirm_sha256-Post (maps.in_map_order blakes) o₁ s₁ (Observed-trans o t₁)
                        (All-Permᴰ _ (maps.in_map_order-Permᴰ blakes) g)
                        (rw same (AllProven-later outcome t₁ p)))
                      (λ o₂ s₂ (q, t₂).
                        let t₁₂ = Observed-trans t₁ t₂ in
                        Post-mono _ (confirm_blake3-Post groups o₂ s₂ (Observed-trans o t₁₂) hs q)
                          (λ o₃ s₃ (r, t₃). (r, Observed-trans t₁₂ t₃))
                          (λ x s₃ t₃. Observed-trans t₁₂ t₃))
                      (λ x s₂ t₂. Observed-trans t₁ t₂))
                  (λ x s₁ t₁. t₁))
        ]

    abbrev Quicked : Text → HashedOnce → Type 0
    Quicked = IsFrom paired IsLooked (λ c r. Unit {0})

    Quicked-IsLooked :
        (groups : HashGroups HashedOnce) → Holds Quicked groups → Holds (λ d x. IsLooked x.0) groups
    Quicked-IsLooked groups h =
        All-mono _ _
          (λ group g.
            All-mono (Quicked group.0) (λ x. IsLooked x.0) (λ x q. rw q.added q.known) group.1 g)
          groups h

  members_listed :
      (cs : List FileMetadataSnapshot) → candidates ≡ cs → All (λ c. Memᴰ c candidates) cs
  members_listed cs e = rw (← e) (All-self candidates)

  -- The confirmation of a preliminary group only looks at files. Each group that it returns has
  -- the mode asked for and at least two members, none of which has an action yet. All of them are
  -- candidates of the group's size, and in strict mode of its name, without hard links; each was
  -- read to its end twice in this very run, first for BLAKE3 and behind that for SHA-256, with no
  -- read error before the end, each time between two snapshots that agree on the file, and the
  -- digests of the bytes read are those of the group; and no two of them have the same identity.
  -- The condition on the runner of jobs is that it gives of each job what the job gives by itself.
  pub confirm_with_config-IsProvenGroup :
      (s : Sys E)
      → Post
          (λ o s'.
            All (IsProvenGroup ports hashing mode candidates s.trace s'.trace) o.groups
            × Observed s.trace s'.trace)
          (λ e s'. Observed s.trace s'.trace)
          (confirm_with_config ports runner maps workers mode candidates s)
  unfolding confirm_with_config group_stable_hashes
  confirm_with_config-IsProvenGroup s = by_candidates candidates refl
    where
      by_candidates :
          (cs : List FileMetadataSnapshot)
          → candidates ≡ cs
          → Post
              (λ o s'.
                All (IsProvenGroup ports hashing mode candidates s.trace s'.trace) o.groups
                × Observed s.trace s'.trace)
              (λ e s'. Observed s.trace s'.trace)
              (confirm_with_config ports runner maps workers mode cs s)
      by_candidates [] e = returns (tt, unseen)
      by_candidates (c ∷ []) e = returns (tt, unseen)
      by_candidates (first ∷ second ∷ others) e =
          let size = first.size_bytes in
          let name = first.normalized_name in
          let looked : All (IsLooked s.trace size name)
              (keep_if (is_eligible mode size name) (first ∷ second ∷ others)) =
            keep_if-All (is_eligible mode size name) (λ c. Memᴰ c candidates)
              (first ∷ second ∷ others) (members_listed _ e) in
          Post-then _ _
            (stage-Post (paired s.trace size name) (IsLooked s.trace size name) (λ c r t. Unit {0})
              (λ c r u v o h. tt) runner running workers quick_stage (λ c. c.path) (λ c. c)
              (λ c. Quick.hash_file ports c.path) _ no_outcome s looked
              (λ c t o.
                Post-mono _ (hash_file-QuickHashed ports hashing c.path t) (λ r s' q. (tt, q.1))
                  (λ x s' o. o)))
            (λ (quicks, o₁) s₁ ((g, same), t₁).
              Post-mono _
                (confirm_blake3-Post s.trace size name (maps.in_map_order quicks) o₁ s₁ t₁
                  (All-Permᴰ _ (maps.in_map_order-Permᴰ quicks)
                    (Quicked-IsLooked s.trace size name quicks g))
                  (rw same tt))
                (λ o₂ s₂ (q, t₂). (q, Observed-trans t₁ t₂)) (λ x s₂ t₂. Observed-trans t₁ t₂))
            (λ x s₁ t₁. t₁)
