-- ===== src/Quarantine/Keeper.antt =====
-- What `verify_live_keeper` of crates/dedupe-core/src/quarantine.rs has proved.
use mathlib.Core.List.{Memᴰ}
use mathlib.Core.List.Memᴰ.{head, tail}
use safe_duplicate_finder.Base.{
  ◌≡◌, sym, inl, inr, true, some, List, [], ◌∷◌, Text, text_eq→eq, arith, Bool-cases,
}
use safe_duplicate_finder.Model.{
  FileMetadataSnapshot, identity_opt_eq→eq, HashResult, blake3_full, sha256_full, DuplicateMember,
  DuplicateGroup, is_keep,
}
use safe_duplicate_finder.Ports.{Ports, Sys, Event, snapped}
use safe_duplicate_finder.Ports.Hoare.{Post, Post-then, Post-guard, Post-or_raise, Post-check}
use safe_duplicate_finder.Ports.Calls.{snapshot-Post}
use safe_duplicate_finder.FullHash.{blake3_file, sha256_file}
use safe_duplicate_finder.FullHash.Streaming.{
  HasherLaws, Hashed, Observed, unseen, saw_snapshot, Observed-trans, hash_stream-digest,
  Hashed-Observed,
}
use safe_duplicate_finder.TransactionJournal.{proves}
use safe_duplicate_finder.Quarantine.{find_keeper, verify_live_keeper}

some_inj : {a b : DuplicateMember} → some a ≡ some b → a ≡ b
some_inj h = cc

find_keeper-some :
    (members : List DuplicateMember) (keeper : DuplicateMember)
    → find_keeper members ≡ some keeper
    → Memᴰ keeper members × (is_keep keeper.action ≡ true)
unfolding find_keeper
find_keeper-some [] keeper h = absurd (ground (arith, h))
find_keeper-some (m ∷ members) keeper h = elim (Bool-cases (is_keep m.action)) [
  | inl e ↦
      let same : m ≡ keeper = some_inj (simp (e, find_keeper) at h) in
      (head (sym same), simp (← same) e)
  | inr e ↦
      let rest = find_keeper-some members keeper (simp (e, find_keeper) at h) in
      (tail rest.0, rest.1)
]

module _ {E H : Type 0} (ports : Ports E H) (laws : HasherLaws ports) where
  -- The keeper of a group is there as it was planned, and was read twice since the look at it.
  pub record IsLive (group : DuplicateGroup) (t t' : List Event) : Type 0 where
    pub keeper : DuplicateMember
    pub is_member : Memᴰ keeper group.members
    pub is_kept : is_keep keeper.action ≡ true
    pub current : FileMetadataSnapshot
    pub same_identity : current.identity ≡ keeper.file.metadata.identity
    pub same_size : current.size_bytes ≡ keeper.file.metadata.size_bytes
    pub same_token : current.snapshot_token ≡ keeper.file.metadata.snapshot_token
    pub between : List Event
    pub blake3 : HashResult
    pub blake3_read :
        Hashed ports laws blake3_full current.path
          (snapped keeper.file.metadata.path current ∷ t)
          blake3
          between
    pub sha256 : HashResult
    pub sha256_read : Hashed ports laws sha256_full current.path between sha256 t'
    pub blake3_proves : (blake3.stable ≡ true) × (blake3.digest ≡ group.blake3)
    pub sha256_proves : (sha256.stable ≡ true) × (sha256.digest ≡ group.sha256)

  proves_lem :
      (r : HashResult) (digest : Text)
      → proves r digest ≡ true
      → (r.stable ≡ true) × (r.digest ≡ digest)
  proves_lem r digest h = (ground (arith, h), text_eq→eq r.digest digest (ground (arith, h)))

  -- The check of a live keeper passes only if the group has a keeper that is there with the
  -- identity, the size and the token of the plan, and whose content was then read to its end by
  -- both hashes, was stable, and has the digests of the group. It only looks at files.
  pub verify_live_keeper-IsLive :
      (group : DuplicateGroup) (s : Sys E)
      → Post
          (λ _ s'. IsLive group s.trace s'.trace)
          (λ _ s'. Observed s.trace s'.trace)
          (verify_live_keeper ports group s)
  unfolding verify_live_keeper blake3_file sha256_file
  verify_live_keeper-IsLive group s =
      Post-or_raise _ (find_keeper group.members) _ s
        (λ keeper found.
          let expected = keeper.file.metadata in
          let member = find_keeper-some group.members keeper found in
          Post-then _ _ (snapshot-Post ports s expected.path)
            (λ current s₁ t₁.
              Post-guard _ _ _ s₁
                (λ same.
                  Post-then _ _ (hash_stream-digest ports laws current.path blake3_full s₁)
                    (λ blake3 s₂ b.
                      Post-then _ _ (hash_stream-digest ports laws current.path sha256_full s₂)
                        (λ sha256 s₃ h.
                          Post-check _ _ s₃
                            (λ ok_proofs. record {
                              keeper = keeper;
                              is_member = member.0;
                              is_kept = member.1;
                              current = current;
                              same_identity = identity_opt_eq→eq _ _ (ground (arith, same));
                              same_size = ground (arith, same);
                              same_token = text_eq→eq _ _ (ground (arith, same));
                              between = s₂.trace;
                              blake3 = blake3;
                              blake3_read = rw t₁ at b;
                              sha256 = sha256;
                              sha256_read = h;
                              blake3_proves =
                                  proves_lem blake3 group.blake3 (ground (arith, ok_proofs));
                              sha256_proves =
                                  proves_lem sha256 group.sha256 (ground (arith, ok_proofs));
                            })
                            (λ _. Observed-trans (seen s₁ expected current t₁) (
                              Observed-trans (Hashed-Observed ports laws b)
                                (Hashed-Observed ports laws h))))
                        (λ e s₃ o.
                          Observed-trans (seen s₁ expected current t₁)
                            (Observed-trans (Hashed-Observed ports laws b) o)))
                    (λ e s₂ o. Observed-trans (seen s₁ expected current t₁) o))
                (λ _. seen s₁ expected current t₁))
            (λ e s₁ t₁. rw t₁ unseen))
        (λ _. unseen)
    where
      seen :
          (s₁ : Sys E) (expected current : FileMetadataSnapshot)
          → s₁.trace ≡ snapped expected.path current ∷ s.trace
          → Observed s.trace s₁.trace
      seen s₁ expected current t = rw t (saw_snapshot unseen)
