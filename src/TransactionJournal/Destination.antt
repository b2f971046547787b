-- ===== src/TransactionJournal/Destination.antt =====
-- What `verify_destination` of crates/dedupe-core/src/transaction_journal.rs proves when it returns.
use safe_duplicate_finder.Base.{◌≡◌, sym, true, false, not, List, some, arith, text_eq→eq, Text}
use safe_duplicate_finder.Model.{
  FileTransaction, HashResult, FileMetadataSnapshot, blake3_full, sha256_full, identity_opt_eq→eq,
}
use safe_duplicate_finder.Ports.{Ports, Sys, Event}
use safe_duplicate_finder.Ports.Hoare.{Post, Post-then, Post-guard, Post-check}
use safe_duplicate_finder.Ports.Calls.{snapshot-Post, checkpoint-Post}
use safe_duplicate_finder.FullHash.{blake3_file, sha256_file}
use safe_duplicate_finder.FullHash.Streaming.{
  HasherLaws, hash_stream-digest, Observed, unseen, saw_snapshot, Observed-trans, Hashed-Observed,
}
use safe_duplicate_finder.TransactionJournal.{same_identity_and_size, proves, verify_destination}
use safe_duplicate_finder.TransactionJournal.Order.{DestinationProof}

proves→same :
    (r : HashResult) (d : Text) → not (proves r d) ≡ false → (r.digest ≡ d) × (r.stable ≡ true)
proves→same r d h = ground (arith, text_eq→eq r.digest d)

same→evidence :
    (t : FileTransaction) (d : FileMetadataSnapshot)
    → not (same_identity_and_size t d) ≡ false
    → (d.identity ≡ some t.identity) × (d.size_bytes ≡ t.size_bytes)
same→evidence t d h = ground (arith, identity_opt_eq→eq d.identity (some t.identity))

module _ {E H : Type 0} (ports : Ports E H) (laws : HasherLaws ports) where
  -- The verification only looks at files, and returns only with the whole proof.
  pub verify_destination-Post :
      (t : FileTransaction) (s : Sys E)
      → Post
          (λ _ s'. DestinationProof ports laws t s.trace s'.trace)
          (λ e s'. Observed s.trace s'.trace)
          (verify_destination ports t s)
  unfolding verify_destination blake3_file sha256_file
  verify_destination-Post t s =
      Post-then _ _ (checkpoint-Post ports s)
        (λ _ s₁ t₁.
          Post-then _ _ (snapshot-Post ports s₁ t.destination)
            (λ d s₂ t₂.
              let seen : Observed s.trace s₂.trace = rw (t₂, t₁) (saw_snapshot unseen) in
              Post-guard _ _ _ s₂
                (λ same.
                  Post-then _ _ (hash_stream-digest ports laws t.destination blake3_full s₂)
                    (λ b s₃ h₃.
                      Post-guard _ _ _ s₃
                        (λ good_b.
                          Post-then _ _ (hash_stream-digest ports laws t.destination sha256_full s₃)
                            (λ r s₄ h₄.
                              Post-check _ _ s₄
                                (λ good_r. record {
                                  destination = d;
                                  blake3_result = b;
                                  sha256_result = r;
                                  middle = s₃.trace;
                                  same_identity = (same→evidence t d same).0;
                                  same_size = (same→evidence t d same).1;
                                  blake3_pass = rw (sym t₁, sym t₂) h₃;
                                  blake3_same = (proves→same b t.blake3 good_b).0;
                                  blake3_stable = (proves→same b t.blake3 good_b).1;
                                  sha256_pass = h₄;
                                  sha256_same = (proves→same r t.sha256 good_r).0;
                                  sha256_stable = (proves→same r t.sha256 good_r).1;
                                })
                                (λ _. Observed-trans seen (
                                  Observed-trans (Hashed-Observed ports laws h₃)
                                    (Hashed-Observed ports laws h₄))))
                            (λ e s₄ o.
                              Observed-trans seen
                                (Observed-trans (Hashed-Observed ports laws h₃) o)))
                        (λ _. Observed-trans seen (Hashed-Observed ports laws h₃)))
                    (λ e s₃ o. Observed-trans seen o))
                (λ _. seen))
            (λ e s₂ t₂. rw (t₂, t₁) unseen))
        (λ e s₁ t₁. rw t₁ unseen)

  pub DestinationProof-Observed :
      (t : FileTransaction) (from to : List Event)
      → DestinationProof ports laws t from to
      → Observed from to
  DestinationProof-Observed t from to p =
      Observed-trans
        (Observed-trans (saw_snapshot unseen) (Hashed-Observed ports laws p.blake3_pass))
        (Hashed-Observed ports laws p.sha256_pass)
