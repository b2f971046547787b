-- ===== src/DryRun/Freshness.antt =====
-- What `validate_fresh` of crates/dedupe-core/src/dry_run.rs has confirmed.
use safe_duplicate_finder.Base.{◌≡◌, refl, true, List, [], ◌∷◌, arith}
use safe_duplicate_finder.Model.{FileMetadataSnapshot, DuplicateGroup, DuplicateMember}
use safe_duplicate_finder.DryRun.{is_fresh, validate_members, validate_fresh}
use safe_duplicate_finder.Ports.{Ports, Sys, Event, snapped}
use safe_duplicate_finder.Ports.Hoare.{Post, returns, Post-then, Post-guard, Post-mono}
use safe_duplicate_finder.Ports.Calls.{snapshot-Post}

-- Every member was seen once, in order, as it was planned.
abbrev pub Confirmed : List DuplicateMember → List Event → List Event → Type 0
Confirmed [] from to = to ≡ from
Confirmed (m ∷ ms) from to =
    (current : FileMetadataSnapshot) × (is_fresh current m.file.metadata ≡ true)
    × Confirmed ms (snapped m.file.metadata.path current ∷ from) to

abbrev pub ConfirmedGroups : List DuplicateGroup → List Event → List Event → Type 0
ConfirmedGroups [] from to = to ≡ from
ConfirmedGroups (g ∷ gs) from to =
    (middle : List Event) × Confirmed g.members from middle × ConfirmedGroups gs middle to

module _ {E H : Type 0} (ports : Ports E H) where
  validate_members-Confirmed :
      (ms : List DuplicateMember) (s : Sys E)
      → Post (λ _ s'. Confirmed ms s.trace s'.trace) (λ _ _. Unit) (validate_members ports ms s)
  unfolding validate_members
  validate_members-Confirmed [] s = returns refl
  validate_members-Confirmed (m ∷ ms) s =
      Post-then _ _ (snapshot-Post ports s m.file.metadata.path)
        (λ current s₁ h₁.
          Post-guard _ _ _ s₁
            (λ fresh.
              Post-mono _ (validate_members-Confirmed ms s₁)
                (λ _ s₂ h₂. (current, ground arith, rw h₁ at h₂)) (λ _ _ _. tt))
            (λ _. tt))
        (λ _ _ _. tt)

  -- A plan passes only if every member of every group was seen again, in order, with the identity,
  -- the size and the snapshot token of the plan.
  pub validate_fresh-ConfirmedGroups :
      (gs : List DuplicateGroup) (s : Sys E)
      → Post (λ _ s'. ConfirmedGroups gs s.trace s'.trace) (λ _ _. Unit) (validate_fresh ports gs s)
  unfolding validate_fresh
  validate_fresh-ConfirmedGroups [] s = returns refl
  validate_fresh-ConfirmedGroups (g ∷ gs) s =
      Post-then _ _ (validate_members-Confirmed g.members s)
        (λ _ s₁ h₁.
          Post-mono _ (validate_fresh-ConfirmedGroups gs s₁) (λ _ s₂ h₂. (s₁.trace, h₁, h₂))
            (λ _ _ _. tt))
        (λ _ _ _. tt)
