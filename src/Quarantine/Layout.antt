-- ===== src/Quarantine/Layout.antt =====
-- Where crates/dedupe-core/src/quarantine.rs puts a file.
use safe_duplicate_finder.Base.{
  ◌≡◌, ◌≢◌, refl, sym, ◌∙◌, true, false, List, [], ◌∷◌, ◌++◌, Text, arith, Option-cases, Bool-cases,
  inl, inr,
}
use safe_duplicate_finder.Paths.{
  Component, normal, FilePath, strip_prefix, starts_with, path_eq, path_eq→components,
  append-strip_prefix,
}
use safe_duplicate_finder.Error.{ok, err, safety, source_outside_root}
use safe_duplicate_finder.Model.{Uuid}
use safe_duplicate_finder.Quarantine.{quarantine_destination, under_root}

normal-injective : {a b : Text} → normal a ≡ normal b → a ≡ b
normal-injective h = cc

append_cancel : (cs ds es : List Component) → cs ++ ds ≡ cs ++ es → ds ≡ es
append_cancel [] ds es h = h
append_cancel (c ∷ cs) ds es h = append_cancel cs ds es (cc)

module _ (render : List Component → Text) (uuid_text : Uuid → Text) where
  destination_layout :
      (root : FilePath) (p s e : Uuid) (source_root source : FilePath) {d : FilePath}
      → quarantine_destination render uuid_text root p s e source_root source ≡ ok d
      → (relative : List Component) × (source.components ≡ source_root.components ++ relative)
        × (d.components ≡ under_root render uuid_text root p s e relative)
  unfolding quarantine_destination
  destination_layout root p s e source_root source h =
      elim (Option-cases (strip_prefix source_root.components source.components)) [
        | inl outside ↦ absurd (ground arith)
        | inr (relative, inside) ↦ (relative, append-strip_prefix _ _ relative inside, ground arith)
      ]

  same_place :
      (root : FilePath) (p s e₁ e₂ : Uuid) (cs ds : List Component)
      → under_root render uuid_text root p s e₁ cs ≡ under_root render uuid_text root p s e₂ ds
      → (normal (uuid_text e₁) ≡ normal (uuid_text e₂)) × (cs ≡ ds)
  same_place root p s e₁ e₂ cs ds h = let rest = append_cancel root.components _ _ h in (cc, cc)

  -- A source is given a place exactly if it lies under its root, and then its path below the root
  -- is kept, below three directories in the quarantine's root: the one named by the text of the
  -- project's id, in it that of the session, and in it that of the entry. Any other source is
  -- refused.
  pub quarantine_destination-layout :
      (root : FilePath) (p s e : Uuid) (source_root source : FilePath)
      → ((starts_with source source_root ≡ true)
          → (d : FilePath) × (relative : List Component) × (quarantine_destination render uuid_text
                root p s e source_root source
              ≡ ok d)
            × (source.components ≡ source_root.components ++ relative)
            × (d.components
                ≡ root.components
                  ++ (normal (uuid_text p)
                      ∷ normal (uuid_text s)
                      ∷ normal (uuid_text e)
                      ∷ relative)))
        × ((starts_with source source_root ≡ false)
            → quarantine_destination render uuid_text root p s e source_root source
              ≡ err (safety (source_outside_root source source_root)))
  unfolding quarantine_destination starts_with
  quarantine_destination-layout root p s e source_root source =
      elim (Option-cases (strip_prefix source_root.components source.components)) [
        | inl outside ↦ (λ h. absurd (ground arith), λ h. ground arith)
        | inr (relative, inside) ↦ (
          λ h. (
            record {
              os_str = render (under_root render uuid_text root p s e relative);
              components = under_root render uuid_text root p s e relative;
            },
            relative,
            ground arith,
            append-strip_prefix _ _ relative inside,
            refl,
          ),
          λ h. absurd (ground arith),
        )
      ]

  -- Two entries never share a place: if the texts of ids differ, the destinations for two
  -- different entries in one session are different paths, whatever the sources are.
  pub quarantine_destination-apart :
      ((a b : Uuid) → uuid_text a ≡ uuid_text b → a ≡ b)
      → (root : FilePath) (p s e₁ e₂ : Uuid) (source_root₁ source₁ source_root₂ source₂ : FilePath)
        {d₁ d₂ : FilePath}
      → e₁ ≢ e₂
      → quarantine_destination render uuid_text root p s e₁ source_root₁ source₁ ≡ ok d₁
      → quarantine_destination render uuid_text root p s e₂ source_root₂ source₂ ≡ ok d₂
      → path_eq d₁ d₂ ≡ false
  quarantine_destination-apart distinct root p s e₁ e₂ sr₁ s₁ sr₂ s₂ {d₁} {d₂} differ h₁ h₂ =
      let (r₁, _, c₁) = destination_layout root p s e₁ sr₁ s₁ h₁ in
      let (r₂, _, c₂) = destination_layout root p s e₂ sr₂ s₂ h₂ in
      elim (Bool-cases (path_eq d₁ d₂)) [
        | inr apart ↦ apart
        | inl same ↦
            let equal = sym c₁ ∙ path_eq→components d₁ d₂ same ∙ c₂ in
            absurd
              (differ (distinct e₁ e₂ (normal-injective (same_place root p s e₁ e₂ r₁ r₂ equal).0)))
      ]
