-- ===== src/PathNormalization.antt =====
-- crates/dedupe-core/src/path_normalization.rs: the lexical normal form of a path. A text is the
-- list of its bytes in UTF-8.
pub mod Children
pub mod Lexical
use safe_duplicate_finder.Base.{
  ℕ, Bool, true, false, ◌||◌, Option, none, some, List, [], ◌∷◌, ◌++◌, map, Text, text_eq, ◌==◌,
  if◌then◌else◌,
}
use safe_duplicate_finder.Paths.{FilePath, Component, prefix, root_dir, cur_dir, parent_dir, normal}
use safe_duplicate_finder.Error.{Result, ok, err, ◌>>=◌, invalid_input, path_escapes_root}
use safe_duplicate_finder.Ports.{Ports}

-- What the platform and the crate unicode_normalization decide: the current directory, the parts of
-- `std::path` that differ between systems, and the Unicode tables.
pub record Platform : Type 0 where
  pub current_dir : Result FilePath
  pub is_absolute : FilePath → Bool
  pub join : FilePath → FilePath → FilePath
  -- `to_string_lossy` of a path that was built by pushing components
  pub lossy : List Component → Text
  pub nfc : Text → Text
  pub to_lowercase : Text → Text

-- `Path::parent` is there if the last component is no prefix and no root.
abbrev pub has_parent : Component → Bool
has_parent (prefix _) = false
has_parent root_dir = false
has_parent _ = true

-- `PathBuf::pop` on the components: what has no parent is left.
unfoldable pub pop : List Component → Option (List Component)
pop [] = none
pop (c ∷ []) = if has_parent c then some [] else none
pop (c ∷ d ∷ cs) = elim (pop (d ∷ cs)) [ none ↦ none | some front ↦ some (c ∷ front) ]

-- The loop over the components, with what is normalized so far.
unfoldable pub lexical_components : List Component → List Component → Result (List Component)
lexical_components normalized [] = ok normalized
lexical_components normalized (cur_dir ∷ cs) = lexical_components normalized cs
lexical_components normalized (parent_dir ∷ cs) = elim (pop normalized) [
  | none ↦ err (invalid_input path_escapes_root)
  | some front ↦ lexical_components front cs
]
lexical_components normalized (prefix t ∷ cs) =
    lexical_components (normalized ++ (prefix t ∷ [])) cs
lexical_components normalized (root_dir ∷ cs) =
    lexical_components (normalized ++ (root_dir ∷ [])) cs
lexical_components normalized (normal t ∷ cs) =
    lexical_components (normalized ++ (normal t ∷ [])) cs

-- `str::strip_prefix`, the text first as the method has it
unfoldable pub strip_text : Text → Text → Option Text
strip_text text [] = some text
strip_text [] (b ∷ bs) = none
strip_text (a ∷ text) (b ∷ bs) = let rest = strip_text text bs in if a == b then rest else none

-- `replace('/', "\\")`
abbrev pub backslashes : Text → Text
backslashes t = map (λ b. if b == 47 then 92 else b) t

-- r"\\?\"
abbrev pub verbatim : Text
verbatim = 92 ∷ 92 ∷ 63 ∷ 92 ∷ []

abbrev pub without_verbatim : Text → Text
without_verbatim t = elim (strip_text t verbatim) [ none ↦ t | some rest ↦ rest ]

-- `file_name`: the last component, if it is a name
unfoldable pub file_name : List Component → Option Text
file_name [] = none
file_name (normal t ∷ []) = some t
file_name (_ ∷ []) = none
file_name (_ ∷ d ∷ cs) = file_name (d ∷ cs)

-- Whether `candidate` is equal to or lexically nested under `root`.
abbrev pub starts_with_backslash : Text → Bool
starts_with_backslash [] = false
starts_with_backslash (b ∷ _) = b == 92

abbrev pub is_child_suffix : Option Text → Bool
is_child_suffix none = false
is_child_suffix (some suffix) = starts_with_backslash suffix

unfoldable pub is_same_or_child : Text → Text → Bool
is_same_or_child root candidate =
    text_eq candidate root || is_child_suffix (strip_text candidate root)

module _ (platform : Platform) where
  unfoldable pub absolute : FilePath → Result FilePath
  absolute path =
      if platform.is_absolute path
      then ok path
      else (platform.current_dir >>= λ cwd. ok (platform.join cwd path))

  unfoldable pub lexical_path_text : FilePath → Result Text
  lexical_path_text path = absolute path >>= (λ whole.
      lexical_components [] whole.components
      >>= (λ normalized. ok (without_verbatim (backslashes (platform.lossy normalized)))))

  unfoldable pub normalize_path : FilePath → Result Text
  normalize_path path =
      lexical_path_text path >>= (λ text. ok (platform.to_lowercase (platform.nfc text)))

  unfoldable pub normalize_name : FilePath → Text
  normalize_name path =
      platform.to_lowercase
        (elim (file_name path.components) [ none ↦ [] | some name ↦ platform.nfc name ])

  module _ {E H : Type 0} (ports : Ports E H) where
    -- `blake3::hash(text)`
    unfoldable pub path_key : FilePath → Result Text
    path_key path =
        normalize_path path
        >>= (λ text. ok (ports.blake3_finalize (ports.blake3_update ports.blake3_new text)))

    -- b"exact-path-v1\0"
    abbrev pub exact_path_domain : Text
    exact_path_domain =
        101 ∷ 120 ∷ 97 ∷ 99 ∷ 116 ∷ 45 ∷ 112 ∷ 97 ∷ 116 ∷ 104 ∷ 45 ∷ 118 ∷ 49 ∷ 0 ∷ []

    unfoldable pub path_identity_key : FilePath → Result Text
    path_identity_key path = lexical_path_text path >>= (λ text. ok (
        ports.blake3_finalize
          (ports.blake3_update (ports.blake3_update ports.blake3_new exact_path_domain) text)))
