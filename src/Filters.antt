-- ===== src/Filters.antt =====
-- crates/dedupe-core/src/filters.rs: which files a scan looks at, by path, size and attributes.
pub mod Listed
use safe_duplicate_finder.Base.{
  ℕ, Bool, true, false, not, ◌&&◌, ◌||◌, Option, none, some, List, [], ◌∷◌, map, any, keep_if, Text,
  text_eq, cmp_text, sort_by, ltb, ◌==◌, if◌then◌else◌,
}
use safe_duplicate_finder.Paths.{FilePath}
use safe_duplicate_finder.Error.{Result, ok, err, ◌>>=◌}
use safe_duplicate_finder.PathNormalization.{Platform, file_name}

pub record FilterConfig : Type 0 where
  pub include_extensions : List Text
  pub exclude_extensions : List Text
  pub exclude_globs : List Text
  pub minimum_size : ℕ
  pub skip_hidden : Bool
  pub skip_system : Bool

-- `Default`, with "pdf", "epub" and "mobi"
abbrev pub default_filter : FilterConfig
default_filter = record {
  include_extensions =
      (112 ∷ 100 ∷ 102 ∷ []) ∷ (101 ∷ 112 ∷ 117 ∷ 98 ∷ []) ∷ (109 ∷ 111 ∷ 98 ∷ 105 ∷ []) ∷ [];
  exclude_extensions = [];
  exclude_globs = [];
  minimum_size = 0;
  skip_hidden = true;
  skip_system = true;
}

-- The crate globset: a pattern `G`, a set of patterns `S`.
pub record Globs (G S : Type 0) : Type 0 where
  pub new_glob : Text → Result G
  pub build : List G → Result S
  pub is_match : S → FilePath → Bool

pub record CompiledFilter (S : Type 0) : Type 0 where
  pub config : FilterConfig
  pub excluded : S

-- '.'
abbrev pub dot : ℕ
dot = 46

-- `trim_start_matches('.')`
unfoldable pub trim_dots : Text → Text
trim_dots [] = []
trim_dots (b ∷ bs) = let rest = trim_dots bs in if b == dot then rest else b ∷ bs

abbrev pub is_nil : Text → Bool
is_nil [] = true
is_nil (_ ∷ _) = false

abbrev pub starts_with_dot : Text → Bool
starts_with_dot [] = false
starts_with_dot (b ∷ _) = b == dot

abbrev pub holds_of : Option Text → (Text → Bool) → Bool
holds_of none p = false
holds_of (some t) p = p t

abbrev pub contains : List Text → Text → Bool
contains texts t = any (text_eq t) texts

abbrev pub no_texts : List Text → Bool
no_texts [] = true
no_texts (_ ∷ _) = false

-- `dedup` behind a text
unfoldable pub dedup_texts_after : Text → List Text → List Text
dedup_texts_after last [] = []
dedup_texts_after last (t ∷ texts) = elim (text_eq t last) [
  | true ↦ dedup_texts_after last texts
  | false ↦ t ∷ dedup_texts_after t texts
]

unfoldable pub dedup_texts : List Text → List Text
dedup_texts [] = []
dedup_texts (t ∷ texts) = t ∷ dedup_texts_after t texts

-- What stands behind the last dot of a text, if there is one.
unfoldable pub after_last_dot : Text → Option Text
after_last_dot [] = none
after_last_dot (b ∷ bs) = elim (after_last_dot bs) [
  | some rest ↦ some rest
  | none ↦ if b == dot then some bs else none
]

-- `Path::extension`: a dot in front of the name begins no extension
unfoldable pub extension_of : Option Text → Option Text
extension_of none = none
extension_of (some []) = none
extension_of (some (b ∷ bs)) = after_last_dot bs

module _ (platform : Platform) where
  -- `value.trim_start_matches('.').to_lowercase()`
  abbrev pub folded : Text → Text
  folded value = platform.to_lowercase (trim_dots value)

  unfoldable pub normalize_extensions : List Text → List Text
  normalize_extensions values =
      dedup_texts (sort_by cmp_text (keep_if (λ v. not (is_nil v)) (map folded values)))

  abbrev pub lower_extension : FilePath → Option Text
  lower_extension path = elim (extension_of (file_name path.components)) [
    | none ↦ none
    | some extension ↦ some (platform.to_lowercase extension)
  ]

  module _ {G S : Type 0} (globs : Globs G S) where
    unfoldable pub compile_globs : List Text → Result (List G)
    compile_globs [] = ok []
    compile_globs (pattern ∷ patterns) =
        globs.new_glob pattern >>= (λ glob. compile_globs patterns >>= (λ rest. ok (glob ∷ rest)))

    -- `CompiledFilter::new`
    unfoldable pub new_filter : FilterConfig → Result (CompiledFilter S)
    new_filter config = compile_globs config.exclude_globs >>= (λ compiled.
        globs.build compiled >>= (λ excluded. ok (record {
          config = record config {
            include_extensions = normalize_extensions config.include_extensions;
            exclude_extensions = normalize_extensions config.exclude_extensions;
          };
          excluded = excluded;
        })))

    unfoldable pub allows_with_attributes : CompiledFilter S → FilePath → ℕ → Bool → Bool → Bool
    allows_with_attributes filter path size_bytes hidden_attribute system_attribute =
        let config = filter.config in
        let extension = lower_extension path in
        if ltb size_bytes config.minimum_size || globs.is_match filter.excluded path
        then false
        else if config.skip_system && system_attribute
        then false
        else if config.skip_hidden
            && (hidden_attribute || holds_of (file_name path.components) starts_with_dot)
        then false
        else if holds_of extension (contains config.exclude_extensions)
        then false
        else (no_texts config.include_extensions
            || holds_of extension (contains config.include_extensions))

    abbrev pub allows : CompiledFilter S → FilePath → ℕ → Bool
    allows filter path size_bytes = allows_with_attributes filter path size_bytes false false
