-- ===== src/Filters/Listed.antt =====
-- The filter of crates/dedupe-core/src/filters.rs against the configuration it was compiled from.
use safe_duplicate_finder.Base.{
  ℕ, ◌≡◌, refl, ◌∙◌, ap, sym, ◌⊎◌, inl, inr, Bool, true, false, not, ◌&&◌, ◌||◌, Option, none, some,
  List, [], ◌∷◌, map, any, keep_if, count, Text, text_eq, text_eq→eq, cmp_text, sort_by,
  sort_by-count, ltb, leb, if◌then◌else◌, Bool-cases, arith,
}
use safe_duplicate_finder.Paths.{FilePath}
use safe_duplicate_finder.Error.{Result, ok, err, ◌>>=◌}
use safe_duplicate_finder.PathNormalization.{Platform, file_name}
use safe_duplicate_finder.Filters.{
  FilterConfig, Globs, CompiledFilter, is_nil, starts_with_dot, holds_of, contains, no_texts,
  dedup_texts_after, dedup_texts, folded, normalize_extensions, lower_extension, compile_globs,
  new_filter, allows_with_attributes,
}

any-count : {A : Type 0} (p : A → Bool) (xs : List A) → any p xs ≡ leb 1 (count p xs)
any-count p [] = refl
any-count p (x ∷ xs) = ground (arith, any-count p xs)

any-keep_if :
    {A B : Type 0} (p q : B → Bool) (f : A → B) (xs : List A)
    → any p (keep_if q (map f xs)) ≡ any (λ x. q (f x) && p (f x)) xs
any-keep_if p q f [] = refl
any-keep_if p q f (x ∷ xs) = ground (arith, any-keep_if p q f xs)

any-dedup_texts_after :
    (p : Text → Bool) (last : Text) (texts : List Text)
    → any p (last ∷ dedup_texts_after last texts) ≡ any p (last ∷ texts)
unfolding dedup_texts_after
any-dedup_texts_after p last [] = refl
any-dedup_texts_after p last (t ∷ texts) = elim (Bool-cases (text_eq t last)) [
  | inl e ↦
      rw (e, dedup_texts_after)
        (ground (arith, any-dedup_texts_after p last texts, ap p (text_eq→eq t last e)))
  | inr e ↦ rw (e, dedup_texts_after) (ground (arith, any-dedup_texts_after p t texts))
]

any-dedup_texts : (p : Text → Bool) (texts : List Text) → any p (dedup_texts texts) ≡ any p texts
unfolding dedup_texts
any-dedup_texts p [] = refl
any-dedup_texts p (t ∷ texts) = any-dedup_texts_after p t texts

module _ (platform : Platform) where
  -- A test on the normalized extensions is one on the given ones, less those that are only dots.
  any-normalize_extensions :
      (p : Text → Bool) (values : List Text)
      → any p (normalize_extensions platform values)
        ≡ any (λ v. not (is_nil (folded platform v)) && p (folded platform v)) values
  unfolding normalize_extensions
  any-normalize_extensions p values =
      let kept = keep_if (λ v. not (is_nil v)) (map (folded platform) values) in
      any-dedup_texts p (sort_by cmp_text kept)
      ∙ any-count p (sort_by cmp_text kept)
      ∙ ap (leb 1) (sort_by-count cmp_text p kept)
      ∙ sym (any-count p kept)
      ∙ any-keep_if p (λ v. not (is_nil v)) (folded platform) values

  -- The extension is one of those that are given, up to case and leading dots.
  abbrev pub is_listed : List Text → Text → Bool
  is_listed values extension =
      any (λ v. not (is_nil (folded platform v)) && text_eq extension (folded platform v)) values

  abbrev pub lists_nothing : List Text → Bool
  lists_nothing values = not (any (λ v. not (is_nil (folded platform v)) && true) values)

  contains-normalize_extensions :
      (values : List Text) (o : Option Text)
      → holds_of o (contains (normalize_extensions platform values)) ≡ holds_of o (is_listed values)
  contains-normalize_extensions values none = refl
  contains-normalize_extensions values (some t) = any-normalize_extensions (text_eq t) values

  no_texts-any : (texts : List Text) → no_texts texts ≡ not (any (λ _. true) texts)
  no_texts-any [] = refl
  no_texts-any (t ∷ texts) = refl

  no_texts-normalize_extensions :
      (values : List Text) → no_texts (normalize_extensions platform values) ≡ lists_nothing values
  no_texts-normalize_extensions values =
      no_texts-any (normalize_extensions platform values)
      ∙ ap not (any-normalize_extensions (λ _. true) values)

  module _ {G S : Type 0} (globs : Globs G S) (config : FilterConfig) where
    -- What the configuration asks of a file.
    abbrev pub meets : S → FilePath → ℕ → Bool → Bool → Bool
    meets excluded path size_bytes hidden_attribute system_attribute =
        leb config.minimum_size size_bytes
        && (not (globs.is_match excluded path)
            && (not (config.skip_system && system_attribute)
                && (not (
                      config.skip_hidden
                      && (hidden_attribute || holds_of (file_name path.components) starts_with_dot))
                    && (not (
                          holds_of (lower_extension platform path)
                            (is_listed config.exclude_extensions))
                        && (lists_nothing config.include_extensions
                            || holds_of (lower_extension platform path)
                                (is_listed config.include_extensions))))))

    abbrev pub Compilation : Result (CompiledFilter S) → Type 0
    Compilation (ok filter) =
        (compiled : List G) × (compile_globs platform globs config.exclude_globs ≡ ok compiled)
        × (globs.build compiled ≡ ok filter.excluded)
        × ((path : FilePath) (size : ℕ) (hidden system : Bool)
            → allows_with_attributes platform globs filter path size hidden system
              ≡ meets filter.excluded path size hidden system)
    Compilation (err e) =
        (compile_globs platform globs config.exclude_globs ≡ err e)
        ⊎ ((compiled : List G) × (globs.build compiled ≡ err e))

    tests_agree :
        (a a' b c d x x' y y' z z' : Bool)
        → not a ≡ a'
        → x ≡ x'
        → y ≡ y'
        → z ≡ z'
        → (if a || b
            then false
            else if c
            then false
            else if d
            then false
            else if x
            then false
            else (y || z))
          ≡ (a' && (not b && (not c && (not d && (not x' && (y' || z'))))))
    tests_agree a a' b c d x x' y y' z z' h e f g = ground (arith, h, e, f, g)

    compiled_allows :
        (excluded : S) (path : FilePath) (size : ℕ) (hidden system : Bool)
        → allows_with_attributes platform globs
            (record {
              config = record config {
                include_extensions = normalize_extensions platform config.include_extensions;
                exclude_extensions = normalize_extensions platform config.exclude_extensions;
              };
              excluded = excluded;
            })
            path
            size
            hidden
            system
          ≡ meets excluded path size hidden system
    unfolding allows_with_attributes
    compiled_allows excluded path size hidden system =
        tests_agree (ltb size config.minimum_size) _ (globs.is_match excluded path)
          (config.skip_system && system)
          (config.skip_hidden && (hidden || holds_of (file_name path.components) starts_with_dot)) _
          _ _ _ _ _ (not_less size config.minimum_size)
          (contains-normalize_extensions config.exclude_extensions (lower_extension platform path))
          (no_texts-normalize_extensions config.include_extensions)
          (contains-normalize_extensions config.include_extensions (lower_extension platform path))
      where
        not_less : (a b : ℕ) → not (ltb a b) ≡ leb b a
        not_less a b = ground arith

    -- A compiled filter allows a file exactly if it meets the configuration as it was given: it is
    -- large enough, matches no excluded pattern, is neither a system nor a hidden file where
    -- those are skipped, its extension is not excluded, and it is included, or nothing is listed
    -- to include. Case and leading dots of the extensions listed do not matter, nor their order.
    -- Compilation fails only where a pattern or the set of them fails to compile.
    pub new_filter-Compilation : Compilation (new_filter platform globs config)
    unfolding new_filter
    new_filter-Compilation = by_globs (compile_globs platform globs config.exclude_globs) refl
      where
        finish : List G → S → CompiledFilter S
        finish compiled excluded = record {
          config = record config {
            include_extensions = normalize_extensions platform config.include_extensions;
            exclude_extensions = normalize_extensions platform config.exclude_extensions;
          };
          excluded = excluded;
        }

        by_set :
            (compiled : List G)
            → compile_globs platform globs config.exclude_globs ≡ ok compiled
            → (r : Result S) → globs.build compiled ≡ r
            → Compilation (r >>= (λ excluded. ok (finish compiled excluded)))
        by_set compiled e (ok excluded) f =
            (compiled, e, f, (λ path size h s. compiled_allows excluded path size h s))
        by_set compiled e (err x) f = inr (compiled, f)

        by_globs :
            (r : Result (List G))
            → compile_globs platform globs config.exclude_globs ≡ r
            → Compilation (
                r >>= (λ compiled.
                  globs.build compiled >>= (λ excluded. ok (finish compiled excluded))))
        by_globs (ok compiled) e = by_set compiled e (globs.build compiled) refl
        by_globs (err x) e = inl e
