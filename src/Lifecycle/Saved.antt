-- ===== src/Lifecycle/Saved.antt =====
-- save_lifecycle_config and the reads after it, of cli/core/lifecycle.py
use quinn_ai.Prelude.{
  String, false, Option, none, some, [], Dict, lookup, insert, lookup-insert, ◌==◌, string_eq,
  if◌then◌else◌, Bool-cases, Option-cases, ◌≡◌, refl, subst, inl, inr, eq_iff, eq_refl, arith,
}
use quinn_ai.Lifecycle.Config.{
  LifecycleDict, Lifecycle, LifecycleStore, Validated, valid, lacks_keys, unless_empty, filled_text,
  config_text, load_from_database, resolve, try_source, built_in, clear_lifecycle_cache,
  get_lifecycle_for_type, save_lifecycle_config, value_or,
}

-- `json.dumps` and `json.loads`: what is written of this configuration is read back, and the empty
-- text is no JSON.
pub record JsonLaws (loads : String → Option LifecycleDict) (dumps : LifecycleDict → String)
    (c : LifecycleDict) : Type 0 where
  pub loads-dumps : loads (dumps c) ≡ some c
  pub loads_empty : loads "" ≡ none

-- the choice of a lifecycle, of the database's entry, the entries of the YAML file and the database's default
abbrev pub chosen :
    String → Option LifecycleDict → Dict LifecycleDict → Option LifecycleDict → Validated Lifecycle
unfolding lookup built_in
chosen bead_type own config default = try_source (unless_empty own) (
    try_source (lookup bead_type config) (
      try_source (lookup "default" config)
        (try_source (unless_empty default) (valid (built_in bead_type)))))

pub get_lifecycle_for_type-chosen :
    (loads : String → Option LifecycleDict) (bead_type : String) (s : LifecycleStore)
    → (get_lifecycle_for_type loads bead_type s).0
      ≡ chosen bead_type
          (load_from_database loads s bead_type)
          (value_or (value_or [] s.yaml) s.config_cache)
          (load_from_database loads s "default")
unfolding get_lifecycle_for_type load_from_database
get_lifecycle_for_type-chosen loads bead_type s =
    elim (Option-cases (unless_empty (load_from_database loads s bead_type))) [
      | inr (c, own) ↦ rw (get_lifecycle_for_type, own) refl
      | inl nothing ↦ elim (Option-cases s.config_cache) [
        | inl cold ↦ rw (get_lifecycle_for_type, nothing, cold) refl
        | inr (config, cached) ↦ rw (get_lifecycle_for_type, nothing, cached) refl
      ]
    ]

module _ (loads : String → Option LifecycleDict) (dumps : LifecycleDict → String)
    (c : LifecycleDict) (json : JsonLaws loads dumps c) where
  filled-dumps : filled_text (some (dumps c)) ≡ some (dumps c)
  filled-dumps = elim (Bool-cases (dumps c == "")) [
    | inr other ↦ rw other refl
    | inl blank ↦
        let same : dumps c ≡ "" = (eq_iff (dumps c) "").0 blank in
        let loaded : loads "" ≡ some c = subst (λ t. loads t ≡ some c) same json.loads-dumps in
        ground (arith, loaded, json.loads_empty)
  ]

  -- the store after a save into a database with these rows
  abbrev saved : String → String → Dict String → LifecycleStore → LifecycleStore
  unfolding insert
  saved path bead_type rows s =
      clear_lifecycle_cache
        (record s { databases = insert path (insert bead_type (dumps c) rows) s.databases })

  save-saved :
      (path bead_type : String) (rows : Dict String) (s : LifecycleStore)
      → lookup path s.databases ≡ some rows
      → save_lifecycle_config dumps path bead_type c s ≡ (valid tt, saved path bead_type rows s)
  unfolding save_lifecycle_config saved
  save-saved path bead_type rows s found = rw (save_lifecycle_config, found) refl

  text-saved :
      (path bead_type other : String) (rows : Dict String) (databases : Dict (Dict String))
      → lookup path databases ≡ some rows
      → config_text (insert path (insert bead_type (dumps c) rows) databases) path other
        ≡ (if bead_type == other then some (dumps c) else config_text databases path other)
  unfolding config_text
  text-saved path bead_type other rows databases found =
      rw
        (
          config_text,
          found,
          lookup-insert path path (insert bead_type (dumps c) rows) databases,
          eq_refl path,
          lookup-insert bead_type other (dumps c) rows,
        )
        (elim (Bool-cases (bead_type == other)) [
          | inl same ↦ rw same filled-dumps
          | inr differs ↦ rw differs refl
        ])

  -- what the saved database holds, by type
  load-saved :
      (path bead_type other : String) (rows : Dict String) (s : LifecycleStore)
      → s.db_path ≡ some path
      → lookup path s.databases ≡ some rows
      → load_from_database loads (saved path bead_type rows s) other
        ≡ (if bead_type == other then some c else load_from_database loads s other)
  unfolding load_from_database saved
  load-saved path bead_type other rows s at_path found =
      rw (load_from_database, at_path, text-saved path bead_type other rows s.databases found)
        (elim (Bool-cases (bead_type == other)) [
          | inl same ↦ rw same json.loads-dumps
          | inr differs ↦ rw differs refl
        ])

  -- Saving a configuration that is not empty, at the path from which the module reads, takes effect at
  -- once whatever was cached: the saved type's lifecycle is the one that the configuration
  -- describes, and for a type other than "default" every other type's lifecycle is as it was, read
  -- with the cache cleared.
  pub get_lifecycle_for_type-save_lifecycle_config :
      (path bead_type : String) (rows : Dict String) (s : LifecycleStore)
      → s.db_path ≡ some path
      → lookup path s.databases ≡ some rows
      → lacks_keys c ≡ false
      → (let after = (save_lifecycle_config dumps path bead_type c s).1 in
          (get_lifecycle_for_type loads bead_type after ≡ (resolve c, after))
          × ((other : String)
              → (bead_type == other) ≡ false
              → (bead_type == "default") ≡ false
              → (get_lifecycle_for_type loads other after).0
                ≡ (get_lifecycle_for_type loads other (clear_lifecycle_cache s)).0))
  unfolding get_lifecycle_for_type saved
  get_lifecycle_for_type-save_lifecycle_config path bead_type rows s at_path found filled =
      rw (save-saved path bead_type rows s found) (
        rw
            (
              get_lifecycle_for_type,
              load-saved path bead_type bead_type rows s at_path found,
              eq_refl bead_type,
              filled,
            )
            refl,
        λ other differs plain.
            rw
              (
                get_lifecycle_for_type-chosen loads other (saved path bead_type rows s),
                get_lifecycle_for_type-chosen loads other (clear_lifecycle_cache s),
                load-saved path bead_type other rows s at_path found,
                differs,
                load-saved path bead_type "default" rows s at_path found,
                plain,
              )
              refl,
      )
