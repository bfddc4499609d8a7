-- ===== src/Database/Migrations/Once.antt =====
-- go-ooo/database/migrations.go: the migration is done once.
use xfund_router.Common.{
  ℕ, ◌≡◌, ◌⊎◌, refl, ◌∙◌, ap, Bool, true, false, none, some, List, [], ◌∷◌, str_eq, find?, any, not,
  value_or, ◌==◌, arith, Option-cases, Result-cases, Bool-cases, inl, inr,
}
use xfund_router.Models.Tokens.{TokenContracts, DexTokens, DexPairs, VersionInfo, no_version}
use xfund_router.Gorm.{Gorm, IsGorm, contains_id, Distinct}
use xfund_router.Gorm.Rows.{find?-append_none, find?-replace_self, contains_id-find?, find?-sound}
use xfund_router.Gorm.Available.{IsUp}
use xfund_router.Database.Schemas.{dex_pair_schema, token_schema, contract_schema, version_schema}
use xfund_router.Database.Tokens.{get_current_db_schema_version, set_db_schema_version}
use xfund_router.Database.Migrations.{Tables, v0_to_v1_delete_adhoc_token_data, migrate_v0_to_v1}

abbrev pub is_schema : VersionInfo → Bool
is_schema v = str_eq v.version_type "db_schema"

no_clash : (v : VersionInfo) (l : List VersionInfo) → any (version_schema.clash v) l ≡ false
no_clash v [] = refl
no_clash v (x ∷ xs) = no_clash v xs

-- A version other than 0 is recorded.
abbrev pub is_migrated : List VersionInfo → Bool
is_migrated l = elim (find? is_schema l) [ none ↦ false | some v ↦ not (v.current_version == 0) ]

module _ (g : Gorm VersionInfo) where
  -- The recorded version of the schema is `n`.
  abbrev pub HasVersion : ℕ → g.Table → Type 0
  HasVersion n t =
      (v : VersionInfo) × (find? is_schema (g.rows t) ≡ some v) × (v.current_version ≡ n)

  HasVersion-is_migrated : (t : g.Table) → HasVersion 1 t → is_migrated (g.rows t) ≡ true
  HasVersion-is_migrated t (v, found, one) = ground (arith, found, one)

module _ (g : Gorm VersionInfo) (law : IsGorm version_schema g) (up : IsUp version_schema g) where
  first_missing :
      (t : g.Table)
      → find? is_schema (g.rows t) ≡ none
      → value_or no_version (g.first is_schema t).0 ≡ no_version
  first_missing t missing = elim (Result-cases (g.first is_schema t).0) [
    | inl (v, p) ↦ absurd (ground (arith, law.first_ok is_schema t v p, missing))
    | inr (e, p) ↦ rw p refl
  ]

  add_version-HasVersion :
      (n : ℕ) (t : g.Table)
      → find? is_schema (g.rows t) ≡ none
      → HasVersion g n
          (g.create (record no_version { version_type = "db_schema"; current_version = n }) t).1
  add_version-HasVersion n t missing =
      let new = record no_version { version_type = "db_schema"; current_version = n } in
      let (v, made) = up.create_up new t (no_clash new (g.rows t)) in
      let (same, key, fresh, single, rows) = law.create_ok new v t made in
      let is : is_schema v ≡ true = ap is_schema same in
      (
        v,
        ap (find? is_schema) rows
            ∙ find?-append_none is_schema (g.rows t) (v ∷ []) missing
            ∙ rw is refl,
        ap (λ x. x.current_version) same,
      )

  save_version-HasVersion :
      (n : ℕ) (t : g.Table) (v : VersionInfo)
      → Distinct version_schema (g.rows t)
      → find? is_schema (g.rows t) ≡ some v
      → HasVersion g n (g.save (record v { current_version = n }) t).1
  save_version-HasVersion n t v d found =
      let new = record v { current_version = n } in
      let there = contains_id-find? version_schema is_schema (g.rows t) v found in
      let is = find?-sound is_schema (g.rows t) v found in
      (
        new,
        ap (find? is_schema) (law.save_ok new t there (up.save_up new t))
            ∙ find?-replace_self version_schema is_schema v new (g.rows t) d found refl is,
        refl,
      )

  -- No row has the key 0.
  key_above :
      (t : g.Table) (v : VersionInfo)
      → contains_id version_schema 0 (g.rows t) ≡ false
      → find? is_schema (g.rows t) ≡ some v
      → (v.id == 0) ≡ false
  key_above t v keys found =
      ground (arith, contains_id-find? version_schema is_schema (g.rows t) v found)

  set_db_schema_version-HasVersion :
      (n : ℕ) (t : g.Table)
      → Distinct version_schema (g.rows t)
      → contains_id version_schema 0 (g.rows t) ≡ false
      → HasVersion g n (set_db_schema_version g n t).1
  unfolding set_db_schema_version get_current_db_schema_version
  set_db_schema_version-HasVersion n t d keys =
      let t1 = (g.first is_schema t).1 in
      let same = law.first_rows is_schema t in
      let same_search = ap (find? is_schema) same in
      elim (Option-cases (find? is_schema (g.rows t))) [
        | inl p ↦ rw (first_missing t p) (add_version-HasVersion n t1 (same_search ∙ p))
        | inr (v, p) ↦
            rw (up.first_up is_schema t v p, key_above t v keys p)
              (save_version-HasVersion n t1 v (rw same d) (same_search ∙ p))
      ]

module _ {F : Type 0} (pairs : Gorm (DexPairs F)) (tokens : Gorm DexTokens)
    (contracts : Gorm TokenContracts) (versions : Gorm VersionInfo) where
  -- No row of the tables of ad-hoc prices is left.
  abbrev pub IsCleared : Tables pairs tokens contracts versions → Type 0
  IsCleared (tp, (tt, tc)) = (pairs.rows tp ≡ []) × (tokens.rows tt ≡ []) × (contracts.rows tc ≡ [])

module _ {F : Type 0} (pairs : Gorm (DexPairs F)) (tokens : Gorm DexTokens)
    (contracts : Gorm TokenContracts) (versions : Gorm VersionInfo)
    (law : IsGorm version_schema versions) (up : IsUp version_schema versions) where
  abbrev run :
      Tables pairs tokens contracts versions × versions.Table
      → Tables pairs tokens contracts versions × versions.Table
  run = migrate_v0_to_v1 pairs tokens contracts versions

  migrate_v0_to_v1-idle :
      (t : Tables pairs tokens contracts versions) (tv : versions.Table)
      → is_migrated (versions.rows tv) ≡ true
      → ((run (t, tv)).0 ≡ t) × (versions.rows (run (t, tv)).1 ≡ versions.rows tv)
  unfolding migrate_v0_to_v1 get_current_db_schema_version
  migrate_v0_to_v1-idle t tv h = elim (Option-cases (find? is_schema (versions.rows tv))) [
    | inl p ↦ absurd (ground (arith, h, p))
    | inr (v, p) ↦
        let above : (v.current_version == 0) ≡ false = ground (arith, h, p) in
        rw (up.first_up is_schema tv v p, above) (refl, law.first_rows is_schema tv)
  ]

  module _ (pair_law : IsGorm dex_pair_schema pairs) (token_law : IsGorm token_schema tokens)
      (contract_law : IsGorm contract_schema contracts) (pair_up : IsUp dex_pair_schema pairs)
      (token_up : IsUp token_schema tokens) (contract_up : IsUp contract_schema contracts) where
    cleared :
        (t : Tables pairs tokens contracts versions)
        → IsCleared pairs tokens contracts versions
            (v0_to_v1_delete_adhoc_token_data pairs tokens contracts versions t)
    unfolding v0_to_v1_delete_adhoc_token_data
    cleared (tp, (tt, tc)) = (
      pair_law.clear_ok tp (pair_up.clear_up tp),
      token_law.clear_ok tt (token_up.clear_up tt),
      contract_law.clear_ok tc (contract_up.clear_up tc),
    )

    migrate_v0_to_v1-clears :
        (t : Tables pairs tokens contracts versions) (tv : versions.Table)
        → is_migrated (versions.rows tv) ≡ false
        → Distinct version_schema (versions.rows tv)
        → contains_id version_schema 0 (versions.rows tv) ≡ false
        → IsCleared pairs tokens contracts versions (run (t, tv)).0
          × HasVersion versions 1 (run (t, tv)).1
    unfolding migrate_v0_to_v1 get_current_db_schema_version
    migrate_v0_to_v1-clears t tv h d keys =
        let tv1 = (versions.first is_schema tv).1 in
        let same = law.first_rows is_schema tv in
        let set =
          set_db_schema_version-HasVersion versions law up 1 tv1 (rw same d) (rw same keys) in
        elim (Option-cases (find? is_schema (versions.rows tv))) [
          | inl p ↦ rw (first_missing versions law up tv p) (cleared t, set)
          | inr (v, p) ↦
              let old : (v.current_version == 0) ≡ true = ground (arith, h, p) in
              rw (up.first_up is_schema tv v p, old) (cleared t, set)
        ]

    -- With tables that keep their promises and answer, and no primary key twice or 0 in the table
    -- of versions, the migration either finds a schema version other than 0 and changes no table,
    -- or finds none and leaves the three tables of ad-hoc prices empty and the version 1; and a
    -- second migration changes nothing.
    pub migrate_v0_to_v1-once :
        (t : Tables pairs tokens contracts versions) (tv : versions.Table)
        → Distinct version_schema (versions.rows tv)
        → contains_id version_schema 0 (versions.rows tv) ≡ false
        → let (t1, tv1) = migrate_v0_to_v1 pairs tokens contracts versions (t, tv) in
          let (t2, tv2) = migrate_v0_to_v1 pairs tokens contracts versions (t1, tv1) in
          (((is_migrated (versions.rows tv) ≡ true)
              × (t1 ≡ t)
              × (versions.rows tv1 ≡ versions.rows tv))
            ⊎ ((is_migrated (versions.rows tv) ≡ false)
                × IsCleared pairs tokens contracts versions t1
                × HasVersion versions 1 tv1))
          × (t2 ≡ t1)
          × (versions.rows tv2 ≡ versions.rows tv1)
    migrate_v0_to_v1-once t tv d keys = elim (Bool-cases (is_migrated (versions.rows tv))) [
      | inl p ↦
          let (same, rows) = migrate_v0_to_v1-idle t tv p in
          let (still, kept) = migrate_v0_to_v1-idle _ _ (ap is_migrated rows ∙ p) in
          (inl (p, same, rows), still, kept)
      | inr p ↦
          let (empty, (v, found, one)) = migrate_v0_to_v1-clears t tv p d keys in
          let (still, kept) =
            migrate_v0_to_v1-idle _ _ (HasVersion-is_migrated versions _ (v, found, one)) in
          (inr (p, empty, (v, found, one)), still, kept)
    ]
