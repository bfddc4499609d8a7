-- ===== src/Database/Migrations/Tests.antt =====
-- A database of version 0 that is migrated twice.
use xfund_router.Common.{◌≡◌, ◌⊎◌, refl, true, false, [], ◌∷◌, ℕ}
use xfund_router.Models.Tokens.{TokenContracts, DexTokens, DexPairs, VersionInfo}
use xfund_router.Gorm.{Gorm}
use xfund_router.Gorm.Memory.{memory, memory-IsGorm}
use xfund_router.Gorm.Available.{memory-IsUp}
use xfund_router.Database.Schemas.{dex_pair_schema, token_schema, contract_schema, version_schema}
use xfund_router.Database.Migrations.{Tables, migrate_v0_to_v1}
use xfund_router.Database.Migrations.Once.{
  is_migrated, IsCleared, HasVersion, migrate_v0_to_v1-once,
}

abbrev pairs : Gorm (DexPairs ℕ)
pairs = memory dex_pair_schema

abbrev tokens : Gorm DexTokens
tokens = memory token_schema

abbrev contracts : Gorm TokenContracts
contracts = memory contract_schema

abbrev versions : Gorm VersionInfo
versions = memory version_schema

abbrev old : Tables pairs tokens contracts versions
old = (
  [],
  ([], record { id = 3; token_symbol = "FUND"; contract_address = "0xfd"; chain = "eth" } ∷ []),
)

migrate_v0_to_v1-once_example :
    let (t1, tv1) = migrate_v0_to_v1 pairs tokens contracts versions (old, []) in
    let (t2, tv2) = migrate_v0_to_v1 pairs tokens contracts versions (t1, tv1) in
    (((is_migrated [] ≡ true) × (t1 ≡ old) × (tv1 ≡ []))
      ⊎ ((is_migrated [] ≡ false)
          × IsCleared pairs tokens contracts versions t1
          × HasVersion versions 1 tv1))
    × (t2 ≡ t1)
    × (tv2 ≡ tv1)
migrate_v0_to_v1-once_example =
    migrate_v0_to_v1-once pairs tokens contracts versions
      (memory-IsGorm version_schema (λ n r. refl)) (memory-IsUp version_schema)
      (memory-IsGorm dex_pair_schema (λ n r. refl)) (memory-IsGorm token_schema (λ n r. refl))
      (memory-IsGorm contract_schema (λ n r. refl)) (memory-IsUp dex_pair_schema)
      (memory-IsUp token_schema) (memory-IsUp contract_schema) old [] tt refl
