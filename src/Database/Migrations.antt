-- ===== src/Database/Migrations.antt =====
-- go-ooo/database/migrations.go: the schema of version 0 brought to version 1.
pub mod Once
pub mod Tests
use xfund_router.Common.{value_or, ◌==◌, if◌then◌else◌}
use xfund_router.Models.Tokens.{TokenContracts, DexTokens, DexPairs, VersionInfo, no_version}
use xfund_router.Gorm.{Gorm}
use xfund_router.Database.Tokens.{get_current_db_schema_version, set_db_schema_version}

module _ {F : Type 0} (pairs : Gorm (DexPairs F)) (tokens : Gorm DexTokens)
    (contracts : Gorm TokenContracts) (versions : Gorm VersionInfo) where
  abbrev pub Tables : Type 0
  Tables = pairs.Table × (tokens.Table × contracts.Table)

  -- Errors are not looked at.
  unfoldable pub v0_to_v1_delete_adhoc_token_data : Tables → Tables
  v0_to_v1_delete_adhoc_token_data (tp, (tt, tc)) =
      ((pairs.clear tp).1, ((tokens.clear tt).1, (contracts.clear tc).1))

  -- A version that cannot be read counts as 0.
  unfoldable pub migrate_v0_to_v1 : Tables × versions.Table → Tables × versions.Table
  migrate_v0_to_v1 (t, tv) =
      let (r, tv1) = get_current_db_schema_version versions tv in
      let (e, tv2) = set_db_schema_version versions 1 tv1 in
      if (value_or no_version r).current_version == 0
      then (v0_to_v1_delete_adhoc_token_data t, tv2)
      else (t, tv1)
