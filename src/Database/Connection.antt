-- ===== src/Database/Connection.antt =====
-- go-ooo/database/database.go: which database is opened, and its migration.
use Prim.Native.String.{◌++◌ as ◌<>◌}
use xfund_router.Common.{String, ◌||◌, Option, none, some, Result, ok, err, if◌then◌else◌, str_eq}
use xfund_router.Common.Int.{ℤ, is_zero}
use xfund_router.Models.Tokens.{TokenContracts, DexTokens, DexPairs, VersionInfo}
use xfund_router.Gorm.{Gorm}
use xfund_router.Database.Migrations.{migrate_v0_to_v1}

-- The settings under `database`.
pub record DbConfig : Type 0 where
  pub dialect : String
  pub storage : String
  pub host : String
  pub port : ℤ
  pub user : String
  pub password : String
  pub database : String

-- `gorm.Open` with the two drivers, `AutoMigrate`, the text of an `int`, and the tables of a database
-- that the migration of versions works on.
pub record Driver (Db : Type 0) : Type 1 where
  pub open_sqlite : String → Result Db
  pub open_postgres : String → Result Db
  pub auto_migrate : Db → Option String × Db
  pub int_text : ℤ → String
  pub Float : Type 0
  pub pairs : Gorm (DexPairs Float)
  pub tokens : Gorm DexTokens
  pub contracts : Gorm TokenContracts
  pub versions : Gorm VersionInfo
  pub tables : Db → (pairs.Table × (tokens.Table × contracts.Table)) × versions.Table
  pub with_tables : (pairs.Table × (tokens.Table × contracts.Table)) × versions.Table → Db → Db

module _ {Db : Type 0} (r : Driver Db) where
  -- The error is that of `AutoMigrate`; the versions are migrated all the same.
  unfoldable pub migrate : Db → Option String × Db
  migrate db =
      let (e, db1) = r.auto_migrate db in
      (
        e,
        r.with_tables (migrate_v0_to_v1 r.pairs r.tokens r.contracts r.versions (r.tables db1)) db1,
      )

module _ {Db : Type 0} (r : Driver Db) (s : DbConfig) where
  abbrev pub dsn : String
  dsn =
      ("host=" <> s.host)
      <> ((" port=" <> r.int_text s.port)
          <> ((" user=" <> s.user)
              <> ((" dbname=" <> s.database)
                  <> ((" password=" <> s.password) <> " sslmode=disable"))))

  abbrev opened : Result Db → Result (Option Db)
  opened (ok db) = ok (some db)
  opened (err e) = err e

  unfoldable pub new_sqlite_db : Result (Option Db)
  new_sqlite_db = opened (r.open_sqlite s.storage)

  -- Without a host or a port, no database and no error.
  unfoldable pub new_postgres_db : Result (Option Db)
  new_postgres_db =
      if str_eq s.host "" || is_zero s.port then ok none else opened (r.open_postgres dsn)

  unfoldable pub new_db : Result (Option Db)
  new_db =
      if str_eq s.dialect "sqlite"
      then new_sqlite_db
      else if str_eq s.dialect "postgres"
      then new_postgres_db
      else err "no db dialect in config"

  abbrev migrated : Option String × Db → Option Db
  migrated (some e, db) = none
  migrated (none, db) = some db

  -- `initDatabase` of go-ooo/app/app.go; `none` is a panic, also that of `Migrate` of nil.
  abbrev with_db : Result (Option Db) → Option Db
  with_db (err e) = none
  with_db (ok none) = none
  with_db (ok (some db)) = migrated (migrate r db)

  unfoldable pub init_database : Option Db
  init_database = with_db new_db
