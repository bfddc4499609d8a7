-- ===== src/Database/Tokens.antt =====
-- go-ooo/database/queries.go, transactions.go and migrations.go: the contracts, tokens and pairs of
-- the exchanges, and the version of the schema.
use Prim.Native.String.{◌++◌ as ◌<>◌}
use xfund_router.Common.{
  ℕ, String, Bool, Option, none, some, Result, ok, err, value_or, error_of, str_eq, ◌&&◌, ◌||◌,
  ◌==◌, if◌then◌else◌,
}
use xfund_router.Models.Tokens.{
  TokenContracts, DexTokens, DexPairs, VersionInfo, no_contract, no_token, no_dex_pair, no_version,
}
use xfund_router.Gorm.{Gorm}

-- The row with the key that `Create` filled in, and the error.
abbrev pub created : {A : Type 0} → A → Result A → A × Option String
created row (ok a) = (a, none)
created row (err m) = (row, some m)

-- The zero row or the row, and the error.
abbrev pub looked_up : {A : Type 0} → A → Result A → A × Option String
looked_up zero_value r = (value_or zero_value r, error_of r)

module _ (g : Gorm TokenContracts) where
  abbrev pub is_contract : String → String → String → TokenContracts → Bool
  is_contract symbol address chain c =
      str_eq c.token_symbol symbol && (str_eq c.contract_address address && str_eq c.chain chain)

  unfoldable pub find_by_token_and_address :
      String → String → g.Table → Result TokenContracts × g.Table
  find_by_token_and_address symbol address t =
      g.first (λ c. str_eq c.token_symbol symbol && str_eq c.contract_address address) t

  unfoldable pub find_by_token_all :
      String → String → String → g.Table → Result TokenContracts × g.Table
  find_by_token_all symbol address chain t = g.first (is_contract symbol address chain) t

  unfoldable pub find_token_address_by_row_id : ℕ → g.Table → (String × Option String) × g.Table
  find_token_address_by_row_id id t =
      let (r, t') = g.first (λ c. c.id == id) t in
      (((value_or no_contract r).contract_address, error_of r), t')

  abbrev pub new_contract : String → String → String → TokenContracts
  new_contract symbol address chain = record no_contract {
    token_symbol = symbol;
    contract_address = address;
    chain = chain;
  }

  unfoldable pub insert_new_token_contract :
      String → String → String → g.Table → (TokenContracts × Option String) × g.Table
  insert_new_token_contract symbol address chain t =
      let (r, t') = g.create (new_contract symbol address chain) t in
      (created (new_contract symbol address chain) r, t')

  unfoldable pub find_or_insert_new_token_contract :
      String → String → String → g.Table → (TokenContracts × Option String) × g.Table
  find_or_insert_new_token_contract symbol address chain t =
      let (r, t1) = find_by_token_all symbol address chain t in
      if (value_or no_contract r).id == 0
      then insert_new_token_contract symbol address chain t1
      else (looked_up no_contract r, t1)

  unfoldable pub update_or_insert_new_token_contract :
      String → String → String → g.Table → (TokenContracts × Option String) × g.Table
  update_or_insert_new_token_contract symbol address chain t =
      let (r, t1) = find_by_token_and_address symbol address t in
      let row = record (value_or no_contract r) { contract_address = address } in
      if (value_or no_contract r).id == 0
      then insert_new_token_contract symbol address chain t1
      else let (m, t2) = g.save row t1 in ((row, m), t2)

module _ (g : Gorm DexTokens) where
  abbrev pub is_token : String → String → ℕ → DexTokens → Bool
  is_token symbol dex_name contracts_id c =
      str_eq c.token_symbol symbol
      && (str_eq c.dex_name dex_name && (c.token_contracts_id == contracts_id))

  unfoldable pub find_by_dex_token_symbol : String → String → g.Table → Result DexTokens × g.Table
  find_by_dex_token_symbol symbol dex_name t =
      g.first (λ c. str_eq c.token_symbol symbol && str_eq c.dex_name dex_name) t

  unfoldable pub find_by_dex_token_all : String → String → ℕ → g.Table → Result DexTokens × g.Table
  find_by_dex_token_all symbol dex_name contracts_id t =
      g.first (is_token symbol dex_name contracts_id) t

  abbrev pub new_token : String → ℕ → String → String → DexTokens
  new_token symbol contracts_id dex_name chain = record {
    id = 0;
    dex_name = dex_name;
    token_symbol = symbol;
    token_contracts_id = contracts_id;
    chain = chain;
  }

  unfoldable pub insert_new_dex_token :
      String → ℕ → String → String → g.Table → (DexTokens × Option String) × g.Table
  insert_new_dex_token symbol contracts_id dex_name chain t =
      let (r, t') = g.create (new_token symbol contracts_id dex_name chain) t in
      (created (new_token symbol contracts_id dex_name chain) r, t')

  unfoldable pub find_or_insert_new_dex_token :
      String → ℕ → String → String → g.Table → (DexTokens × Option String) × g.Table
  find_or_insert_new_dex_token symbol contracts_id dex_name chain t =
      let (r, t1) = find_by_dex_token_all symbol dex_name contracts_id t in
      if (value_or no_token r).id == 0
      then insert_new_dex_token symbol contracts_id dex_name chain t1
      else (looked_up no_token r, t1)

-- `fmt.Sprintf("%s-%s", t0Symbol, t1Symbol)`.
abbrev pub pair_name : String → String → String
pair_name base target = (base <> "-") <> target

-- `before x y` is `x > y` on `float64`.
module _ {F : Type 0} (zero_float : F) (gt : F → F → Bool) (g : Gorm (DexPairs F)) where
  abbrev pub is_pair_of : String → String → String → DexPairs F → Bool
  is_pair_of base target dex_name p =
      (str_eq p.pair (pair_name base target) || str_eq p.pair (pair_name target base))
      && str_eq p.dex_name dex_name

  -- The pair of either order with the highest reserve.
  unfoldable pub find_by_dex_pair_name :
      String → String → String → g.Table → Result (DexPairs F) × g.Table
  find_by_dex_pair_name base target dex_name t =
      g.top (is_pair_of base target dex_name) (λ p q. gt p.reserve_usd q.reserve_usd) t

  abbrev pub new_dex_pair : String → String → String → String → ℕ → ℕ → F → DexPairs F
  new_dex_pair t0_symbol t1_symbol address dex_name t0_id t1_id reserve_usd = record {
    id = 0;
    dex_name = dex_name;
    pair = pair_name t0_symbol t1_symbol;
    t0_dex_token_id = t0_id;
    t1_dex_token_id = t1_id;
    t0_symbol = t0_symbol;
    t1_symbol = t1_symbol;
    contract_address = address;
    reserve_usd = reserve_usd;
  }

  unfoldable pub insert_new_dex_pair :
      String
      → String
      → String
      → String
      → ℕ
      → ℕ
      → F
      → g.Table
      → (DexPairs F × Option String) × g.Table
  insert_new_dex_pair t0_symbol t1_symbol address dex_name t0_id t1_id reserve_usd t =
      let row = new_dex_pair t0_symbol t1_symbol address dex_name t0_id t1_id reserve_usd in
      let (r, t') = g.create row t in (created row r, t')

  unfoldable pub find_or_insert_new_dex_pair :
      String
      → String
      → String
      → String
      → ℕ
      → ℕ
      → F
      → g.Table
      → (DexPairs F × Option String) × g.Table
  find_or_insert_new_dex_pair t0_symbol t1_symbol address dex_name t0_id t1_id reserve_usd t =
      let (r, t1) = find_by_dex_pair_name t0_symbol t1_symbol dex_name t in
      if (value_or (no_dex_pair zero_float) r).id == 0
      then insert_new_dex_pair t0_symbol t1_symbol address dex_name t0_id t1_id reserve_usd t1
      else (looked_up (no_dex_pair zero_float) r, t1)

  unfoldable pub update_or_insert_new_dex_pair :
      String → String → String → String → ℕ → ℕ → g.Table → Option String × g.Table
  update_or_insert_new_dex_pair t0_symbol t1_symbol address dex_name t0_id t1_id t =
      let (r, t1) = find_by_dex_pair_name t0_symbol t1_symbol dex_name t in
      let old = value_or (no_dex_pair zero_float) r in
      let (c, t2) =
        g.create (new_dex_pair t0_symbol t1_symbol address dex_name t0_id t1_id zero_float) t1 in
      if old.id == 0
      then (error_of c, t2)
      else g.save
          (record old {
            contract_address = address;
            pair = pair_name t0_symbol t1_symbol;
            t0_dex_token_id = t0_id;
            t1_dex_token_id = t1_id;
          })
          t1

module _ (g : Gorm VersionInfo) where
  unfoldable pub get_current_db_schema_version : g.Table → Result VersionInfo × g.Table
  get_current_db_schema_version t = g.first (λ v. str_eq v.version_type "db_schema") t

  unfoldable pub set_db_schema_version : ℕ → g.Table → Option String × g.Table
  set_db_schema_version new_version t =
      let (r, t1) = get_current_db_schema_version t in
      let (c, t2) =
        g.create (record no_version { version_type = "db_schema"; current_version = new_version })
          t1 in
      let old = value_or no_version r in
      if old.id == 0
      then (error_of c, t2)
      else g.save (record old { current_version = new_version }) t1
