-- ===== src/Models/Tokens.antt =====
-- go-ooo/database/models: the contracts, tokens and pairs of the exchanges, and the schema version.
use xfund_router.Common.{ℕ, String}

pub record TokenContracts : Type 0 where
  pub id : ℕ
  pub token_symbol : String
  pub contract_address : String
  pub chain : String

pub record DexTokens : Type 0 where
  pub id : ℕ
  pub dex_name : String
  pub token_symbol : String
  pub token_contracts_id : ℕ
  pub chain : String

-- `F` is `float64`.
pub record DexPairs (F : Type 0) : Type 0 where
  pub id : ℕ
  pub dex_name : String
  pub pair : String
  pub t0_dex_token_id : ℕ
  pub t1_dex_token_id : ℕ
  pub t0_symbol : String
  pub t1_symbol : String
  pub contract_address : String
  pub reserve_usd : F

pub record VersionInfo : Type 0 where
  pub id : ℕ
  pub version_type : String
  pub current_version : ℕ

-- The zero values.
abbrev pub no_contract : TokenContracts
no_contract = record { id = 0; token_symbol = ""; contract_address = ""; chain = "" }

abbrev pub no_token : DexTokens
no_token = record { id = 0; dex_name = ""; token_symbol = ""; token_contracts_id = 0; chain = "" }

abbrev pub no_dex_pair : {F : Type 0} → F → DexPairs F
no_dex_pair zero_float = record {
  id = 0;
  dex_name = "";
  pair = "";
  t0_dex_token_id = 0;
  t1_dex_token_id = 0;
  t0_symbol = "";
  t1_symbol = "";
  contract_address = "";
  reserve_usd = zero_float;
}

abbrev pub no_version : VersionInfo
no_version = record { id = 0; version_type = ""; current_version = 0 }
