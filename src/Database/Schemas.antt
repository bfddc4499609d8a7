-- ===== src/Database/Schemas.antt =====
-- Keys and unique indices of the models (go-ooo/database/models): `RequestId` is a unique index.
use xfund_router.Common.{String, Bool, false, str_eq}
use xfund_router.Models.{DataRequests, ToBlocks, FailedFulfilment, SupportedPairs}
use xfund_router.Models.Tokens.{TokenContracts, DexTokens, DexPairs, VersionInfo}
use xfund_router.Gorm.{Schema}

-- `request_id = ?`.
abbrev pub has_request_id : String → DataRequests → Bool
has_request_id request_id r = str_eq r.request_id request_id

abbrev pub request_schema : Schema DataRequests
request_schema = record {
  id = λ r. r.id;
  with_id = λ n r. record r { id = n };
  clash = λ r x. has_request_id r.request_id x;
}

abbrev pub block_schema : Schema ToBlocks
block_schema = record { id = λ b. b.id; with_id = λ n b. record b { id = n }; clash = λ a b. false }

abbrev pub failed_schema : Schema FailedFulfilment
failed_schema = record {
  id = λ f. f.id;
  with_id = λ n f. record f { id = n };
  clash = λ a b. false;
}

abbrev pub pair_schema : Schema SupportedPairs
pair_schema = record { id = λ p. p.id; with_id = λ n p. record p { id = n }; clash = λ a b. false }

abbrev pub contract_schema : Schema TokenContracts
contract_schema = record {
  id = λ c. c.id;
  with_id = λ n c. record c { id = n };
  clash = λ a b. false;
}

abbrev pub token_schema : Schema DexTokens
token_schema = record { id = λ c. c.id; with_id = λ n c. record c { id = n }; clash = λ a b. false }

abbrev pub dex_pair_schema : {F : Type 0} → Schema (DexPairs F)
dex_pair_schema = record {
  id = λ c. c.id;
  with_id = λ n c. record c { id = n };
  clash = λ a b. false;
}

abbrev pub version_schema : Schema VersionInfo
version_schema = record {
  id = λ v. v.id;
  with_id = λ n v. record v { id = n };
  clash = λ a b. false;
}
