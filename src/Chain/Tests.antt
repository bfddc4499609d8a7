-- ===== src/Chain/Tests.antt =====
-- A node to run the handlers on: tables in memory, a chain that accepts each transaction at the
-- account's nonce, and a price API that always answers.
pub mod Safety
pub mod Outcome
pub mod Limits
use xfund_router.Common.{
  ℕ, suc, String, Bool, true, false, none, List, [], ◌∷◌, ok, refl, ◌==◌, if◌then◌else◌,
}
use xfund_router.Common.Int.{pos}
use xfund_router.Models.{DataRequests, JobStatus, RequestStatus, no_request}
use xfund_router.Gorm.{IsGorm}
use xfund_router.Gorm.Memory.{memory, memory-IsGorm}
use xfund_router.Gorm.Available.{IsUp, memory-IsUp}
use xfund_router.Database.Schemas.{request_schema, block_schema, failed_schema}
use xfund_router.Chain.Env.{
  Bytes, Client, Crypto, OooApi, Env, Node, Tx, DataRequested, RequestFulfilled, Log,
}
use xfund_router.Chain.Admin.{Display, AdminTask}

-- One digit is enough to tell the requests apart.
abbrev pub one_char : Bytes → String
one_char [] = ""
one_char (b ∷ bs) = if b == 1 then "1" else if b == 2 then "2" else "3"

abbrev pub tx_of : ℕ → Tx
tx_of nonce = record { hash = 7 ∷ []; nonce = nonce; gas_price = 5 }

abbrev pub block : ℕ → Log
block n = record { tx_hash = 9 ∷ []; block_number = n }

abbrev pub fulfilled_event : RequestFulfilled
fulfilled_event = record { request_id = 1 ∷ []; raw = block 112 }

-- The state of the chain is the account's nonce; the current block is 110.
abbrev pub client : Client
client = record {
  Chain = ℕ;
  block_number = λ c. (ok 110, c);
  transaction_receipt = λ h c. (ok (record { gas_used = 21; block_number = 100; status = 1 }), c);
  transaction_by_hash = λ h c. (ok (tx_of 0, false), c);
  pending_nonce_at = λ c. (ok c, c);
  suggest_gas_price = λ c. (ok 30, c);
  fulfill_request = λ o r p s c. (ok (tx_of c), suc c);
  register_as_provider = λ o f c. (ok (tx_of c), suc c);
  set_provider_min_fee = λ o f c. (ok (tx_of c), suc c);
  set_provider_granular_fee = λ o a f c. (ok (tx_of c), suc c);
  withdraw = λ o a v c. (ok (tx_of c), suc c);
  get_withdrawable_tokens = λ c. (ok 50, c);
  get_provider_min_fee = λ c. (ok 3, c);
  get_provider_granular_fee = λ a c. (ok 4, c);
  filter_data_requested = λ s c. (ok [], c);
  filter_request_fulfilled = λ s c. (ok [], c);
  filter_fulfilled_by_request = λ s r c. (ok (fulfilled_event ∷ []), c);
}

abbrev pub crypto : Crypto
crypto = record {
  bytes2hex = one_char;
  from_hex = λ s. 1 ∷ [];
  hex_to_hash = λ s. 9 ∷ [];
  hash_hex = λ b. "0x07";
  address_hex = λ b. "0xaa";
  hex_to_address = λ s. 10 ∷ [];
  trimmed_text = λ b. "ETH.USD.PR.AVG";
  big_set_string = λ s. pos 1500;
  solidity_sha3 = λ r p c. r;
  keccak256 = λ b. b;
  sign = λ b. ok b;
}

abbrev pub api : OooApi
api = record {
  Api = Unit {0};
  query_adhoc = λ e r s. (ok "1500", s);
  query_finchains_endpoint = λ e r s. (ok "1500", s);
}

abbrev pub env : Env
env = record {
  requests = memory request_schema;
  to_blocks = memory block_schema;
  failed = memory failed_schema;
  client = client;
  api = api;
  crypto = crypto;
  wait_confirmations = 1;
  max_gas_price = pos 0;
}

pub law : IsGorm request_schema env.requests
law = memory-IsGorm request_schema (λ n r. refl)

pub up : IsUp request_schema env.requests
up = memory-IsUp request_schema

pub block_law : IsGorm block_schema env.to_blocks
block_law = memory-IsGorm block_schema (λ n r. refl)

abbrev pub display : Display
display = record { big_string = λ n. "n"; human_fee = λ n. "f" }

-- A request that is new, one whose price is known and one that is done.
abbrev pub row : ℕ → String → RequestStatus → JobStatus → DataRequests
row id request_id status job_status = record no_request {
  id = id;
  request_id = request_id;
  request_block_number = 100;
  request_status = status;
  job_status = job_status;
}

abbrev pub new_row : DataRequests
new_row = row 1 "1" RequestStatus.initialised JobStatus.pending

abbrev pub done_row : DataRequests
done_row = row 2 "2" RequestStatus.success JobStatus.success

abbrev pub rows : List DataRequests
rows = new_row ∷ done_row ∷ []

abbrev pub node : Node env
node = record {
  requests = rows;
  to_blocks = record { id = 1; block_num = 100 } ∷ [];
  failed = [];
  chain = 6;
  api = tt;
  last_block_number = 100;
  prev_tx_nonce = 5;
  transact_opts = record { nonce = pos 5; gas_price = none };
  filter_start = 90;
  spawned = [];
}

-- An event of the request `1` again, and one of a request that is not known.
abbrev pub event_of : ℕ → ℕ → DataRequested
event_of id block_number = record {
  consumer = 10 ∷ [];
  provider = 11 ∷ [];
  fee = 4;
  payload = 1 ∷ [];
  request_id = id ∷ [];
  raw = block block_number;
}
