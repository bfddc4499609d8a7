-- ===== src/Chain/Start.antt =====
-- go-ooo/chain/chain.go, `NewOoORouter`: the node as it starts, with the tables and connections it
-- is given.
pub mod Resume
pub mod Counters
use xfund_router.Common.{ℕ, String, none, [], Result, ok, err}
use xfund_router.Common.Int.{to_int64}
use xfund_router.Utils.{remove_hex_prefix}
use xfund_router.Database.Queries.{get_last_block_num_queried}
use xfund_router.Chain.Env.{Bytes, Env, Node}
use xfund_router.Chain.Events.{initial_from_block}

-- The tables and connections that the service is made with.
pub record Parts (e : Env) : Type 0 where
  pub requests : e.requests.Table
  pub to_blocks : e.to_blocks.Table
  pub failed : e.failed.Table
  pub chain : e.client.Chain
  pub api : e.api.Api

-- `first_block` is `chain.first_block`, and `hex_to_ecdsa` what `crypto` and `bind` make of the
-- text of a private key: the account that signs, or an error.
module _ {e : Env} (hex_to_ecdsa : String → Result Bytes) (first_block : ℕ) where
  -- The service of an account whose next nonce is known.
  unfoldable pub with_nonce_of : ℕ → Parts e → Node e
  with_nonce_of nonce p =
      let (tb, t) = get_last_block_num_queried e.to_blocks p.to_blocks in
      let from_block = initial_from_block first_block tb in
      record {
        requests = p.requests;
        to_blocks = t;
        failed = p.failed;
        chain = p.chain;
        api = p.api;
        last_block_number = from_block;
        prev_tx_nonce = nonce;
        transact_opts = record { nonce = to_int64 nonce; gas_price = none };
        filter_start = from_block;
        spawned = [];
      }

  unfoldable pub with_nonce_result : Result ℕ → Parts e → Result (Node e)
  with_nonce_result (err m) p = err m
  with_nonce_result (ok nonce) p = ok (with_nonce_of nonce p)

  unfoldable pub with_account : Result Bytes → Parts e → Result (Node e)
  with_account (err m) p = err m
  with_account (ok _) p =
      let (nonce, c) = e.client.pending_nonce_at p.chain in
      with_nonce_result nonce (record p { chain = c })

  unfoldable pub new_ooo_router : String → Parts e → Result (Node e)
  new_ooo_router oracle_private_key p =
      with_account (hex_to_ecdsa (remove_hex_prefix oracle_private_key)) p
