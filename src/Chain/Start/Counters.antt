-- ===== src/Chain/Start/Counters.antt =====
-- go-ooo/chain: a node that was started, after any of its handlers.
use xfund_router.Common.{ℕ, String, Result, ok, err, ◌≡◌, ◌≤◌, arith}
use xfund_router.Common.Int.{to_int64}
use xfund_router.Chain.Env.{Bytes, Env, Node}
use xfund_router.Chain.Admin.{Display}
use xfund_router.Chain.Schedule.{Reach}
use xfund_router.Chain.Schedule.Counters.{IsInStep, Reach-IsInStep}
use xfund_router.Chain.Start.{Parts, new_ooo_router, with_account, with_nonce_result, with_nonce_of}
use xfund_router.Chain.Start.Resume.{recorded_block, initial_from_block-max}
use xfund_router.Database.Queries.{get_last_block_num_queried}

module _ {e : Env} (hex_to_ecdsa : String → Result Bytes) (first_block : ℕ) (p : Parts e) where
  with_nonce_result-IsInStep :
      (r : Result ℕ) {n : Node e}
      → with_nonce_result hex_to_ecdsa first_block r p ≡ ok n
      → IsInStep first_block n × IsInStep (recorded_block (e.to_blocks.last p.to_blocks).0) n
  unfolding with_nonce_result with_nonce_of get_last_block_num_queried
  with_nonce_result-IsInStep (err m) h = cc
  with_nonce_result-IsInStep (ok nonce) {n} h =
      ground (arith, initial_from_block-max first_block (e.to_blocks.last p.to_blocks).0)

module _ {e : Env} (hex_to_ecdsa : String → Result Bytes) (first_block : ℕ) where
  with_account-IsInStep :
      (r : Result Bytes) (p : Parts e) {n : Node e}
      → with_account hex_to_ecdsa first_block r p ≡ ok n
      → IsInStep first_block n × IsInStep (recorded_block (e.to_blocks.last p.to_blocks).0) n
  unfolding with_account
  with_account-IsInStep (err m) p h = cc
  with_account-IsInStep (ok a) p h =
      let (r, c) = e.client.pending_nonce_at p.chain in
      with_nonce_result-IsInStep hex_to_ecdsa first_block (record p { chain = c }) r h

  -- If NewOoORouter makes a node, then in every node that its handlers reach, whatever the
  -- database, the chain and the API answer, the nonce in the transaction options is the one of the
  -- counter of the node, and the last block is not below the configured first block nor below the
  -- last block that was recorded before the start.
  pub new_ooo_router-Reach :
      (d : Display) (key : String) (p : Parts e) {n m : Node e}
      → new_ooo_router hex_to_ecdsa first_block key p ≡ ok n
      → Reach d n m
      → (m.transact_opts.nonce ≡ to_int64 m.prev_tx_nonce)
        × (first_block ≤ m.last_block_number)
        × (recorded_block (e.to_blocks.last p.to_blocks).0 ≤ m.last_block_number)
  unfolding new_ooo_router
  new_ooo_router-Reach d key p h r =
      let (low, kept) = with_account-IsInStep _ p h in
      let (nonce, above) = Reach-IsInStep _ d r low in (nonce, above, (Reach-IsInStep _ d r kept).1)
