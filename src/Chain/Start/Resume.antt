-- ===== src/Chain/Start/Resume.antt =====
-- go-ooo/chain/chain.go: where a node takes up its work, and how far the blocks of its events take
-- it.
use xfund_router.Common.{
  ℕ, String, Result, ok, err, ◌≡◌, ◌⊎◌, ◌≤◌, refl, true, List, ◌∷◌, arith, ◌==◌, value_or, any, All,
}
use xfund_router.Common.Int.{to_int64}
use xfund_router.Models.{ToBlocks, no_block}
use xfund_router.Utils.{remove_hex_prefix}
use xfund_router.Gorm.{IsGorm}
use xfund_router.Database.Schemas.{block_schema}
use xfund_router.Database.Queries.{get_last_block_num_queried}
use xfund_router.Chain.Env.{Bytes, Env, Node}
use xfund_router.Chain.Events.{initial_from_block}
use xfund_router.Chain.Events.Blocks.{see, see-bounds}
use xfund_router.Chain.Start.{Parts, new_ooo_router, with_account, with_nonce_result, with_nonce_of}

-- The block of the last row, 0 where there is none.
abbrev pub recorded_block : Result ToBlocks → ℕ
recorded_block tb = (value_or no_block tb).block_num

pub initial_from_block-max :
    (first_block : ℕ) (tb : Result ToBlocks)
    → let b = initial_from_block first_block tb in
      (first_block ≤ b) × (recorded_block tb ≤ b) × ((b ≡ first_block) ⊎ (b ≡ recorded_block tb))
unfolding initial_from_block
initial_from_block-max f (ok b) = ground arith
initial_from_block-max f (err m) = ground arith

module _ {e : Env} (law : IsGorm block_schema e.to_blocks) (hex_to_ecdsa : String → Result Bytes)
    (first_block : ℕ) (key : String) (p : Parts e) (account : Bytes) (nonce : ℕ) where
  -- With a database that keeps its promises, a private key that is accepted and a chain that tells
  -- the nonce, the node starts, with that nonce in its counter and in the transaction options; it
  -- leaves the recorded blocks as they are and starts from the larger of the configured and the
  -- last recorded block; and whatever the blocks of its events are then, its last block ends at or
  -- above each of them and the one it started from, and is one of these.
  pub new_ooo_router-resumes :
      hex_to_ecdsa (remove_hex_prefix key) ≡ ok account
      → (e.client.pending_nonce_at p.chain).0 ≡ ok nonce
      → (bs : List ℕ)
      → let recorded = recorded_block (e.to_blocks.last p.to_blocks).0 in
        (n : Node e) × (new_ooo_router hex_to_ecdsa first_block key p ≡ ok n)
        × (n.prev_tx_nonce ≡ nonce)
        × (n.transact_opts.nonce ≡ to_int64 nonce)
        × (e.to_blocks.rows n.to_blocks ≡ e.to_blocks.rows p.to_blocks)
        × (first_block ≤ n.filter_start)
        × (recorded ≤ n.filter_start)
        × ((n.filter_start ≡ first_block) ⊎ (n.filter_start ≡ recorded))
        × All (λ b. b ≤ (see bs n).last_block_number) bs
        × (n.filter_start ≤ (see bs n).last_block_number)
        × (any (λ b. b == (see bs n).last_block_number) (n.filter_start ∷ bs) ≡ true)
  unfolding new_ooo_router with_account with_nonce_result with_nonce_of get_last_block_num_queried
  new_ooo_router-resumes account_ok nonce_ok bs =
      let c = (e.client.pending_nonce_at p.chain).1 in
      let n = with_nonce_of hex_to_ecdsa first_block nonce (record p { chain = c }) in
      let (low, kept, source) =
        initial_from_block-max first_block (e.to_blocks.last p.to_blocks).0 in
      let (above, start, seen) = see-bounds bs n in
      (
        n,
        rw account_ok (rw nonce_ok refl),
        refl,
        refl,
        law.last_rows p.to_blocks,
        low,
        kept,
        source,
        above,
        start,
        seen,
      )
