-- ===== src/Chain/Caller/Nonce.antt =====
-- go-ooo/chain/caller.go: the nonce and the gas price of the next transaction.
use xfund_router.Common.{ℕ, suc, ◌*◌, ◌≡◌, ◌⊎◌, ◌<◌, ◌≤◌, Bool, true, false, arith}
use xfund_router.Common.Words.{u64_mod, add64, sub64}
use xfund_router.Common.Int.{ℤ, to_int64, is_positive, pos_part}
use xfund_router.Chain.Env.{Env, Node}
use xfund_router.Chain.Caller.{gwei, capped_gas_price, set_next_tx_nonce}

-- For uint64 nonces, whatever nonce the chain reports or a sent transaction had, the node is left
-- as it was or goes on to exactly the next nonce, in its own counter and in the transaction
-- options alike.
pub set_next_tx_nonce-cases :
    {e : Env} (nonce : ℕ) (is_from_pending : Bool) (n : Node e)
    → nonce < u64_mod
    → n.prev_tx_nonce < u64_mod
    → let n' = set_next_tx_nonce nonce is_from_pending n in
      (n' ≡ n)
      ⊎ ((n'.prev_tx_nonce ≡ add64 n.prev_tx_nonce 1)
          × (n'.transact_opts.nonce ≡ to_int64 n'.prev_tx_nonce))
unfolding set_next_tx_nonce add64 sub64
set_next_tx_nonce-cases nonce true n h k = ground arith
set_next_tx_nonce-cases nonce false n h k = ground arith

-- Where the counter does not wrap, a transaction sent with the current nonce moves the counter and
-- the options to the next one, a report of that next nonce by the chain has the same effect, and
-- the report after the transaction changes nothing more.
pub set_next_tx_nonce-sent :
    {e : Env} (n : Node e)
    → suc n.prev_tx_nonce < u64_mod
    → let n' = set_next_tx_nonce n.prev_tx_nonce false n in
      (n'.prev_tx_nonce ≡ suc n.prev_tx_nonce)
      × (n'.transact_opts.nonce ≡ to_int64 (suc n.prev_tx_nonce))
      × (set_next_tx_nonce (suc n.prev_tx_nonce) true n ≡ n')
      × (set_next_tx_nonce (suc n.prev_tx_nonce) true n' ≡ n')
unfolding set_next_tx_nonce add64 sub64
set_next_tx_nonce-sent n h = ground arith

-- A report by the chain of a uint64 nonce that is two or more above the current one changes
-- nothing.
pub set_next_tx_nonce-behind :
    {e : Env} (nonce : ℕ) (n : Node e)
    → suc (suc n.prev_tx_nonce) ≤ nonce
    → nonce < u64_mod
    → set_next_tx_nonce nonce true n ≡ n
unfolding set_next_tx_nonce add64 sub64
set_next_tx_nonce-behind nonce n h k = ground arith

-- The price offered is at most the suggested one, and at most the configured maximum in gwei where
-- that is positive; it is the suggested one unless that is above a positive maximum, and then it
-- is that maximum.
pub capped_gas_price-bounds :
    (max_gas_price : ℤ) (gas_price : ℕ)
    → (capped_gas_price max_gas_price gas_price ≤ gas_price)
      × ((is_positive max_gas_price ≡ false)
          ⊎ (capped_gas_price max_gas_price gas_price ≤ pos_part max_gas_price * gwei))
      × ((capped_gas_price max_gas_price gas_price ≡ gas_price)
          ⊎ ((is_positive max_gas_price ≡ true)
              × (pos_part max_gas_price * gwei < gas_price)
              × (capped_gas_price max_gas_price gas_price ≡ pos_part max_gas_price * gwei)))
unfolding capped_gas_price
capped_gas_price-bounds m g = ground arith
