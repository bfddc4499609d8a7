-- ===== src/Chain/Schedule/Counters.antt =====
-- The nonce and the last block of go-ooo/chain in every node that the handlers lead to.
use xfund_router.Common.{ℕ, Bool, ◌≡◌, ◌≤◌, arith}
use xfund_router.Common.Int.{to_int64}
use xfund_router.Chain.Env.{Env, Node}
use xfund_router.Chain.Caller.{set_next_tx_nonce, set_gas_price}
use xfund_router.Chain.Events.{set_last_block_number, record_block}
use xfund_router.Chain.Jobs.{set_filter_start}
use xfund_router.Chain.Admin.{Display}
use xfund_router.Chain.Closed.{IsClosed}
use xfund_router.Chain.Schedule.{Reach}
use xfund_router.Chain.Schedule.Safety.{Reach-keeps}

-- The nonce of the next transaction is the node's own counter, and the last block is not below
-- `from_block`.
abbrev pub IsInStep : {e : Env} → ℕ → Node e → Type 0
IsInStep from_block n =
    (n.transact_opts.nonce ≡ to_int64 n.prev_tx_nonce) × (from_block ≤ n.last_block_number)

module _ {e : Env} (from_block : ℕ) where
  IsInStep-next_nonce :
      (nonce : ℕ) (b : Bool) (n : Node e)
      → IsInStep from_block n
      → IsInStep from_block (set_next_tx_nonce nonce b n)
  unfolding set_next_tx_nonce
  IsInStep-next_nonce nonce b n i = ground arith

  IsInStep-last_block :
      (b : ℕ) (n : Node e) → IsInStep from_block n → IsInStep from_block (set_last_block_number b n)
  unfolding set_last_block_number record_block
  IsInStep-last_block b n i = ground arith

  IsInStep-IsClosed : IsClosed e (λ n. IsInStep from_block n)
  unfolding set_gas_price set_filter_start
  IsInStep-IsClosed = record {
    first = λ p n i. i;
    find = λ p n i. i;
    insert = λ a b c d f g j k l m h n i. i;
    edit = λ k c n i. i;
    same_rows = λ t n same i. i;
    failed = λ t n i. i;
    chain = λ c n i. i;
    api = λ p n i. i;
    next_nonce = IsInStep-next_nonce;
    gas_price = λ p n i. i;
    last_block = IsInStep-last_block;
    filter_start = λ b n i. i;
    spawned = λ ts n i. i;
  }

  pub Reach-IsInStep :
      {n m : Node e} (d : Display) → Reach d n m → IsInStep from_block n → IsInStep from_block m
  Reach-IsInStep d r i = Reach-keeps _ IsInStep-IsClosed d r i
