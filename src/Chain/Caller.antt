-- ===== src/Chain/Caller.antt =====
-- go-ooo/chain/caller.go: the transaction options, kept in step with the account's nonce and the
-- market's gas price.
pub mod Nonce
use xfund_router.Common.{
  String, Option, none, Result, ok, err, ℕ, ◌*◌, Bool, true, some, ltb, ◌==◌, if◌then◌else◌,
}
use xfund_router.Common.Words.{add64, sub64}
use xfund_router.Common.Int.{ℤ, to_int64, is_positive, pos_part}
use xfund_router.Chain.Env.{Env, Node, TransactOpts}
use xfund_router.Chain.Monad.{pure, M, ◌>>=◌, ◌>>◌, modify, on_chain}

-- 10 ^ 9, `params.GWei`.
abbrev pub gwei : ℕ
gwei = 1000000000

abbrev pub with_nonce : TransactOpts → ℕ → TransactOpts
with_nonce o n = record o { nonce = to_int64 n }

abbrev pub with_gas_price : TransactOpts → ℕ → TransactOpts
with_gas_price o p = record o { gas_price = some p }

-- The price offered, within the configured maximum if there is one.
unfoldable pub capped_gas_price : ℤ → ℕ → ℕ
capped_gas_price max_gas_price gas_price =
    if is_positive max_gas_price
    then if ltb (pos_part max_gas_price * gwei) gas_price
      then pos_part max_gas_price * gwei
      else gas_price
    else gas_price

module _ {e : Env} where
  -- Only a step of exactly one is taken; the difference is a `uint64`.
  unfoldable pub set_next_tx_nonce : ℕ → Bool → Node e → Node e
  set_next_tx_nonce nonce is_from_pending n =
      let next_nonce = if is_from_pending then nonce else add64 nonce 1 in
      if sub64 next_nonce n.prev_tx_nonce == 1
      then record n {
        prev_tx_nonce = next_nonce;
        transact_opts = with_nonce n.transact_opts next_nonce;
      }
      else n

  unfoldable pub set_gas_price : ℕ → Node e → Node e
  set_gas_price gas_price n = record n {
    transact_opts = with_gas_price n.transact_opts (capped_gas_price e.max_gas_price gas_price);
  }

  unfoldable pub price_renewed : Result ℕ → M e (Option String)
  price_renewed (err m) = pure (some m)
  price_renewed (ok gas_price) = do modify (set_gas_price gas_price); pure none

  unfoldable pub nonce_renewed : Result ℕ → M e (Option String)
  nonce_renewed (err m) = pure (some m)
  nonce_renewed (ok nonce) = do
    modify (set_next_tx_nonce nonce true)
    gas_price ← on_chain e.client.suggest_gas_price
    price_renewed gas_price

  -- The error, if there was one; the nonce may have moved by then.
  unfoldable pub renew_transact_opts : M e (Option String)
  renew_transact_opts = do nonce ← on_chain e.client.pending_nonce_at; nonce_renewed nonce
