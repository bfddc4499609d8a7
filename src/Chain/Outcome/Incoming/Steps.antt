-- ===== src/Chain/Outcome/Incoming/Steps.antt =====
-- The steps of the event handlers: the gas of a transaction, the search for a request, the block.
use xfund_router.Common.{
  ℕ, ◌≡◌, ◌%◌, ◌^◌, err, refl, ◌∙◌, String, Bool, false, none, some, List, [], ◌∷◌, ok, any, find?,
  arith, ap, eq_iff,
}
use xfund_router.Models.{DataRequests}
use xfund_router.Gorm.{IsGorm}
use xfund_router.Gorm.Available.{IsUp}
use xfund_router.Database.Schemas.{request_schema, has_request_id}
use xfund_router.Database.Queries.{find_by_request_id}
use xfund_router.Chain.Env.{Env, Node, Log}
use xfund_router.Chain.Monad.{◌>>=◌, pure, modify, on_chain, on_requests}
use xfund_router.Chain.Events.{process_gas_usage, set_last_block_number, record_block}
use xfund_router.Chain.Outcome.{Gives, Has}

pub find?-one :
    (k : String) (r : DataRequests) → r.request_id ≡ k → find? (has_request_id k) (r ∷ []) ≡ some r
find?-one k r h = ground (arith, eq_iff r.request_id k)

pub find?-any : {A : Type 0} (p : A → Bool) (xs : List A) → any p xs ≡ false → find? p xs ≡ none
find?-any p [] h = refl
find?-any p (x ∷ xs) h = ground (arith, find?-any p xs)

-- The gas price and the gas used of a transaction, as the chain tells them; 0 for an error.
abbrev pub gas_price_of : (e : Env) → Log → e.client.Chain → ℕ
gas_price_of e l c =
    elim (e.client.transaction_by_hash l.tx_hash (e.client.transaction_receipt l.tx_hash c).1).0 [
      | ok (t, _) ↦ t.gas_price % 2 ^ 64
      | err _ ↦ 0
    ]

abbrev pub gas_used_of : (e : Env) → Log → e.client.Chain → ℕ
gas_used_of e l c = elim (e.client.transaction_receipt l.tx_hash c).0 [
  | ok r ↦ r.gas_used
  | err _ ↦ 0
]

module _ {e : Env} where
  pub last_block_keeps : (b : ℕ) (n : Node e) → (set_last_block_number b n).requests ≡ n.requests
  unfolding set_last_block_number record_block
  last_block_keeps b n = ground arith

  pub block-Gives :
      (k : String) (r : DataRequests) (b : ℕ) (n : Node e)
      → Has k r n
      → Gives tt (modify (set_last_block_number b)) n (Has k r)
  unfolding modify
  block-Gives k r b n h = record {
    value = refl;
    after = record {
      distinct = rw (last_block_keeps b n) h.distinct;
      found = rw (last_block_keeps b n) h.found;
    };
  }

  pub gas-Gives :
      (l : Log) (k : String) (r : DataRequests) (n : Node e)
      → Has k r n
      → Gives (gas_price_of e l n.chain, gas_used_of e l n.chain) (process_gas_usage l) n (Has k r)
  unfolding process_gas_usage on_chain ◌>>=◌ pure
  gas-Gives l k r n h = record {
    value = refl;
    after = record { distinct = h.distinct; found = h.found };
  }

  module _ (law : IsGorm request_schema e.requests) (up : IsUp request_schema e.requests) where
    pub find-Gives :
        (k : String) (r : DataRequests) (n : Node e)
        → Has k r n
        → Gives (ok r) (on_requests (find_by_request_id e.requests k)) n (Has k r)
    unfolding on_requests find_by_request_id
    find-Gives k r n h = record {
      value = ap some (up.first_up (has_request_id k) n.requests r h.found);
      after = record {
        distinct = rw (law.first_rows (has_request_id k) n.requests) h.distinct;
        found = rw (law.first_rows (has_request_id k) n.requests) h.found;
      };
    }

  module _ (law : IsGorm request_schema e.requests) where
    pub gas-rows :
        (l : Log) (n : Node e)
        → Gives
            (gas_price_of e l n.chain, gas_used_of e l n.chain)
            (process_gas_usage l)
            n
            (λ n'. e.requests.rows n'.requests ≡ e.requests.rows n.requests)
    unfolding process_gas_usage on_chain ◌>>=◌ pure
    gas-rows l n = record { value = refl; after = refl }

    pub find-rows :
        (k : String) (rows : List DataRequests) (n : Node e)
        → e.requests.rows n.requests ≡ rows
        → Gives
            (find_by_request_id e.requests k n.requests).0
            (on_requests (find_by_request_id e.requests k))
            n
            (λ n'. e.requests.rows n'.requests ≡ rows)
    unfolding on_requests find_by_request_id
    find-rows k rows n h = record {
      value = refl;
      after = law.first_rows (has_request_id k) n.requests ∙ h;
    }

    pub block-rows :
        (b : ℕ) (rows : List DataRequests) (n : Node e)
        → e.requests.rows n.requests ≡ rows
        → Gives tt (modify (set_last_block_number b)) n (λ n'. e.requests.rows n'.requests ≡ rows)
    unfolding modify
    block-rows b rows n h = record { value = refl; after = rw (last_block_keeps b n) h }
