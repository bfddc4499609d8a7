-- ===== src/Chain/Invariant.antt =====
-- Invariants on the rows of the requests table, by what an insertion and an edit do to the rows.
pub mod Statuses
pub mod Keys
pub mod Settled
use xfund_router.Common.{
  ℕ, ◌<◌, String, ◌≡◌, refl, ◌∙◌, Bool, true, false, some, List, [], ◌∷◌, ◌++◌, find?, any, inl,
  inr, subst, sym, ap, Result-cases, arith,
}
use xfund_router.Models.{DataRequests, RequestStatus, JobStatus}
use xfund_router.Gorm.{IsGorm, contains_id, replace}
use xfund_router.Gorm.Update.{update_where, update_where-cases}
use xfund_router.Database.Schemas.{request_schema, has_request_id}
use xfund_router.Database.Transactions.{new_request}
use xfund_router.Chain.Env.{Env, Node}
use xfund_router.Chain.Caller.{set_next_tx_nonce, set_gas_price}
use xfund_router.Chain.Events.{set_last_block_number, record_block}
use xfund_router.Chain.Jobs.{set_filter_start}
use xfund_router.Chain.Closed.{IsClosed, Edit, apply}

-- What every inserted row starts with.
pub record IsNew (r : DataRequests) : Type 0 where
  pub is_pending : r.job_status ≡ JobStatus.pending
  pub is_initialised : r.request_status ≡ RequestStatus.initialised
  pub no_attempts : r.fulfillment_attempts ≡ 0

-- What the database checks before a row `r` joins `rows`.
pub record IsFresh (r : DataRequests) (rows : List DataRequests) : Type 0 where
  pub key_pos : 0 < r.id
  pub new_key : contains_id request_schema r.id rows ≡ false
  pub new_request_id : any (λ x. has_request_id r.request_id x) rows ≡ false

-- An invariant of the rows, kept by an insertion and by an edit of the first row of a request.
pub record IsRowInvariant (J : List DataRequests → Type 0) : Type 0 where
  pub insert :
      (r : DataRequests) (rows : List DataRequests)
      → IsNew r
      → IsFresh r rows
      → J rows
      → J (rows ++ r ∷ [])
  pub edit :
      (k : String) (c : Edit) (r : DataRequests) (rows : List DataRequests)
      → find? (has_request_id k) rows ≡ some r
      → J rows
      → J (replace request_schema (apply c r) rows)

pub edit_keeps_id : (c : Edit) (r : DataRequests) → (apply c r).id ≡ r.id
edit_keeps_id (Edit.success b h u p) r = refl
edit_keeps_id (Edit.sent h b) r = refl
edit_keeps_id Edit.attempt r = refl
edit_keeps_id (Edit.status s h m) r = refl
edit_keeps_id (Edit.fetched p) r = refl
edit_keeps_id (Edit.last_fetch b) r = refl

pub edit_keeps_request_id : (c : Edit) (r : DataRequests) → (apply c r).request_id ≡ r.request_id
edit_keeps_request_id (Edit.success b h u p) r = refl
edit_keeps_request_id (Edit.sent h b) r = refl
edit_keeps_request_id Edit.attempt r = refl
edit_keeps_request_id (Edit.status s h m) r = refl
edit_keeps_request_id (Edit.fetched p) r = refl
edit_keeps_request_id (Edit.last_fetch b) r = refl

module _ (e : Env) (law : IsGorm request_schema e.requests) (J : List DataRequests → Type 0)
    (inv : IsRowInvariant J) where
  abbrev pub OnRows : e.requests.Table → Type 0
  OnRows t = J (e.requests.rows t)

  insert-OnRows :
      (a b c d f g : String) (i j k l : ℕ) (h : Bool) (t : e.requests.Table)
      → OnRows t
      → OnRows (e.requests.create (new_request a b c d f g i j k l h) t).1
  insert-OnRows a b c d f g i j k l h t v =
      let r = new_request a b c d f g i j k l h in
      elim (Result-cases (e.requests.create r t).0) [
        | inr (m, failed) ↦ subst J (sym (law.create_err r t m failed)) v
        | inl (r', made) ↦
            let (same, pos, new, apart, grown) = law.create_ok r r' t made in
            subst J (sym grown) (
              inv.insert r' (e.requests.rows t)
                (subst IsNew (sym same)
                  (record { is_pending = refl; is_initialised = refl; no_attempts = refl }))
                (record {
                  key_pos = pos;
                  new_key = new;
                  new_request_id =
                      subst (λ z. any (λ x. has_request_id z x) (e.requests.rows t) ≡ false)
                        (sym (ap (λ x. x.request_id) same)) apart;
                })
                v)
      ]

  edit-OnRows :
      (k : String) (c : Edit) (t : e.requests.Table)
      → OnRows t
      → OnRows (update_where e.requests (has_request_id k) (apply c) t).1
  edit-OnRows k c t v =
      elim (update_where-cases e.requests request_schema law (has_request_id k) (apply c)
        (edit_keeps_id c) t) [
          | inl (m, failed, same) ↦ subst J (sym same) v
          | inr (r, found, done, new) ↦
              subst J (sym new) (inv.edit k c r (e.requests.rows t) found v)
        ]

  pub OnRows-IsClosed : IsClosed e (λ n. OnRows n.requests)
  unfolding set_next_tx_nonce set_gas_price set_last_block_number record_block set_filter_start
  OnRows-IsClosed = record {
    first = λ p n v. subst J (sym (law.first_rows p n.requests)) v;
    find = λ p n v. subst J (sym (law.find_rows p n.requests)) v;
    insert = λ a b c d f g i j k l h n v. insert-OnRows a b c d f g i j k l h n.requests v;
    edit = λ k c n v. edit-OnRows k c n.requests v;
    same_rows = λ t n same v. subst J (sym same) v;
    failed = λ t n v. v;
    chain = λ c n v. v;
    api = λ p n v. v;
    next_nonce = λ nonce b n v. ground arith;
    gas_price = λ p n v. v;
    last_block = λ b n v. ground arith;
    filter_start = λ b n v. v;
    spawned = λ ts n v. v;
  }
