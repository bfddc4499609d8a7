-- ===== src/Chain/Invariant/Settled.antt =====
-- A job that is no longer pending, for inserts and updates.
use xfund_router.Common.{
  String, ◌≡◌, ◌≢◌, ◌∙◌, true, false, some, List, [], ◌∷◌, arith, find?, inl, inr, str_eq, eq_iff,
  Bool-cases, ap, subst,
}
use xfund_router.Models.{DataRequests, JobStatus}
use xfund_router.Gorm.{Distinct, replace}
use xfund_router.Gorm.Rows.{
  find?-append_some, find?-replace_self, find?-replace_ne, find?-sound, Distinct-replace,
}
use xfund_router.Database.Schemas.{request_schema, has_request_id}
use xfund_router.Chain.Closed.{Edit, apply, IsStep}
use xfund_router.Chain.Invariant.{IsRowInvariant, edit_keeps_id, edit_keeps_request_id}
use xfund_router.Chain.Invariant.Keys.{Distinct-append}

-- The request `k` is in the table, and its job is not pending.
pub record IsSettled (k : String) (rows : List DataRequests) : Type 0 where
  pub distinct : Distinct request_schema rows
  pub row : DataRequests
  pub found : find? (has_request_id k) rows ≡ some row
  pub closed : row.job_status ≢ JobStatus.pending

edit_closed :
    (c : Edit) (r : DataRequests)
    → r.job_status ≢ JobStatus.pending
    → (apply c r).job_status ≢ JobStatus.pending
edit_closed (Edit.success b h u p) r v = ground arith
edit_closed (Edit.sent h b) r v = v
edit_closed Edit.attempt r v = v
edit_closed (Edit.status s IsStep.fetching m) r v = v
edit_closed (Edit.status s IsStep.sent m) r v = v
edit_closed (Edit.status s IsStep.api_error m) r v = v
edit_closed (Edit.status s IsStep.tx_failed m) r v = v
edit_closed (Edit.status s IsStep.gave_up m) r v = ground arith
edit_closed (Edit.fetched p) r v = v
edit_closed (Edit.last_fetch b) r v = v

pub has_request_id_apart :
    (j k : String) (r : DataRequests)
    → has_request_id j r ≡ true
    → str_eq j k ≡ false
    → has_request_id k r ≡ false
has_request_id_apart j k r h g =
    ground (arith, eq_iff r.request_id j, eq_iff r.request_id k, eq_iff j k)

edit_same :
    (k : String) (c : Edit) (r : DataRequests) (rows : List DataRequests)
    → find? (has_request_id k) rows ≡ some r
    → IsSettled k rows
    → IsSettled k (replace request_schema (apply c r) rows)
edit_same k c r rows found v = record {
  distinct = Distinct-replace request_schema (apply c r) rows v.distinct;
  row = apply c r;
  found =
      find?-replace_self request_schema (has_request_id k) r (apply c r) rows v.distinct found
        (edit_keeps_id c r)
        (ap (λ z. str_eq z k) (edit_keeps_request_id c r)
          ∙ find?-sound (has_request_id k) rows r found);
  closed = edit_closed c r (λ h. v.closed (cc (v.found, found, h)));
}

edit-IsSettled :
    (k j : String) (c : Edit) (r : DataRequests) (rows : List DataRequests)
    → find? (has_request_id j) rows ≡ some r
    → IsSettled k rows
    → IsSettled k (replace request_schema (apply c r) rows)
edit-IsSettled k j c r rows found v = elim (Bool-cases (str_eq j k)) [
  | inl same ↦
      edit_same k c r rows
        (subst (λ z. find? (has_request_id z) rows ≡ some r) ((eq_iff j k).0 same) found) v
  | inr apart ↦
      let q : has_request_id k r ≡ false =
        has_request_id_apart j k r (find?-sound (has_request_id j) rows r found) apart in
      record {
        distinct = Distinct-replace request_schema (apply c r) rows v.distinct;
        row = v.row;
        found =
            find?-replace_ne request_schema (has_request_id j) (has_request_id k) r (apply c r) rows
              v.distinct found (edit_keeps_id c r) q
              (ap (λ z. str_eq z k) (edit_keeps_request_id c r) ∙ q)
            ∙ v.found;
        closed = v.closed;
      }
]

pub Settled-IsRowInvariant : (k : String) → IsRowInvariant (IsSettled k)
Settled-IsRowInvariant k = record {
  insert = λ r rows n f v. record {
    distinct = Distinct-append rows r v.distinct f.new_key;
    row = v.row;
    found = find?-append_some (has_request_id k) rows (r ∷ []) v.row v.found;
    closed = v.closed;
  };
  edit = λ j c r rows found v. edit-IsSettled k j c r rows found v;
}
