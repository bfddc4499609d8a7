-- ===== src/Chain/Invariant/Statuses.antt =====
-- The predicate that relates the two statuses of a row, for each kind of update.
use xfund_router.Common.{◌≡◌, ◌≢◌, [], ◌∷◌, arith, All, All-append, All-find?}
use xfund_router.Models.{DataRequests, RequestStatus, JobStatus}
use xfund_router.Gorm.Rows.{All-replace}
use xfund_router.Database.Schemas.{request_schema, has_request_id}
use xfund_router.Chain.Closed.{Edit, apply, IsStep}
use xfund_router.Chain.Invariant.{IsNew, IsRowInvariant}

-- A pending job has a status that the queue acts on; a job with a final status is closed.
pub record IsConsistent (r : DataRequests) : Type 0 where
  pub known : r.job_status ≢ JobStatus.unknown
  pub pending_known : r.request_status ≢ RequestStatus.unknown
  pub success_closed : r.request_status ≡ RequestStatus.success → r.job_status ≢ JobStatus.pending
  pub failed_closed :
      r.request_status ≡ RequestStatus.fulfilment_failed → r.job_status ≢ JobStatus.pending

pub edit-IsConsistent : (c : Edit) (r : DataRequests) → IsConsistent r → IsConsistent (apply c r)
edit-IsConsistent (Edit.success b h u p) r v = ground arith
edit-IsConsistent (Edit.sent h b) r v = ground arith
edit-IsConsistent Edit.attempt r v = ground arith
edit-IsConsistent (Edit.status s IsStep.fetching m) r v = ground arith
edit-IsConsistent (Edit.status s IsStep.sent m) r v = ground arith
edit-IsConsistent (Edit.status s IsStep.api_error m) r v = ground arith
edit-IsConsistent (Edit.status s IsStep.tx_failed m) r v = ground arith
edit-IsConsistent (Edit.status s IsStep.gave_up m) r v = ground arith
edit-IsConsistent (Edit.fetched p) r v = ground arith
edit-IsConsistent (Edit.last_fetch b) r v = ground arith

new-IsConsistent : (r : DataRequests) → IsNew r → IsConsistent r
new-IsConsistent r n = ground arith

pub Statuses-IsRowInvariant : IsRowInvariant (All IsConsistent)
Statuses-IsRowInvariant = record {
  insert = λ r rows n f v. All-append IsConsistent rows (r ∷ []) v (new-IsConsistent r n, tt);
  edit = λ k c r rows found v.
      All-replace request_schema IsConsistent (apply c r) rows
        (edit-IsConsistent c r (All-find? IsConsistent (has_request_id k) rows r v found)) v;
}
