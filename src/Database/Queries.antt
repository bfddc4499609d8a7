-- ===== src/Database/Queries.antt =====
-- go-ooo/database/queries.go, the queries on `data_requests`, `to_blocks` and `supported_pairs`. A query that fails
-- returns the zero row beside its error.
use xfund_router.Common.{Bool, not, any, ltb, if◌then◌else◌, str_eq, ◌&&◌, String, List, Result}
use xfund_router.Common.Int.{ℤ, pos_part}
use xfund_router.Models.{DataRequests, ToBlocks, SupportedPairs, is_pending, is_success}
use xfund_router.Gorm.{Gorm}
use xfund_router.Database.Schemas.{has_request_id}

module _ (g : Gorm DataRequests) where
  unfoldable pub find_by_request_id : String → g.Table → Result DataRequests × g.Table
  find_by_request_id request_id t = g.first (has_request_id request_id) t

  -- `Order("id asc")`.
  unfoldable pub get_pending_jobs : g.Table → Result (List DataRequests) × g.Table
  get_pending_jobs t = g.find (λ r. is_pending r.job_status) t

  abbrev pub is_successful : String → DataRequests → Bool
  is_successful consumer r =
      if str_eq consumer ""
      then is_success r.job_status
      else is_success r.job_status && str_eq r.consumer consumer

  -- No limit for 0 or less.
  unfoldable pub get_last_x_successful_requests :
      ℤ → String → g.Table → Result (List DataRequests) × g.Table
  get_last_x_successful_requests limit consumer t =
      g.newest (is_successful consumer) (pos_part limit) t

  unfoldable pub get_most_gas_used : g.Table → Result DataRequests × g.Table
  get_most_gas_used t =
      g.top (λ r. is_success r.job_status) (λ r x. ltb x.fulfill_gas_used r.fulfill_gas_used) t

  unfoldable pub get_least_gas_used : g.Table → Result DataRequests × g.Table
  get_least_gas_used t =
      g.top (λ r. is_success r.job_status) (λ r x. ltb r.fulfill_gas_used x.fulfill_gas_used) t

-- The last row by primary key.
unfoldable pub get_last_block_num_queried :
    (g : Gorm ToBlocks) → g.Table → Result ToBlocks × g.Table
get_last_block_num_queried g t = g.last t

-- `base = ? AND target = ?`.
abbrev pub is_pair : String → String → SupportedPairs → Bool
is_pair base target p = str_eq p.base base && str_eq p.target target

module _ (g : Gorm SupportedPairs) where
  unfoldable pub pair_is_supported_by_pair_name : String → g.Table → Result SupportedPairs × g.Table
  pair_is_supported_by_pair_name pair t = g.first (λ p. str_eq p.name pair) t

  unfoldable pub pair_is_supported_by_base_and_target :
      String → String → g.Table → Result SupportedPairs × g.Table
  pair_is_supported_by_base_and_target base target t = g.first (is_pair base target) t

  unfoldable pub pairs_no_longer_supported :
      List String → g.Table → Result (List SupportedPairs) × g.Table
  pairs_no_longer_supported pairs t = g.find (λ p. not (any (str_eq p.name) pairs)) t
