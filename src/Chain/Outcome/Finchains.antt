-- ===== src/Chain/Outcome/Finchains.antt =====
-- go-ooo/chain with go-ooo/ooo_api/api.go: a request that is served with a price of Finchains.
use Prim.Native.String.{◌++◌ as ◌<>◌}
use xfund_router.Common.{ℕ, ◌<◌, ◌≡◌, ◌∙◌, String, false, Result, ok, str_eq}
use xfund_router.Common.Words.{add64}
use xfund_router.Models.{DataRequests, RequestStatus, JobStatus, SupportedPairs}
use xfund_router.Gorm.{Gorm, IsGorm}
use xfund_router.Gorm.Available.{IsUp}
use xfund_router.Database.Schemas.{request_schema}
use xfund_router.Database.Queries.{is_pair}
use xfund_router.OooApi.Endpoint.{Endpoint, parse_endpoint}
use xfund_router.OooApi.Finchains.{Http, price_in, get_price_sub_type, query_finchains_endpoint}
use xfund_router.OooApi.Paths.{query_finchains_endpoint-supported}
use xfund_router.Chain.Env.{Env, Node, RequestFulfilled}
use xfund_router.Chain.Monad.{◌>>◌}
use xfund_router.Chain.Events.{process_incoming_fulfilments}
use xfund_router.Chain.Fulfil.{process_fulfillment_fetch_data, send_fulfillment_tx}
use xfund_router.Chain.Outcome.{Gives, Has}
use xfund_router.Chain.Outcome.Fetch.{CanRenew, answer}
use xfund_router.Chain.Outcome.Life.{ready, life-Gives}

-- A connection and the table of pairs.
abbrev pub ApiState : Http → Gorm SupportedPairs → Type 0
ApiState h g = h.Conn × g.Table

-- The node's environment with the Finchains client of the program, and any ad-hoc queries.
abbrev pub with_finchains :
    (e : Env) (h : Http) (g : Gorm SupportedPairs)
    → String
    → (String → String → ApiState h g → Result String × ApiState h g)
    → Env
with_finchains e h g base_url adhoc = record e {
  api = record {
    Api = ApiState h g;
    query_adhoc = adhoc;
    query_finchains_endpoint =
        λ endpoint request_id s. query_finchains_endpoint h g base_url endpoint s;
  };
}

module _ (e : Env) (h : Http) (g : Gorm SupportedPairs) (base_url : String)
    (adhoc : String → String → ApiState h g → Result String × ApiState h g)
    (law : IsGorm request_schema e.requests) (up : IsUp request_schema e.requests)
    (r : DataRequests) (n : Node (with_finchains e h g base_url adhoc)) (ep : Endpoint)
    (p : SupportedPairs) (data_type price : String) where
  -- With a database that answers, a chain that reports a nonce and a gas price, and a job in the
  -- table that is not ad-hoc and whose endpoint parses, with type PR, a pair that the database
  -- finds with a primary key above 0 and a subtype that is supported, if the Finchains server
  -- answers the request to the path of the name of that pair and the data type with a price that
  -- is not empty, then the fetch for the job, the sending of the row that this leaves, whether or
  -- not the transaction is taken, and then the event of the fulfilment end, and leave the job with
  -- both statuses SUCCESS, with that price and one attempt more.
  pub finchains_life-Gives :
      (event : RequestFulfilled) (fetched_at sent_at : ℕ)
      → Has r.request_id r n
      → CanRenew (with_finchains e h g base_url adhoc) n.chain
      → r.is_adhoc ≡ false
      → parse_endpoint r.endpoint_decoded ≡ ok ep
      → (g.first (is_pair ep.base ep.target) n.api.1).0 ≡ ok p
      → 0 < p.id
      → ep.q_type ≡ "PR"
      → get_price_sub_type ep.subtype ep.supp1 ep.supp2 ≡ ok data_type
      → price_in h
          (h.get ((base_url <> "/") <> ("currency/" <> (p.name <> ("/" <> data_type)))) n.api.0).0
        ≡ ok price
      → str_eq price "" ≡ false
      → 0 < r.id
      → e.crypto.bytes2hex event.request_id ≡ r.request_id
      → Gives tt
          (process_fulfillment_fetch_data r fetched_at
            >> (send_fulfillment_tx (ready price r fetched_at) sent_at
                >> process_incoming_fulfilments event))
          n
          (λ n'.
            (x : DataRequests) × Has r.request_id x n'
            × (x.request_status ≡ RequestStatus.success)
            × (x.job_status ≡ JobStatus.success)
            × (x.price_result ≡ price)
            × (x.fulfillment_attempts ≡ add64 r.fulfillment_attempts 1))
  finchains_life-Gives event fetched_at sent_at has renews listed parsed found key pr sub reply
        given id same =
      let asked =
        query_finchains_endpoint-supported g n.api.1 r.endpoint_decoded ep parsed p data_type found
          key pr sub h base_url n.api.0 in
      let answered : answer (with_finchains e h g base_url adhoc) r n.api ≡ ok price =
        rw listed (asked.0 ∙ reply) in
      life-Gives {e = with_finchains e h g base_url adhoc} law up r n price event fetched_at sent_at
        has renews answered given id same
