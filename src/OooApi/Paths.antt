-- ===== src/OooApi/Paths.antt =====
-- go-ooo/ooo_api/api.go: the paths that are asked for.
use Prim.Native.String.{◌++◌ as ◌<>◌}
use xfund_router.Common.{
  ◌<◌, ◌≡◌, refl, String, false, none, ok, err, find?, ◌==◌, arith, Result-cases, inl, inr,
}
use xfund_router.Models.{SupportedPairs}
use xfund_router.Gorm.{Gorm, IsGorm}
use xfund_router.Database.Schemas.{pair_schema}
use xfund_router.Database.Queries.{is_pair, pair_is_supported_by_base_and_target}
use xfund_router.OooApi.Endpoint.{Endpoint, parse_endpoint}
use xfund_router.OooApi.Finchains.{
  Http, uri_of, uri_of_pair, build_query, ask, price_in, query_finchains_endpoint,
  get_price_sub_type,
}

module _ (g : Gorm SupportedPairs) (law : IsGorm pair_schema g) (t : g.Table) (endpoint : String)
    (ep : Endpoint) (parsed : parse_endpoint endpoint ≡ ok ep) where
  build_query-unsupported :
      find? (is_pair ep.base ep.target) (g.rows t) ≡ none
      → (build_query g endpoint t).0 ≡ err "pair not currently supported"
  unfolding build_query uri_of_pair pair_is_supported_by_base_and_target uri_of
  build_query-unsupported h = elim (Result-cases (g.first (is_pair ep.base ep.target) t).0) [
    | inl (p, k) ↦ cc (h, law.first_ok (is_pair ep.base ep.target) t p k)
    | inr (m, k) ↦ rw (parsed, uri_of_pair, k) refl
  ]

  build_query-rows : g.rows (build_query g endpoint t).1 ≡ g.rows t
  unfolding build_query uri_of_pair pair_is_supported_by_base_and_target
  build_query-rows = rw (parsed, uri_of_pair) (law.first_rows (is_pair ep.base ep.target) t)

  -- With a database that keeps its promises, for an endpoint that parses and whose base and target
  -- have no row in the table of pairs, the query fails as not supported, sends no request and
  -- changes no row.
  pub query_finchains_endpoint-unsupported :
      (h : Http) (base_url : String) (c : h.Conn)
      → find? (is_pair ep.base ep.target) (g.rows t) ≡ none
      → let (price, (c1, t1)) = query_finchains_endpoint h g base_url endpoint (c, t) in
        (price ≡ err "pair not currently supported") × (c1 ≡ c) × (g.rows t1 ≡ g.rows t)
  unfolding query_finchains_endpoint ask
  query_finchains_endpoint-unsupported h base_url c missing =
      let none_built = build_query-unsupported missing in
      (rw (none_built, ask) refl, rw (none_built, ask) refl, build_query-rows)

module _ (g : Gorm SupportedPairs) (t : g.Table) (endpoint : String) (ep : Endpoint)
    (parsed : parse_endpoint endpoint ≡ ok ep) (p : SupportedPairs) (data_type : String)
    (found : (g.first (is_pair ep.base ep.target) t).0 ≡ ok p) (pos_id : 0 < p.id)
    (pr : ep.q_type ≡ "PR")
    (sub : get_price_sub_type ep.subtype ep.supp1 ep.supp2 ≡ ok data_type) where
  uri_of-pair : uri_of ep p ≡ ok ("currency/" <> (p.name <> ("/" <> data_type)))
  unfolding uri_of
  uri_of-pair = let row : p.id == 0 ≡ false = ground arith in rw (row, pr, sub) refl

  build_query-supported :
      (build_query g endpoint t).0 ≡ ok ("currency/" <> (p.name <> ("/" <> data_type)))
  unfolding build_query uri_of_pair pair_is_supported_by_base_and_target
  build_query-supported = rw (parsed, uri_of_pair, found) uri_of-pair

  -- For an endpoint of type PR that parses, whose pair the database finds with a primary key above
  -- 0 and whose subtype is supported, exactly one request is sent, to the path with the name of
  -- the pair as the table has it and the data type, and the answer is what the reply holds.
  pub query_finchains_endpoint-supported :
      (h : Http) (base_url : String) (c : h.Conn)
      → let (price, (c1, t1)) = query_finchains_endpoint h g base_url endpoint (c, t) in
        let reply =
          h.get ((base_url <> "/") <> ("currency/" <> (p.name <> ("/" <> data_type)))) c in
        (price ≡ price_in h reply.0) × (c1 ≡ reply.1)
  unfolding query_finchains_endpoint ask price_in
  query_finchains_endpoint-supported h base_url c =
      (rw (build_query-supported, ask) refl, rw (build_query-supported, ask) refl)
