-- ===== src/OooApi/Adhoc/Graph.antt =====
-- go-ooo/ooo_api/types.go and adhoc.go: answers of a subgraph, block numbers, and the requests.
use xfund_router.Common.{
  ℕ, String, List, [], Result, ok, err, ◌==◌, if◌then◌else◌, str_eq, Option, none, some,
}
use xfund_router.Common.Int.{ℤ, to_uint64}
use xfund_router.OooApi.Finchains.{parse_int}
use xfund_router.OooApi.Adhoc.Dexs.{QlApi}
use xfund_router.OooApi.Adhoc.Queries.{generate_pairs_list_query, generate_pair_prices_query}

pub record GraphQlToken : Type 0 where
  pub id : String
  pub name : String
  pub symbol : String
  pub total_liquidity : String
  pub tx_count : String
  pub typename : String

pub record GraphQlPairContent : Type 0 where
  pub id : String
  pub token0 : GraphQlToken
  pub token1 : GraphQlToken
  pub token0_price : String
  pub token1_price : String
  pub reserve_usd : String
  pub volume_usd : String
  pub total_value_locked_usd : String
  pub tx_count : String
  pub typename : String
  pub untracked_volume_usd : String

pub record GraphQlAliasedPairPrices : Type 0 where
  pub p0 : GraphQlPairContent
  pub p1 : GraphQlPairContent
  pub p2 : GraphQlPairContent
  pub p3 : GraphQlPairContent
  pub p4 : GraphQlPairContent
  pub p5 : GraphQlPairContent
  pub p6 : GraphQlPairContent
  pub p7 : GraphQlPairContent
  pub p8 : GraphQlPairContent
  pub p9 : GraphQlPairContent

pub record GraphQlPairs : Type 0 where
  pub pairs : List GraphQlPairContent
  pub pools : List GraphQlPairContent

-- The zero values.
abbrev pub no_ql_token : GraphQlToken
no_ql_token = record {
  id = "";
  name = "";
  symbol = "";
  total_liquidity = "";
  tx_count = "";
  typename = "";
}

abbrev pub no_content : GraphQlPairContent
no_content = record {
  id = "";
  token0 = no_ql_token;
  token1 = no_ql_token;
  token0_price = "";
  token1_price = "";
  reserve_usd = "";
  volume_usd = "";
  total_value_locked_usd = "";
  tx_count = "";
  typename = "";
  untracked_volume_usd = "";
}

abbrev pub no_prices : GraphQlAliasedPairPrices
no_prices = record {
  p0 = no_content;
  p1 = no_content;
  p2 = no_content;
  p3 = no_content;
  p4 = no_content;
  p5 = no_content;
  p6 = no_content;
  p7 = no_content;
  p8 = no_content;
  p9 = no_content;
}

-- `net/http`, `encoding/json` and `ethclient`: a `POST` of a query; the status and the body of an
-- answer; what `Unmarshal` leaves in the value that it fills, whatever its error; and the latest
-- block of the four chains.
pub record Subgraphs : Type 1 where
  pub Conn : Type 0
  pub Response : Type 0
  pub post : String → String → Conn → Result Response × Conn
  pub status_code : Response → ℕ
  pub read_all : Response → Result String
  pub pairs_in : String → GraphQlPairs
  pub prices_in : String → GraphQlAliasedPairPrices
  pub eth_block_number : Conn → Result ℕ × Conn
  pub polygon_block_number : Conn → Result ℕ × Conn
  pub bsc_block_number : Conn → Result ℕ × Conn
  pub xdai_block_number : Conn → Result ℕ × Conn

abbrev blocks_or_ten : Option ℤ → ℕ
blocks_or_ten none = 10
blocks_or_ten (some n) = to_uint64 n

-- `strconv.Atoi`, and 10 for a text that is no number.
unfoldable pub blocks_per_min : String → ℕ
blocks_per_min s = blocks_or_ten (parse_int s)

module _ (q : Subgraphs) where
  unfoldable pub get_current_block_number_for_chain : String → q.Conn → Result ℕ × q.Conn
  get_current_block_number_for_chain chain c =
      if str_eq chain "eth"
      then q.eth_block_number c
      else if str_eq chain "polygon"
      then q.polygon_block_number c
      else if str_eq chain "bsc"
      then q.bsc_block_number c
      else if str_eq chain "xdai"
      then q.xdai_block_number c
      else (ok 0, c)

  -- An answer is read if its status is 200; any failure leaves the zero value.
  unfoldable pub decoded_response : {D : Type 0} → (String → D) → D → Result q.Response → D
  decoded_response decode zero_value (err m) = zero_value
  decoded_response decode zero_value (ok r) =
      if q.status_code r == 200
      then elim (q.read_all r) [ ok body ↦ decode body | err m ↦ zero_value ]
      else zero_value

  unfoldable pub run_query : {D : Type 0} → (String → D) → D → String → String → q.Conn → D × q.Conn
  run_query decode zero_value query url c =
      let (r, c1) = q.post url query c in (decoded_response decode zero_value r, c1)

  -- `uniswapv3` calls its pairs pools.
  unfoldable pub get_pairs_from_graph_ql : QlApi → ℕ → q.Conn → List GraphQlPairContent × q.Conn
  get_pairs_from_graph_ql api skip c =
      let query =
        generate_pairs_list_query api.pairs_endpoint api.pairs_order_by api.tx_count skip in
      let (decoded, c1) =
        run_query q.pairs_in (record { pairs = []; pools = [] }) query api.url c in
      ((if str_eq api.name "uniswapv3" then decoded.pools else decoded.pairs), c1)

  unfoldable pub get_recent_pair_prices :
      String → QlApi → ℕ → q.Conn → GraphQlAliasedPairPrices × q.Conn
  get_recent_pair_prices pair_address api current_block c =
      let query =
        generate_pair_prices_query pair_address api.pair_endpoint api.pairs_order_by
          (blocks_per_min api.blocks_in_one_min) current_block in
      run_query q.prices_in no_prices query api.url c
