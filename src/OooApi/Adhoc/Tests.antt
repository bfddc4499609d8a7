-- ===== src/OooApi/Adhoc/Tests.antt =====
-- A subgraph that answers with two prices, whole numbers for floats, and tables in memory.
use Prim.Native.String.{◌++◌ as ◌<>◌}
use xfund_router.Common.{
  ℕ, suc, ◌+◌, ◌-◌, ◌/◌, ◌*◌, ◌≤◌, ◌<◌, ◌≡◌, ◌⊎◌, refl, String, List, [], ◌∷◌, ◌++◌, Option, none,
  some, Result, ok, err, ◌==◌, str_eq, ltb, if◌then◌else◌, arith, All, length, replicate,
}
use xfund_router.Common.Sums.{sum}
use xfund_router.Common.Int.{pos}
use xfund_router.Common.Words.{u64_mod, add64}
use xfund_router.Models.Tokens.{DexPairs, TokenContracts, DexTokens}
use xfund_router.Gorm.{Gorm}
use xfund_router.Gorm.Memory.{memory}
use xfund_router.Database.Schemas.{dex_pair_schema, contract_schema, token_schema}
use xfund_router.Database.Tokens.{find_by_dex_pair_name}
use xfund_router.Utils.{Floats, ether_to_wei}
use xfund_router.OooApi.Endpoint.{Endpoint, parse_endpoint, endpoint_of_parts, split}
use xfund_router.OooApi.Finchains.{digits, scan, emit, parse_int}
use xfund_router.OooApi.Adhoc.Dexs.{get_ql_apis, get_chains, shibaswap}
use xfund_router.OooApi.Adhoc.Queries.{decimal, block_ago, generate_pair_prices_query}
use xfund_router.OooApi.Adhoc.Graph.{
  GraphQlPairContent, Subgraphs, get_current_block_number_for_chain, get_recent_pair_prices,
  run_query, decoded_response, get_pairs_from_graph_ql, blocks_per_min, no_content, no_prices,
  no_ql_token,
}
use xfund_router.OooApi.Adhoc.Price.{
  query_adhoc, price_at, current_blocks, price_of_raw, add_prices, raw_prices,
  get_pair_prices_from_dex, prices_of, process_price_data,
}
use xfund_router.OooApi.Adhoc.Price.Mean.{IsMean, prices_for, query_adhoc-IsMean}
use xfund_router.OooApi.Adhoc.Price.Sources.{IsSourced, raw_prices-IsSourced}
use xfund_router.OooApi.Adhoc.Blocks.{block_ago-cases, chains_of, current_blocks-get_chains}
use xfund_router.OooApi.Adhoc.Update.{update_all_tokens_and_pairs, update_pairs_in_db}
use xfund_router.OooApi.Adhoc.Update.Paging.{
  Pages, full_page, last_page, update_all_tokens_and_pairs-Pages,
}

abbrev pub number : Option ℕ → ℕ × Option String
number none = (0, some "expected integer")
number (some n) = (n, none)

abbrev pub average : List ℕ → Result ℕ
average [] = err "Input must not be empty."
average (n ∷ ns) = ok (sum (n ∷ ns) / length (n ∷ ns))

abbrev pub floats : Floats
floats = record {
  F = ℕ;
  B = ℕ;
  of_nat = λ n. n;
  is_zero = λ n. n == 0;
  gt = λ a b. ltb b a;
  sub = λ a b. (a - b) + (b - a);
  div = λ a b. a / b;
  abs = λ a. a;
  mean = average;
  standard_deviation = λ ns. ok 100;
  new_float = λ n. n;
  float64 = λ n. n;
  cmp_less = ltb;
  int = λ n. some (pos n);
  fixed18 = λ n. decimal 20 n <> ".000000000000000000";
  sscan = λ s. number (digits s);
}

abbrev content : String → String → GraphQlPairContent
content price0 price1 = record no_content {
  token0 = record no_ql_token { symbol = "ETH" };
  token1 = record no_ql_token { symbol = "USD" };
  token0_price = price0;
  token1_price = price1;
  reserve_usd = "50000";
}

-- The first request has a full page as its answer.
abbrev graph : Subgraphs
graph = record {
  Conn = ℕ;
  Response = String;
  post = λ url query c. (ok (if c == 0 then "full" else "rest"), suc c);
  status_code = λ r. 200;
  read_all = λ r. ok r;
  pairs_in = λ body. record {
    pairs =
        if str_eq body "full" then replicate 1000 (content "1" "1500") else content "1" "1500" ∷ [];
    pools = [];
  };
  prices_in = λ body. record no_prices { p0 = content "1" "1500"; p1 = content "1" "1600" };
  eth_block_number = λ c. (ok 18000000, c);
  polygon_block_number = λ c. (ok 40000000, c);
  bsc_block_number = λ c. (err "timeout", c);
  xdai_block_number = λ c. (ok 30000000, c);
}

abbrev dex_pairs : Gorm (DexPairs ℕ)
dex_pairs = memory dex_pair_schema

abbrev eth_usd_on : String → DexPairs ℕ
eth_usd_on dex_name = record {
  id = 7;
  dex_name = dex_name;
  pair = "ETH-USD";
  t0_dex_token_id = 1;
  t1_dex_token_id = 2;
  t0_symbol = "ETH";
  t1_symbol = "USD";
  contract_address = "0xabc";
  reserve_usd = 50000;
}

adhoc_answered :
    (query_adhoc floats graph dex_pairs "ETH.USD.AD" (0, eth_usd_on "sushiswap" ∷ [])).0
    ≡ some (ok "1550000000000000000000")
unfolding query_adhoc price_at current_blocks get_current_block_number_for_chain price_of_raw
    add_prices raw_prices get_pair_prices_from_dex find_by_dex_pair_name prices_of
    process_price_data get_recent_pair_prices run_query decoded_response parse_endpoint
    endpoint_of_parts split digits scan decimal emit ether_to_wei blocks_per_min parse_int
    generate_pair_prices_query
adhoc_answered = refl

query_adhoc-IsMean_example :
    (ep : Endpoint) × (parse_endpoint "ETH.USD.AD" ≡ ok ep)
    × IsMean floats "1550000000000000000000"
        (prices_for floats graph dex_pairs ep 0 (eth_usd_on "sushiswap" ∷ []))
query_adhoc-IsMean_example =
    query_adhoc-IsMean floats graph dex_pairs "ETH.USD.AD" "1550000000000000000000" 0
      (eth_usd_on "sushiswap" ∷ []) adhoc_answered

raw_prices-IsSourced_example :
    All
      (IsSourced floats graph dex_pairs "ETH" "USD" [] get_ql_apis (0, eth_usd_on "sushiswap" ∷ []))
      (raw_prices floats graph dex_pairs "ETH" "USD" [] get_ql_apis
        (0, eth_usd_on "sushiswap" ∷ [])).0
raw_prices-IsSourced_example =
    raw_prices-IsSourced floats graph dex_pairs "ETH" "USD" [] get_ql_apis
      (0, eth_usd_on "sushiswap" ∷ []) refl

abbrev btc_usd : Endpoint
btc_usd = record {
  base = "BTC";
  target = "USD";
  q_type = "AD";
  subtype = "";
  supp1 = "";
  supp2 = "";
  supp3 = "";
}

btc_usd_parsed : parse_endpoint "BTC.USD.AD" ≡ ok btc_usd
unfolding parse_endpoint endpoint_of_parts split
btc_usd_parsed = refl

block_ago-cases_example :
    ((5 * 9 ≤ 0) × (block_ago 5 0 9 ≡ 0 - 5 * 9))
    ⊎ ((0 < 5 * 9) × (block_ago 5 0 9 ≡ u64_mod - (5 * 9 - 0)))
block_ago-cases_example = block_ago-cases 5 0 9 (omega arith) (omega arith)

current_blocks-get_chains_example : chains_of (current_blocks graph get_ql_apis [] 0).0 ≡ get_chains
current_blocks-get_chains_example = current_blocks-get_chains graph 0

abbrev contracts : Gorm TokenContracts
contracts = memory contract_schema

abbrev tokens : Gorm DexTokens
tokens = memory token_schema

abbrev all_content : List GraphQlPairContent
all_content = replicate 1000 (content "1" "1500") ++ content "1" "1500" ∷ []

graph-Pages : Pages graph shibaswap 2 0 0 all_content 2
unfolding get_pairs_from_graph_ql run_query decoded_response add64
graph-Pages = full_page 1 0 0 (content "1" "1500" ∷ []) 2 refl (last_page 1000 1 refl)

update_all_tokens_and_pairs-Pages_example :
    update_all_tokens_and_pairs floats contracts tokens dex_pairs graph 3 shibaswap
      (0, ([], ([], [])))
    ≡ some (
      2,
      update_pairs_in_db floats contracts tokens dex_pairs all_content shibaswap.name
          shibaswap.chain
          ([], ([], [])),
    )
update_all_tokens_and_pairs-Pages_example =
    update_all_tokens_and_pairs-Pages floats contracts tokens dex_pairs graph shibaswap 2 3 0 2
      all_content ([], ([], [])) graph-Pages (omega arith)
