-- ===== src/OooApi/Adhoc/Dexs.antt =====
-- go-ooo/ooo_api/adhoc.go: the exchanges that are asked, and their chains.
use xfund_router.Common.{String, List, [], ◌∷◌, ◌++◌, if◌then◌else◌, str_eq, any}

-- The entries of the source's `map[string]string`; every map has the same keys.
pub record QlApi : Type 0 where
  pub name : String
  pub url : String
  pub pairs_endpoint : String
  pub pair_endpoint : String
  pub tokens_endpoint : String
  pub token_order_by : String
  pub pairs_order_by : String
  pub tx_count : String
  pub chain : String
  pub blocks_in_one_min : String

abbrev pub shibaswap : QlApi
shibaswap = record {
  name = "shibaswap";
  url = "https://api.thegraph.com/subgraphs/name/shibaswaparmy/exchange";
  pairs_endpoint = "pairs";
  pair_endpoint = "pair";
  tokens_endpoint = "tokens";
  token_order_by = "txCount";
  pairs_order_by = "reserveUSD";
  tx_count = "txCount";
  chain = "eth";
  blocks_in_one_min = "5";
}

abbrev pub sushiswap : QlApi
sushiswap = record {
  name = "sushiswap";
  url = "https://api.thegraph.com/subgraphs/name/sushiswap/exchange";
  pairs_endpoint = "pairs";
  pair_endpoint = "pair";
  tokens_endpoint = "tokens";
  token_order_by = "txCount";
  pairs_order_by = "reserveUSD";
  tx_count = "txCount";
  chain = "eth";
  blocks_in_one_min = "5";
}

abbrev pub uniswapv2 : QlApi
uniswapv2 = record {
  name = "uniswapv2";
  url = "https://api.thegraph.com/subgraphs/name/uniswap/uniswap-v2";
  pairs_endpoint = "pairs";
  pair_endpoint = "pair";
  tokens_endpoint = "tokens";
  token_order_by = "txCount";
  pairs_order_by = "reserveUSD";
  tx_count = "txCount";
  chain = "eth";
  blocks_in_one_min = "5";
}

abbrev pub uniswapv3 : QlApi
uniswapv3 = record {
  name = "uniswapv3";
  url = "https://api.thegraph.com/subgraphs/name/uniswap/uniswap-v3";
  pairs_endpoint = "pools";
  pair_endpoint = "pool";
  tokens_endpoint = "tokens";
  token_order_by = "txCount";
  pairs_order_by = "totalValueLockedUSD";
  tx_count = "txCount";
  chain = "eth";
  blocks_in_one_min = "5";
}

abbrev pub quickswap : QlApi
quickswap = record {
  name = "quickswap";
  url = "https://api.thegraph.com/subgraphs/name/sameepsi/quickswap05";
  pairs_endpoint = "pairs";
  pair_endpoint = "pair";
  tokens_endpoint = "tokens";
  token_order_by = "tradeVolumeUSD";
  pairs_order_by = "reserveUSD";
  tx_count = "";
  chain = "polygon";
  blocks_in_one_min = "20";
}

abbrev pub pancakeswap : QlApi
pancakeswap = record {
  name = "pancakeswap";
  url = "https://api.bscgraph.org/subgraphs/name/cakeswap";
  pairs_endpoint = "pairs";
  pair_endpoint = "pair";
  tokens_endpoint = "tokens";
  token_order_by = "tradeVolumeUSD";
  pairs_order_by = "reserveUSD";
  tx_count = "txCount";
  chain = "bsc";
  blocks_in_one_min = "20";
}

abbrev pub honeyswap : QlApi
honeyswap = record {
  name = "honeyswap";
  url = "https://api.thegraph.com/subgraphs/name/1hive/honeyswap-xdai";
  pairs_endpoint = "pairs";
  pair_endpoint = "pair";
  tokens_endpoint = "tokens";
  token_order_by = "txCount";
  pairs_order_by = "reserveUSD";
  tx_count = "txCount";
  chain = "xdai";
  blocks_in_one_min = "12";
}

abbrev pub get_ql_apis : List QlApi
get_ql_apis =
    shibaswap ∷ sushiswap ∷ uniswapv2 ∷ uniswapv3 ∷ quickswap ∷ pancakeswap ∷ honeyswap ∷ []

-- The chains in the order of their first exchange.
unfoldable pub add_chains : List QlApi → List String → List String
add_chains [] chains = chains
add_chains (a ∷ apis) chains =
    add_chains apis (if any (str_eq a.chain) chains then chains else chains ++ a.chain ∷ [])

unfoldable pub get_chains : List String
unfolding add_chains
get_chains = add_chains get_ql_apis []
