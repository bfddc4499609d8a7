-- ===== src/OooApi/Adhoc/Queries.antt =====
-- go-ooo/ooo_api/adhoc.go: the texts of the subgraph queries, `fmt.Sprintf` written out.
use Prim.Native.String.{◌++◌ as ◌<>◌}
use xfund_router.Common.{ℕ, String, List, [], ◌∷◌, ◌==◌, if◌then◌else◌, str_eq, ltb}
use xfund_router.Common.Words.{sub64, mul64}
use xfund_router.OooApi.Finchains.{emit}

-- `%d` of a number of at most `fuel` digits.
unfoldable pub decimal : (fuel : ℕ) → ℕ → String
decimal fuel n = if n == 0 then "0" else emit fuel n ""

-- `%d` of a `uint64`.
abbrev pub uint_text : ℕ → String
uint_text n = decimal 20 n

abbrev pub concat : List String → String
concat [] = ""
concat (s ∷ ss) = s <> concat ss

abbrev pub min_liquidity : ℕ
min_liquidity = 30000

abbrev pub min_tx_count : ℕ
min_tx_count = 250

unfoldable pub generate_token_query : String → String → String → String
generate_token_query symbol tokens_endpoint token_order_by = concat (
    "\n            { \n                " ∷ tokens_endpoint
    ∷ " (\n                    first:1,\n                    orderBy: " ∷ token_order_by
    ∷ ",\n                    orderDirection: desc,\n                    where: { symbol: \""
    ∷ symbol
    ∷ "\"}){\n                    id\n                    symbol\n                    name\n                }\n            }\n        "
    ∷ [])

abbrev pub tx_count_filter : String → String
tx_count_filter tx_count =
    if str_eq tx_count "" then "" else "txCount_gt: \"" <> (uint_text min_tx_count <> "\"")

abbrev pub skip_filter : ℕ → String
skip_filter skip = if ltb 0 skip then "skip: " <> (uint_text skip <> ",") else ""

unfoldable pub generate_pairs_list_query : String → String → String → ℕ → String
generate_pairs_list_query pair_endpoint pair_order_by tx_count skip = concat (
    "\n            {\n\t            "
    ∷ pair_endpoint
    ∷ "(\n\t                first: 1000,\n                    "
    ∷ skip_filter skip
    ∷ "\n\t                orderBy: "
    ∷ pair_order_by
    ∷ ",\n\t                orderDirection: desc,\n                    where :\n                     {\n                          "
    ∷ pair_order_by
    ∷ "_gt: \""
    ∷ uint_text min_liquidity
    ∷ "\",\n                          "
    ∷ tx_count_filter tx_count
    ∷ "\n                     }\n\t            ) \n                {\n                     id\n\t                 "
    ∷ pair_order_by
    ∷ "\n\t                 volumeUSD\n\t                 "
    ∷ tx_count
    ∷ "\n\t                 untrackedVolumeUSD\n\t                 token0Price\n\t                 token1Price\n\t                 __typename\n                     token0 {\n\t                     id\n\t                     symbol\n\t                     name\n\t                     decimals\n\t                     __typename\n\t                 }\n\t                 token1 {\n\t                     id\n                         symbol \n                         name \n                         decimals\n                         __typename\n\t                 }\n\t            }\n\t        }"
    ∷ [])

unfoldable pub generate_new_pair_query : String → String → String → String → String
generate_new_pair_query t0 t1 pair_endpoint pair_order_by = concat (
    "\n            {\n                 "
    ∷ pair_endpoint
    ∷ " (\n                     first:1\n                     orderBy:"
    ∷ pair_order_by
    ∷ "\n                     orderDirection: desc\n                     where :\n                     {\n                          token0_in : [\""
    ∷ t0
    ∷ "\", \""
    ∷ t1
    ∷ "\"],\n                          token1_in : [\""
    ∷ t0
    ∷ "\", \""
    ∷ t1
    ∷ "\"],\n                          "
    ∷ pair_order_by
    ∷ "_gt: \""
    ∷ uint_text min_liquidity
    ∷ "\"\n                     }\n                 ) {\n                     id\n                     token0 {\n                         id\n                         name\n                         symbol\n                     }\n                     token1 {\n                         id\n                         name\n                         symbol\n                     }\n                     token0Price\n                     token1Price\n                     "
    ∷ pair_order_by
    ∷ "\n                 }\n            }\n        "
    ∷ [])

unfoldable pub generate_known_pair_query : String → String → String → String
generate_known_pair_query pair_address pair_endpoint pair_order_by = concat (
    "\n            {\n\t            " ∷ pair_endpoint ∷ "(id: \"" ∷ pair_address
    ∷ "\") {\n\t                id\n\t                token0 {\n                         id\n                         name\n                         symbol\n                     }\n                     token1 {\n                         id\n                         name\n                         symbol\n                     }\n                     token0Price\n                     token1Price\n                     "
    ∷ pair_order_by ∷ "\n                }\n\t        }\n        " ∷ [])

-- The fields of a pair that are asked for.
abbrev base_query : String → String
base_query pair_order_by = concat (
    "\nid\n\t                token0 {\n                         id\n                         name\n                         symbol\n                    }\n                    token1 {\n                         id\n                         name\n                         symbol\n                    }\n                    token0Price\n                    token1Price\n                    "
    ∷ pair_order_by ∷ [])

-- The pair at the latest block.
abbrev latest_query : String → String → String → String
latest_query pair_address pair_endpoint pair_order_by = concat (
    pair_endpoint
    ∷ "(id: \""
    ∷ pair_address
    ∷ "\") {\n                     "
    ∷ base_query pair_order_by
    ∷ "\n                }"
    ∷ [])

-- The block `k` minutes ago, in `uint64`.
unfoldable pub block_ago : ℕ → ℕ → ℕ → ℕ
block_ago blocks_per_min current_block k = sub64 current_block (mul64 blocks_per_min k)

-- The pair as it was at a block.
abbrev query_at : String → String → String → ℕ → String
query_at pair_address pair_endpoint pair_order_by number = concat (
    pair_endpoint
    ∷ "(id: \""
    ∷ pair_address
    ∷ "\", block: { number: "
    ∷ uint_text number
    ∷ " }) {\n                     "
    ∷ base_query pair_order_by
    ∷ "\n                }"
    ∷ [])

unfoldable pub generate_pair_prices_query : String → String → String → ℕ → ℕ → String
unfolding block_ago
generate_pair_prices_query pair_address pair_endpoint pair_order_by blocks_per_min current_block =
    let at : ℕ → String = λ k.
      query_at pair_address pair_endpoint pair_order_by
        (block_ago blocks_per_min current_block k) in
    concat (
      "\n            {\n\t            p0: "
      ∷ latest_query pair_address pair_endpoint pair_order_by
      ∷ ",\n                p1: "
      ∷ at 1
      ∷ ",\n                p2: "
      ∷ at 2
      ∷ ",\n                p3: "
      ∷ at 3
      ∷ ",\n                p4: "
      ∷ at 4
      ∷ ",\n                p5: "
      ∷ at 5
      ∷ ",\n                p6: "
      ∷ at 6
      ∷ ",\n                p7: "
      ∷ at 7
      ∷ ",\n                p8: "
      ∷ at 8
      ∷ ",\n                p9: "
      ∷ at 9
      ∷ "\n\t        }\n        "
      ∷ [])
