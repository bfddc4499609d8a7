-- ===== src/OooApi/Adhoc/Price.antt =====
-- go-ooo/ooo_api/adhoc.go: the price of a pair, from what the exchanges say of it.
pub mod Mean
pub mod Sources
pub mod Unknown
use xfund_router.Common.{
  ℕ, ◌+◌, ◌/◌, suc, String, Bool, not, ◌&&◌, List, [], ◌∷◌, ◌++◌, Option, none, some, Result, ok,
  err, value_or, ◌==◌, ltb, if◌then◌else◌, str_eq, filter,
}
use xfund_router.Common.Int.{ℤ, is_positive, pos_part}
use xfund_router.Models.Tokens.{DexPairs, no_dex_pair}
use xfund_router.Gorm.{Gorm}
use xfund_router.Database.Tokens.{find_by_dex_pair_name}
use xfund_router.Utils.{Floats, parse_big_float, ether_to_wei}
use xfund_router.OooApi.Endpoint.{Endpoint, parse_endpoint}
use xfund_router.OooApi.Adhoc.Dexs.{QlApi, get_ql_apis}
use xfund_router.OooApi.Adhoc.Queries.{min_liquidity, decimal}
use xfund_router.OooApi.Adhoc.Graph.{
  GraphQlPairContent, GraphQlAliasedPairPrices, Subgraphs, get_current_block_number_for_chain,
  get_recent_pair_prices,
}
use xfund_router.OooApi.Adhoc.Update.{dex_reserve}

-- The map from a chain to its block: the value of a key, 0 where it is missing.
abbrev pub block_of : String → List (String × ℕ) → ℕ
block_of chain [] = 0
block_of chain ((c, n) ∷ blocks) = if str_eq c chain then n else block_of chain blocks

abbrev pub has_chain : String → List (String × ℕ) → Bool
has_chain chain [] = Bool.false
has_chain chain ((c, n) ∷ blocks) = if str_eq c chain then Bool.true else has_chain chain blocks

-- A chain is asked once; a failed call counts as block 0.
unfoldable pub current_blocks :
    (q : Subgraphs) → List QlApi → List (String × ℕ) → q.Conn → List (String × ℕ) × q.Conn
current_blocks q [] blocks c = (blocks, c)
current_blocks q (api ∷ apis) blocks c =
    let (n, c1) = get_current_block_number_for_chain q api.chain c in
    let known = current_blocks q apis blocks c in
    let asked = current_blocks q apis (blocks ++ (api.chain, value_or 0 n) ∷ []) c1 in
    if has_chain api.chain blocks then known else asked

module _ (f : Floats) where
  abbrev pub zero_price : f.F
  zero_price = f.of_nat 0

  -- The price of the target in the base, or of the other direction.
  abbrev pub price_text : String → String → GraphQlPairContent → String
  price_text base target pair =
      if str_eq base pair.token0.symbol && str_eq target pair.token1.symbol
      then pair.token1_price
      else pair.token0_price

  abbrev pub parsed_price : f.B × Option String → f.F
  parsed_price (b, some m) = zero_price
  parsed_price (b, none) = f.float64 b

  abbrev pub price_if_liquid : f.B × Option String → f.F → f.F
  price_if_liquid (reserve, some m) price = zero_price
  price_if_liquid (reserve, none) price =
      if f.cmp_less reserve (f.new_float (f.of_nat min_liquidity)) then zero_price else price

  unfoldable pub process_price_data : String → String → String → GraphQlPairContent → f.F
  process_price_data base target dex_name pair =
      price_if_liquid (parse_big_float f (dex_reserve dex_name pair))
        (parsed_price (parse_big_float f (price_text base target pair)))

  unfoldable pub prices_of : String → String → String → GraphQlAliasedPairPrices → List f.F
  prices_of base target dex_name r =
      let price = process_price_data base target dex_name in
      price r.p0
      ∷ price r.p1
      ∷ price r.p2
      ∷ price r.p3
      ∷ price r.p4
      ∷ price r.p5
      ∷ price r.p6
      ∷ price r.p7
      ∷ price r.p8
      ∷ price r.p9
      ∷ []

  module _ (q : Subgraphs) (pairs : Gorm (DexPairs f.F)) where
    unfoldable pub get_pair_prices_from_dex :
        String → String → QlApi → ℕ → q.Conn × pairs.Table → List f.F × (q.Conn × pairs.Table)
    get_pair_prices_from_dex base target api current_block (c, t) =
        let (row, t1) = find_by_dex_pair_name (f.of_nat 0) f.gt pairs base target api.name t in
        let db_pair_res = value_or (no_dex_pair (f.of_nat 0)) row in
        let (r, c1) = get_recent_pair_prices q db_pair_res.contract_address api current_block c in
        if db_pair_res.id == 0 then ([], (c, t1)) else (prices_of base target api.name r, (c1, t1))

    -- The prices of all exchanges that are not 0.
    unfoldable pub raw_prices :
        String
        → String
        → List (String × ℕ)
        → List QlApi
        → q.Conn × pairs.Table
        → List f.F × (q.Conn × pairs.Table)
    raw_prices base target blocks [] s = ([], s)
    raw_prices base target blocks (api ∷ apis) s =
        let (dex_prices, s1) =
          get_pair_prices_from_dex base target api (block_of api.chain blocks) s in
        let (rest, s2) = raw_prices base target blocks apis s1 in
        (filter (λ p. not (f.is_zero p)) dex_prices ++ rest, s2)

  -- Chauvenet's criterion with three deviations, if the deviation is above 0.
  abbrev pub is_kept : f.F → f.F → f.F → Bool
  is_kept mean std_dev p =
      if f.gt std_dev (f.of_nat 0)
      then f.gt (f.of_nat 3) (f.div (f.abs (f.sub p mean)) std_dev)
      else Bool.true

  abbrev pub count_wei : Option ℤ → Option (ℕ × ℕ) → Option (ℕ × ℕ)
  count_wei (some wei) (some (total, price_count)) =
      if is_positive wei
      then some (total + pos_part wei, price_count + 1)
      else some (total, price_count)
  count_wei _ _ = none

  -- The total and the number of the prices above 0, in wei; `none` is a panic.
  unfoldable pub add_prices : List f.F → Option (ℕ × ℕ) → Option (ℕ × ℕ)
  add_prices [] acc = acc
  add_prices (o ∷ os) acc = add_prices os (count_wei (ether_to_wei f (f.new_float o)) acc)

  -- The digits of a total of `float64` prices: 400 are enough.
  abbrev pub mean_text : Option (ℕ × ℕ) → Option (Result String)
  mean_text none = none
  mean_text (some (total, price_count)) =
      if total == 0
      then some (err "cannot calculate mean, price is zero")
      else some (ok (decimal 400 (total / price_count)))

  abbrev pub price_of_kept : List f.F → Result f.F → Result f.F → Option (Result String)
  price_of_kept raw (err m) _ = some (err m)
  price_of_kept raw (ok mean) (err m) = some (err m)
  price_of_kept raw (ok mean) (ok std_dev) =
      mean_text (add_prices (filter (is_kept mean std_dev) raw) (some (0, 0)))

  unfoldable pub price_of_raw : List f.F → Option (Result String)
  price_of_raw raw = price_of_kept raw (f.mean raw) (f.standard_deviation raw)

  module _ (q : Subgraphs) (pairs : Gorm (DexPairs f.F)) where
    unfoldable pub price_at :
        List (String × ℕ)
        → Result Endpoint
        → q.Conn × pairs.Table
        → Option (Result String) × (q.Conn × pairs.Table)
    price_at blocks (err m) s = (some (err m), s)
    price_at blocks (ok ep) s =
        let (raw, s1) = raw_prices q pairs ep.base ep.target blocks get_ql_apis s in
        (price_of_raw raw, s1)

    unfoldable pub query_adhoc :
        String → q.Conn × pairs.Table → Option (Result String) × (q.Conn × pairs.Table)
    query_adhoc endpoint (c, t) =
        let (blocks, c1) = current_blocks q get_ql_apis [] c in
        price_at blocks (parse_endpoint endpoint) (c1, t)
