-- ===== src/OooApi/Adhoc/Price/Sources.antt =====
-- go-ooo/ooo_api/adhoc.go: which prices enter the mean.
use xfund_router.Common.{
  ℕ, ◌≡◌, ◌⊎◌, refl, sym, ◌∙◌, ap, subst, String, true, false, not, List, [], ◌∷◌, Option, none,
  some, ok, map, ◌&&◌, str_eq, if◌then◌else◌, ◌==◌, filter, All, All-append, arith, Bool-cases,
  Result-cases, inl, inr,
}
use xfund_router.Models.Tokens.{DexPairs}
use xfund_router.Gorm.{Gorm}
use xfund_router.Database.Tokens.{find_by_dex_pair_name}
use xfund_router.Utils.{Floats, parse_big_float}
use xfund_router.OooApi.Adhoc.Dexs.{QlApi}
use xfund_router.OooApi.Adhoc.Queries.{min_liquidity}
use xfund_router.OooApi.Adhoc.Graph.{
  Subgraphs, get_recent_pair_prices, GraphQlPairContent, GraphQlAliasedPairPrices,
}
use xfund_router.OooApi.Adhoc.Update.{dex_reserve}
use xfund_router.OooApi.Adhoc.Price.{
  price_text, parsed_price, price_if_liquid, process_price_data, get_pair_prices_from_dex,
  raw_prices, prices_of, block_of,
}

module _ (f : Floats) where
  -- The price is the one that is stated for the pair in the direction asked for, and its stated
  -- reserve, or total value locked on Uniswap 3, can be read and is not below 30000.
  abbrev pub IsLiquid : String → String → String → GraphQlPairContent → f.F → Type 0
  IsLiquid base target dex pair price =
      (reserve : f.B) × (stated : f.B) × (parse_big_float f
          (if str_eq dex "uniswapv3" then pair.total_value_locked_usd else pair.reserve_usd)
        ≡ (reserve, none))
      × (f.cmp_less reserve (f.new_float (f.of_nat 30000)) ≡ false)
      × (parse_big_float f (
            if str_eq base pair.token0.symbol && str_eq target pair.token1.symbol
            then pair.token1_price
            else pair.token0_price)
          ≡ (stated, none))
      × (price ≡ f.float64 stated)

  liquid-cases :
      (r s : f.B × Option String)
      → (price_if_liquid f r (parsed_price f s) ≡ f.of_nat 0)
        ⊎ ((reserve : f.B) × (stated : f.B) × (r ≡ (reserve, none))
            × (f.cmp_less reserve (f.new_float (f.of_nat min_liquidity)) ≡ false)
            × (s ≡ (stated, none))
            × (price_if_liquid f r (parsed_price f s) ≡ f.float64 stated))
  liquid-cases (reserve, some m) s = inl refl
  liquid-cases (reserve, none) (stated, some m) = inl (ground arith)
  liquid-cases (reserve, none) (stated, none) =
      elim (Bool-cases (f.cmp_less reserve (f.new_float (f.of_nat min_liquidity)))) [
        | inl h ↦ inl (rw h refl)
        | inr h ↦ inr (reserve, stated, refl, h, refl, rw h refl)
      ]

  process_price_data-cases :
      (base target dex : String) (pair : GraphQlPairContent)
      → (process_price_data f base target dex pair ≡ f.of_nat 0)
        ⊎ IsLiquid base target dex pair (process_price_data f base target dex pair)
  unfolding process_price_data
  process_price_data-cases base target dex pair =
      liquid-cases (parse_big_float f (dex_reserve dex pair))
        (parse_big_float f (price_text f base target pair))

  All-nonzero :
      (P : f.F → Type 0) (prices : List f.F)
      → f.is_zero (f.of_nat 0) ≡ true
      → All (λ p. (p ≡ f.of_nat 0) ⊎ P p) prices
      → All P (filter (λ p. not (f.is_zero p)) prices)
  All-nonzero P [] z h = tt
  All-nonzero P (p ∷ ps) z (inl e, h) =
      let dropped : f.is_zero p ≡ true = ap f.is_zero e ∙ z in rw dropped (All-nonzero P ps z h)
  All-nonzero P (p ∷ ps) z (inr k, h) = elim (Bool-cases (f.is_zero p)) [
    | inl d ↦ rw d (All-nonzero P ps z h)
    | inr d ↦ rw d (k, All-nonzero P ps z h)
  ]

  -- The ten answers of an exchange.
  abbrev pub contents : GraphQlAliasedPairPrices → List GraphQlPairContent
  contents r = r.p0 ∷ r.p1 ∷ r.p2 ∷ r.p3 ∷ r.p4 ∷ r.p5 ∷ r.p6 ∷ r.p7 ∷ r.p8 ∷ r.p9 ∷ []

  abbrev pub IsIn : {A : Type 0} → A → List A → Type 0
  IsIn x [] = false ≡ true
  IsIn x (y ∷ ys) = (x ≡ y) ⊎ IsIn x ys

  -- A price of one of these answers.
  abbrev pub IsStated : String → String → String → List GraphQlPairContent → f.F → Type 0
  IsStated base target dex l price =
      (pair : GraphQlPairContent) × IsIn pair l × IsLiquid base target dex pair price

  IsStated-later :
      (base target dex : String) (y : GraphQlPairContent) (l : List GraphQlPairContent)
      (prices : List f.F)
      → All (λ p. (p ≡ f.of_nat 0) ⊎ IsStated base target dex l p) prices
      → All (λ p. (p ≡ f.of_nat 0) ⊎ IsStated base target dex (y ∷ l) p) prices
  IsStated-later base target dex y l [] h = tt
  IsStated-later base target dex y l (p ∷ ps) (inl z, h) =
      (inl z, IsStated-later base target dex y l ps h)
  IsStated-later base target dex y l (p ∷ ps) (inr (pair, there, is), h) =
      (inr (pair, inr there, is), IsStated-later base target dex y l ps h)

  All-IsStated :
      (base target dex : String) (l : List GraphQlPairContent)
      → All
          (λ p. (p ≡ f.of_nat 0) ⊎ IsStated base target dex l p)
          (map (process_price_data f base target dex) l)
  All-IsStated base target dex [] = tt
  All-IsStated base target dex (pair ∷ l) =
      let rest = IsStated-later base target dex pair l _ (All-IsStated base target dex l) in
      elim (process_price_data-cases base target dex pair) [
        | inl z ↦ (inl z, rest)
        | inr is ↦ (inr (pair, inl refl, is), rest)
      ]

  All-prices_of :
      (base target : String) (dex : String) (r : GraphQlAliasedPairPrices)
      → All
          (λ p. (p ≡ f.of_nat 0) ⊎ IsStated base target dex (contents r) p)
          (prices_of f base target dex r)
  unfolding prices_of
  All-prices_of base target dex r = All-IsStated base target dex (contents r)

  module _ (q : Subgraphs) (pairs : Gorm (DexPairs f.F)) (base target : String)
      (blocks : List (String × ℕ)) where
    -- `api` is asked in the state `s'`, when `apis` are asked in their order from `s` on.
    abbrev pub AskedIn : List QlApi → q.Conn × pairs.Table → QlApi → q.Conn × pairs.Table → Type 0
    AskedIn [] s api s' = false ≡ true
    AskedIn (x ∷ xs) s api s' =
        ((x ≡ api) × (s ≡ s'))
        ⊎ AskedIn xs
            (get_pair_prices_from_dex f q pairs base target x (block_of x.chain blocks) s).1 api s'

    -- A price of the ten that `api` answers in that state for the contract of the pair that the
    -- table then has.
    abbrev pub IsFrom : QlApi → q.Conn × pairs.Table → f.F → Type 0
    IsFrom api (c, t) price =
        (row : DexPairs f.F) × ((find_by_dex_pair_name (f.of_nat 0) f.gt pairs base target api.name
            t).0
          ≡ ok row)
        × IsStated base target api.name
            (contents
              (get_recent_pair_prices q row.contract_address api (block_of api.chain blocks) c).0)
            price

    -- A price of one of the exchanges.
    abbrev pub IsSourced : List QlApi → q.Conn × pairs.Table → f.F → Type 0
    IsSourced apis s price =
        (api : QlApi) × (s' : q.Conn × pairs.Table) × AskedIn apis s api s' × IsFrom api s' price

    All-IsFrom :
        (api : QlApi) (c : q.Conn) (t : pairs.Table) (row : DexPairs f.F) (prices : List f.F)
        → (find_by_dex_pair_name (f.of_nat 0) f.gt pairs base target api.name t).0 ≡ ok row
        → All
            (λ p.
              (p ≡ f.of_nat 0)
              ⊎ IsStated base target api.name
                  (contents
                    (get_recent_pair_prices q row.contract_address api
                      (block_of api.chain blocks)
                      c).0)
                  p)
            prices
        → All (λ p. (p ≡ f.of_nat 0) ⊎ IsFrom api (c, t) p) prices
    All-IsFrom api c t row [] found h = tt
    All-IsFrom api c t row (p ∷ ps) found (inl z, h) = (inl z, All-IsFrom api c t row ps found h)
    All-IsFrom api c t row (p ∷ ps) found (inr is, h) =
        (inr (row, found, is), All-IsFrom api c t row ps found h)

    All-get_pair_prices_from_dex :
        (api : QlApi) (s : q.Conn × pairs.Table)
        → All
            (λ p. (p ≡ f.of_nat 0) ⊎ IsFrom api s p)
            (get_pair_prices_from_dex f q pairs base target api (block_of api.chain blocks) s).0
    unfolding get_pair_prices_from_dex
    All-get_pair_prices_from_dex api (c, t) =
        let dex = get_pair_prices_from_dex f q pairs base target api (block_of api.chain blocks) in
        let P = λ (p : f.F). (p ≡ f.of_nat 0) ⊎ IsFrom api (c, t) p in
        elim (Result-cases
          (find_by_dex_pair_name (f.of_nat 0) f.gt pairs base target api.name t).0) [
            | inr (m, e) ↦
                let empty : (dex (c, t)).0 ≡ [] = rw e refl in subst (All P) (sym empty) tt
            | inl (row, e) ↦ elim (Bool-cases (row.id == 0)) [
              | inl h ↦
                  let empty : (dex (c, t)).0 ≡ [] = rw (e, h) refl in subst (All P) (sym empty) tt
              | inr h ↦
                  let answers =
                    (get_recent_pair_prices q row.contract_address api (block_of api.chain blocks)
                      c).0 in
                  let same : (dex (c, t)).0 ≡ prices_of f base target api.name answers =
                    rw (e, h) refl in
                  subst (All P) (sym same)
                    (All-IsFrom api c t row _ e (All-prices_of base target api.name answers))
            ]
          ]

    All-here :
        (api : QlApi) (apis : List QlApi) (s : q.Conn × pairs.Table) (prices : List f.F)
        → All (IsFrom api s) prices
        → All (IsSourced (api ∷ apis) s) prices
    All-here api apis s [] h = tt
    All-here api apis s (p ∷ ps) (is, h) =
        ((api, s, inl (refl, refl), is), All-here api apis s ps h)

    All-there :
        (api : QlApi) (apis : List QlApi) (s : q.Conn × pairs.Table) (prices : List f.F)
        → All
            (IsSourced apis
              (get_pair_prices_from_dex f q pairs base target api (block_of api.chain blocks) s).1)
            prices
        → All (IsSourced (api ∷ apis) s) prices
    All-there api apis s [] h = tt
    All-there api apis s (p ∷ ps) ((api', s', asked, is), h) =
        ((api', s', inr asked, is), All-there api apis s ps h)

    -- If the number 0 counts as 0, for every price that enters the mean there is an exchange, in
    -- the state in which it is asked when all are asked in their order, that has a row for the
    -- pair in the table, and that states this price among its ten answers for the contract of that
    -- row: it is the token 1 price if the tokens are the base and the target in this order and
    -- else the token 0 price, and the reserve, or the total value locked for uniswapv3, can be
    -- read and is not below 30000.
    pub raw_prices-IsSourced :
        (apis : List QlApi) (s : q.Conn × pairs.Table)
        → f.is_zero (f.of_nat 0) ≡ true
        → All (IsSourced apis s) (raw_prices f q pairs base target blocks apis s).0
    unfolding raw_prices
    raw_prices-IsSourced [] s z = tt
    raw_prices-IsSourced (api ∷ apis) s z =
        let dex =
          get_pair_prices_from_dex f q pairs base target api (block_of api.chain blocks) s in
        let kept = filter (λ p. not (f.is_zero p)) dex.0 in
        All-append (IsSourced (api ∷ apis) s) kept
          (raw_prices f q pairs base target blocks apis dex.1).0
          (All-here api apis s kept
            (All-nonzero (IsFrom api s) dex.0 z (All-get_pair_prices_from_dex api s)))
          (All-there api apis s _ (raw_prices-IsSourced apis dex.1 z))
