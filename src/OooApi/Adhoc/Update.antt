-- ===== src/OooApi/Adhoc/Update.antt =====
-- go-ooo/ooo_api/adhoc.go: the tokens and pairs of the exchanges, stored page by page.
pub mod Paging
use xfund_router.Common.{
  ℕ, zero, suc, String, Bool, List, [], ◌∷◌, Option, none, some, ◌==◌, if◌then◌else◌, str_eq,
  length,
}
use xfund_router.Common.Words.{add64}
use xfund_router.Models.Tokens.{TokenContracts, DexTokens, DexPairs}
use xfund_router.Gorm.{Gorm}
use xfund_router.Database.Tokens.{
  find_or_insert_new_token_contract, find_or_insert_new_dex_token, find_or_insert_new_dex_pair,
}
use xfund_router.Utils.{Floats, parse_big_float}
use xfund_router.OooApi.Adhoc.Dexs.{QlApi, get_ql_apis}
use xfund_router.OooApi.Adhoc.Graph.{GraphQlPairContent, Subgraphs, get_pairs_from_graph_ql}

-- The reserve that an exchange reports.
abbrev pub dex_reserve : String → GraphQlPairContent → String
dex_reserve dex pair =
    if str_eq dex "uniswapv3" then pair.total_value_locked_usd else pair.reserve_usd

module _ (f : Floats) (contracts : Gorm TokenContracts) (tokens : Gorm DexTokens)
    (pairs : Gorm (DexPairs f.F)) where
  abbrev pub Tables : Type 0
  Tables = contracts.Table × (tokens.Table × pairs.Table)

  -- One round of the loop; the errors are dropped.
  unfoldable pub update_pair_in_db : String → String → GraphQlPairContent → Tables → Tables
  update_pair_in_db dex chain pair (tc, (tt, tp)) =
      let sym0 = pair.token0.symbol in
      let sym1 = pair.token1.symbol in
      let (t0_db, tc1) = find_or_insert_new_token_contract contracts sym0 pair.token0.id chain tc in
      let (t1_db, tc2) =
        find_or_insert_new_token_contract contracts sym1 pair.token1.id chain tc1 in
      let (t0_dt_db, tt1) = find_or_insert_new_dex_token tokens sym0 t0_db.0.id dex chain tt in
      let (t1_dt_db, tt2) = find_or_insert_new_dex_token tokens sym1 t1_db.0.id dex chain tt1 in
      let reserve_usd = f.float64 (parse_big_float f (dex_reserve dex pair)).0 in
      let (row, tp1) =
        find_or_insert_new_dex_pair (f.of_nat 0) f.gt pairs sym0 sym1 pair.id dex t0_dt_db.0.id
          t1_dt_db.0.id reserve_usd tp in
      (tc2, (tt2, tp1))

  unfoldable pub update_pairs_in_db : List GraphQlPairContent → String → String → Tables → Tables
  update_pairs_in_db [] dex chain t = t
  update_pairs_in_db (pair ∷ ps) dex chain t =
      update_pairs_in_db ps dex chain (update_pair_in_db dex chain pair t)

  module _ (q : Subgraphs) where
    -- What is left after a page has been stored, on fuel: another page as long as the last one
    -- was full. `none` is out of fuel.
    unfoldable pub next_pages :
        (fuel : ℕ)
        → QlApi
        → List GraphQlPairContent
        → ℕ
        → q.Conn × Tables
        → Option (q.Conn × Tables)
    next_pages zero api page skip s = none
    next_pages (suc fuel) api page skip (c, t) =
        let (page1, c1) = get_pairs_from_graph_ql q api skip c in
        let rest =
          next_pages fuel api page1 (add64 skip 1000)
            (c1, update_pairs_in_db page1 api.name api.chain t) in
        if length page == 1000 then rest else some (c, t)

    unfoldable pub update_all_tokens_and_pairs :
        (fuel : ℕ) → QlApi → q.Conn × Tables → Option (q.Conn × Tables)
    update_all_tokens_and_pairs fuel api (c, t) =
        let (page, c1) = get_pairs_from_graph_ql q api 0 c in
        next_pages fuel api page 1000 (c1, update_pairs_in_db page api.name api.chain t)

    unfoldable pub update_each :
        (fuel : ℕ) → List QlApi → q.Conn × Tables → Option (q.Conn × Tables)
    update_each fuel [] s = some s
    update_each fuel (api ∷ apis) s = elim (update_all_tokens_and_pairs fuel api s) [
      | none ↦ none
      | some s' ↦ update_each fuel apis s'
    ]

    unfoldable pub update_dex_tokens_and_pairs :
        (fuel : ℕ) → q.Conn × Tables → Option (q.Conn × Tables)
    update_dex_tokens_and_pairs fuel = update_each fuel get_ql_apis
