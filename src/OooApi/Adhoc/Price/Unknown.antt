-- ===== src/OooApi/Adhoc/Price/Unknown.antt =====
-- go-ooo/ooo_api/adhoc.go: a pair that no exchange has.
use xfund_router.Common.{
  ℕ, ◌≡◌, ◌≢◌, refl, sym, ◌∙◌, subst, String, Bool, true, false, List, [], ◌∷◌, some, ok, err, any,
  All, Result-cases, inl, inr,
}
use xfund_router.Models.Tokens.{DexPairs}
use xfund_router.Gorm.{Gorm, IsGorm}
use xfund_router.Database.Schemas.{dex_pair_schema}
use xfund_router.Database.Tokens.{find_by_dex_pair_name, is_pair_of}
use xfund_router.Utils.{Floats}
use xfund_router.OooApi.Endpoint.{Endpoint, parse_endpoint}
use xfund_router.OooApi.Adhoc.Dexs.{QlApi, get_ql_apis}
use xfund_router.OooApi.Adhoc.Graph.{Subgraphs}
use xfund_router.OooApi.Adhoc.Price.{
  get_pair_prices_from_dex, raw_prices, price_of_raw, price_at, query_adhoc, current_blocks,
  block_of,
}

false_ne_true : false ≢ true
false_ne_true h = absurd (cc)

module _ (f : Floats) where
  module _ (q : Subgraphs) (pairs : Gorm (DexPairs f.F)) where
    module _ (law : IsGorm dex_pair_schema pairs) where
      abbrev pub IsUnknown : String → String → List (DexPairs f.F) → QlApi → Type 0
      IsUnknown base target rows api =
          any (is_pair_of (f.of_nat 0) f.gt pairs base target api.name) rows ≡ false

      find_by_dex_pair_name-rows :
          (base target dex : String) (t : pairs.Table)
          → pairs.rows (find_by_dex_pair_name (f.of_nat 0) f.gt pairs base target dex t).1
            ≡ pairs.rows t
      unfolding find_by_dex_pair_name
      find_by_dex_pair_name-rows base target dex t =
          law.top_rows (is_pair_of (f.of_nat 0) f.gt pairs base target dex)
            (λ a b. f.gt a.reserve_usd b.reserve_usd) t

      -- Neither the exchange nor the table is changed.
      dex-unknown :
          (base target : String) (api : QlApi) (current_block : ℕ) (c : q.Conn) (t : pairs.Table)
          → IsUnknown base target (pairs.rows t) api
          → (get_pair_prices_from_dex f q pairs base target api current_block (c, t))
            ≡ ([], (c, (find_by_dex_pair_name (f.of_nat 0) f.gt pairs base target api.name t).1))
      unfolding get_pair_prices_from_dex find_by_dex_pair_name
      dex-unknown base target api current_block c t h =
          let p = is_pair_of (f.of_nat 0) f.gt pairs base target api.name in
          let before : DexPairs f.F → DexPairs f.F → Bool =
            λ a b. f.gt a.reserve_usd b.reserve_usd in
          elim (Result-cases (pairs.top p before t).0) [
            | inl (r, e) ↦ absurd (false_ne_true (sym h ∙ (law.top_ok p before t r e).1))
            | inr (m, e) ↦ rw e refl
          ]

      raw_prices-unknown :
          (base target : String) (blocks : List (String × ℕ)) (apis : List QlApi) (c : q.Conn)
          (t : pairs.Table)
          → All (IsUnknown base target (pairs.rows t)) apis
          → ((raw_prices f q pairs base target blocks apis (c, t)).0 ≡ [])
            × ((raw_prices f q pairs base target blocks apis (c, t)).1.0 ≡ c)
            × (pairs.rows (raw_prices f q pairs base target blocks apis (c, t)).1.1 ≡ pairs.rows t)
      unfolding raw_prices
      raw_prices-unknown base target blocks [] c t h = (refl, refl, refl)
      raw_prices-unknown base target blocks (api ∷ apis) c t h =
          let t1 = (find_by_dex_pair_name (f.of_nat 0) f.gt pairs base target api.name t).1 in
          let same : pairs.rows t1 ≡ pairs.rows t =
            find_by_dex_pair_name-rows base target api.name t in
          let (none_left, asked, rows) =
            raw_prices-unknown base target blocks apis c t1
              (subst (λ x. All (IsUnknown base target x) apis) (sym same) h.1) in
          rw (dex-unknown base target api (block_of api.chain blocks) c t h.0)
            (none_left, asked, rows ∙ same)

      -- With a database that keeps its promises, for an endpoint that parses and whose pair is in
      -- the table for none of the exchanges in either order, an ad-hoc query fails as the mean of
      -- no prices does, asks no exchange after the block numbers, and changes no row.
      pub query_adhoc-unknown :
          (endpoint : String) (ep : Endpoint) (c : q.Conn) (t : pairs.Table) (m : String)
          → parse_endpoint endpoint ≡ ok ep
          → All (IsUnknown ep.base ep.target (pairs.rows t)) get_ql_apis
          → f.mean [] ≡ err m
          → let (answer, (c', t')) = query_adhoc f q pairs endpoint (c, t) in
            (answer ≡ some (err m))
            × (c' ≡ (current_blocks q get_ql_apis [] c).1)
            × (pairs.rows t' ≡ pairs.rows t)
      unfolding query_adhoc price_at price_of_raw
      query_adhoc-unknown endpoint ep c t m parsed h empty =
          let (blocks, c1) = current_blocks q get_ql_apis [] c in
          let (no_price, asked, rows) =
            raw_prices-unknown ep.base ep.target blocks get_ql_apis c1 t h in
          rw parsed (rw (no_price, empty) refl, asked, rows)
