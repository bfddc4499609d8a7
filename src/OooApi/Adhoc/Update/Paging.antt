-- ===== src/OooApi/Adhoc/Update/Paging.antt =====
-- go-ooo/ooo_api/adhoc.go, updateAllTokensAndPairs: the loop over the pages of an exchange.
use xfund_router.Common.{
  ℕ, zero, suc, ◌≤◌, ◌≡◌, ◌∙◌, refl, sym, ap, String, true, false, List, [], ◌∷◌, ◌++◌, some, ◌==◌,
  length, arith,
}
use xfund_router.Common.Words.{add64}
use xfund_router.Models.Tokens.{TokenContracts, DexTokens, DexPairs}
use xfund_router.Gorm.{Gorm}
use xfund_router.Utils.{Floats}
use xfund_router.OooApi.Adhoc.Dexs.{QlApi}
use xfund_router.OooApi.Adhoc.Graph.{GraphQlPairContent, Subgraphs, get_pairs_from_graph_ql}
use xfund_router.OooApi.Adhoc.Update.{
  Tables, update_pairs_in_db, next_pages, update_all_tokens_and_pairs,
}

module _ (q : Subgraphs) (api : QlApi) where
  -- `Pages n skip c all c'`: over the connection `c`, the pages from `skip` on are `n`, all full
  -- but the last one; `all` are their pairs in order, and `c'` is the connection afterwards.
  pub data Pages : ℕ → ℕ → q.Conn → List GraphQlPairContent → q.Conn → Type 0 where
    last_page :
        (skip : ℕ) (c : q.Conn)
        → (length (get_pairs_from_graph_ql q api skip c).0 == 1000) ≡ false
        → Pages 1 skip c
            (get_pairs_from_graph_ql q api skip c).0
            (get_pairs_from_graph_ql q api skip c).1
    full_page :
        (n skip : ℕ) (c : q.Conn) (rest : List GraphQlPairContent) (c' : q.Conn)
        → (length (get_pairs_from_graph_ql q api skip c).0 == 1000) ≡ true
        → Pages n (add64 skip 1000) (get_pairs_from_graph_ql q api skip c).1 rest c'
        → Pages (suc n) skip c ((get_pairs_from_graph_ql q api skip c).0 ++ rest) c'

module _ (f : Floats) (contracts : Gorm TokenContracts) (tokens : Gorm DexTokens)
    (pairs : Gorm (DexPairs f.F)) where
  update_pairs_in_db-append :
      (ps qs : List GraphQlPairContent) (dex chain : String) (t : Tables f contracts tokens pairs)
      → update_pairs_in_db f contracts tokens pairs (ps ++ qs) dex chain t
        ≡ update_pairs_in_db f contracts tokens pairs qs dex chain
            (update_pairs_in_db f contracts tokens pairs ps dex chain t)
  unfolding update_pairs_in_db
  update_pairs_in_db-append [] qs dex chain t = refl
  update_pairs_in_db-append (p ∷ ps) qs dex chain t = update_pairs_in_db-append ps qs dex chain _

  module _ (q : Subgraphs) (api : QlApi) where
    abbrev store :
        List GraphQlPairContent → Tables f contracts tokens pairs → Tables f contracts tokens pairs
    store ps t = update_pairs_in_db f contracts tokens pairs ps api.name api.chain t

    next_pages-Pages :
        (n skip fuel : ℕ) (c c' : q.Conn) (all : List GraphQlPairContent)
        (t : Tables f contracts tokens pairs)
        → Pages q api n skip c all c'
        → n ≤ fuel
        → let (page, c1) = get_pairs_from_graph_ql q api skip c in
          next_pages f contracts tokens pairs q fuel api page (add64 skip 1000) (c1, store page t)
          ≡ some (c', store all t)
    unfolding next_pages
    next_pages-Pages _ _ zero _ _ _ t (last_page skip c h) le = absurd (omega (arith, le))
    next_pages-Pages _ _ zero _ _ _ t (full_page m skip c rest c' h more) le =
        absurd (omega (arith, le))
    next_pages-Pages _ _ (suc fuel) _ _ _ t (last_page skip c h) le = rw h refl
    next_pages-Pages _ _ (suc fuel) _ _ _ t (full_page m skip c rest c' h more) le = rw h (
        next_pages-Pages m (add64 skip 1000) fuel (get_pairs_from_graph_ql q api skip c).1 c' rest
          (store (get_pairs_from_graph_ql q api skip c).0 t) more (omega (arith, le))
        ∙ ap (λ x. some (c', x))
            (sym (
              update_pairs_in_db-append (get_pairs_from_graph_ql q api skip c).0 rest api.name
                api.chain t)))

    -- If the exchange answers with n pages, all of 1000 pairs but the last one, then with fuel for
    -- n rounds the loop ends after n requests, and the tables are as after storing all pairs of
    -- these pages in one go, in their order.
    pub update_all_tokens_and_pairs-Pages :
        (n fuel : ℕ) (c c' : q.Conn) (all : List GraphQlPairContent)
        (t : Tables f contracts tokens pairs)
        → Pages q api n 0 c all c'
        → n ≤ fuel
        → update_all_tokens_and_pairs f contracts tokens pairs q fuel api (c, t)
          ≡ some (c', update_pairs_in_db f contracts tokens pairs all api.name api.chain t)
    unfolding update_all_tokens_and_pairs add64
    update_all_tokens_and_pairs-Pages n fuel c c' all t pages le =
        next_pages-Pages n 0 fuel c c' all t pages le
