-- ===== src/OooApi/Adhoc/Blocks.antt =====
-- go-ooo/ooo_api/adhoc.go: the chains that are asked for their block, and the blocks of a query.
use xfund_router.Common.{
  ℕ, ◌*◌, ◌-◌, ◌%◌, ◌≤◌, ◌<◌, ◌≡◌, ◌⊎◌, inl, inr, refl, sym, ◌∙◌, ap, String, List, [], ◌∷◌, ◌++◌,
  map, any, arith, ltb, str_eq, eq_iff, Bool-cases, value_or,
}
use xfund_router.Common.Words.{u64_mod, mul64, sub64-eq_of_le, sub64_wraps}
use xfund_router.OooApi.Adhoc.Dexs.{QlApi, get_ql_apis, add_chains, get_chains}
use xfund_router.OooApi.Adhoc.Queries.{block_ago}
use xfund_router.OooApi.Adhoc.Graph.{Subgraphs, get_current_block_number_for_chain}
use xfund_router.OooApi.Adhoc.Price.{has_chain, current_blocks}

pub block_ago-cases :
    (blocks_per_min current_block k : ℕ)
    → blocks_per_min * k < u64_mod
    → current_block < u64_mod
    → ((blocks_per_min * k ≤ current_block)
        × (block_ago blocks_per_min current_block k ≡ current_block - blocks_per_min * k))
      ⊎ ((current_block < blocks_per_min * k)
          × (block_ago blocks_per_min current_block k
              ≡ u64_mod - (blocks_per_min * k - current_block)))
unfolding block_ago mul64
block_ago-cases blocks_per_min current_block k h l =
    let ago = blocks_per_min * k in
    let whole : ago % u64_mod ≡ ago = omega (arith, h) in
    elim (Bool-cases (ltb current_block ago)) [
      | inl b ↦
          let below : current_block < ago = ground (arith, b) in
          inr (below, rw whole (sub64_wraps current_block ago below h))
      | inr b ↦
          let above : ago ≤ current_block = ground (arith, b) in
          inl (above, rw whole (sub64-eq_of_le current_block ago above l))
    ]

abbrev pub chains_of : List (String × ℕ) → List String
chains_of = map (λ b. b.0)

chains_of-append :
    (blocks : List (String × ℕ)) (chain : String) (n : ℕ)
    → chains_of (blocks ++ (chain, n) ∷ []) ≡ chains_of blocks ++ chain ∷ []
chains_of-append [] chain n = refl
chains_of-append (b ∷ blocks) chain n = ap (λ x. b.0 ∷ x) (chains_of-append blocks chain n)

has_chain-any :
    (chain : String) (blocks : List (String × ℕ))
    → has_chain chain blocks ≡ any (str_eq chain) (chains_of blocks)
has_chain-any chain [] = refl
has_chain-any chain ((c, n) ∷ blocks) =
    ground (arith, has_chain-any chain blocks, eq_iff c chain, eq_iff chain c)

module _ (q : Subgraphs) where
  current_blocks-add_chains :
      (apis : List QlApi) (blocks : List (String × ℕ)) (c : q.Conn)
      → chains_of (current_blocks q apis blocks c).0 ≡ add_chains apis (chains_of blocks)
  unfolding current_blocks add_chains
  current_blocks-add_chains [] blocks c = refl
  current_blocks-add_chains (api ∷ apis) blocks c = elim (Bool-cases (has_chain api.chain blocks)) [
    | inl h ↦
        rw (h, sym (has_chain-any api.chain blocks) ∙ h) (current_blocks-add_chains apis blocks c)
    | inr h ↦
        let (n, c1) = get_current_block_number_for_chain q api.chain c in
        rw (h, sym (has_chain-any api.chain blocks) ∙ h)
          (current_blocks-add_chains apis (blocks ++ (api.chain, value_or 0 n) ∷ []) c1
            ∙ ap (add_chains apis) (chains_of-append blocks api.chain (value_or 0 n)))
  ]

  pub current_blocks-get_chains :
      (c : q.Conn) → chains_of (current_blocks q get_ql_apis [] c).0 ≡ get_chains
  unfolding get_chains
  current_blocks-get_chains c = current_blocks-add_chains get_ql_apis [] c
