-- ===== src/Chain/Events/Blocks.antt =====
-- go-ooo/chain/chain.go: the last block that was seen, over a run of events, and its record.
use xfund_router.Common.{
  ℕ, ◌≡◌, ◌⊎◌, ◌<◌, ◌≤◌, refl, sym, inl, inr, true, List, [], ◌∷◌, ◌++◌, arith, ◌==◌, ltb, value_or,
  any, All, Bool-cases, Result-cases, ◌∙◌,
}
use xfund_router.Models.{ToBlocks, no_block}
use xfund_router.Gorm.{Gorm, IsGorm}
use xfund_router.Database.Schemas.{block_schema}
use xfund_router.Database.Queries.{get_last_block_num_queried}
use xfund_router.Database.Transactions.{insert_new_to_block}
use xfund_router.Chain.Env.{Env, Node}
use xfund_router.Chain.Events.{record_block, set_last_block_number}

-- The handlers record the blocks of their events one after the other.
abbrev pub see : {e : Env} → List ℕ → Node e → Node e
see [] n = n
see (b ∷ bs) n = see bs (set_last_block_number b n)

see-rises :
    {e : Env} (bs : List ℕ) (n : Node e) → n.last_block_number ≤ (see bs n).last_block_number
unfolding set_last_block_number record_block
see-rises [] n = omega arith
see-rises (b ∷ bs) n = ground (arith, see-rises bs (set_last_block_number b n))

-- Whatever the order of the events, the last block ends at or above each of their blocks and the
-- block it started from, and is one of these.
pub see-bounds :
    {e : Env} (bs : List ℕ) (n : Node e)
    → All (λ b. b ≤ (see bs n).last_block_number) bs
      × (n.last_block_number ≤ (see bs n).last_block_number)
      × (any (λ b. b == (see bs n).last_block_number) (n.last_block_number ∷ bs) ≡ true)
unfolding set_last_block_number record_block
see-bounds [] n = ground arith
see-bounds (b ∷ bs) n =
    ground
      (arith, see-bounds bs (set_last_block_number b n), see-rises bs (set_last_block_number b n))

module _ (g : Gorm ToBlocks) (law : IsGorm block_schema g) (t : g.Table) (to_block : ℕ) where
  -- With a database that keeps its promises, recording a block leaves the rows as they are or
  -- appends one row with that block, and a row is appended only if the block is above that of the
  -- last row that the database reports.
  pub insert_new_to_block-cases :
      let t' = (insert_new_to_block g to_block t).1 in
      (g.rows t' ≡ g.rows t)
      ⊎ ((b : ToBlocks) × (g.rows t' ≡ g.rows t ++ b ∷ [])
          × (b.block_num ≡ to_block)
          × ((value_or no_block (g.last t).0).block_num < to_block))
  unfolding insert_new_to_block get_last_block_num_queried
  insert_new_to_block-cases =
      let block : ToBlocks = record no_block { block_num = to_block } in
      let t1 = (g.last t).1 in
      elim (Bool-cases (ltb (value_or no_block (g.last t).0).block_num to_block)) [
        | inr q ↦ inl (rw q (law.last_rows t))
        | inl q ↦ elim (Result-cases (g.create block t1).0) [
          | inr (m, h) ↦ inl (rw q (law.create_err block t1 m h ∙ law.last_rows t))
          | inl (b, h) ↦
              let (shape, _, _, _, table) = law.create_ok block b t1 h in
              inr (b, rw (q, sym (law.last_rows t)) table, rw shape refl, ground arith)
        ]
      ]
