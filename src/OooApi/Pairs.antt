-- ===== src/OooApi/Pairs.antt =====
-- go-ooo/ooo_api/api.go, UpdateSupportedPairs: the table of pairs, brought in line with the API.
pub mod Names
use Prim.Native.String.{◌++◌ as ◌<>◌}
use xfund_router.Common.{
  String, Bool, List, [], ◌∷◌, Result, ok, err, value_or, ◌==◌, if◌then◌else◌, map,
}
use xfund_router.Models.{SupportedPairs, no_pair}
use xfund_router.Gorm.{Gorm}
use xfund_router.Database.Queries.{pair_is_supported_by_pair_name, pairs_no_longer_supported}
use xfund_router.Database.Transactions.{add_new_supported_pair}
use xfund_router.OooApi.Finchains.{Http, OooApiPairsResult}

module _ (g : Gorm SupportedPairs) where
  -- The body of the loop over the answer.
  unfoldable pub add_if_new : OooApiPairsResult → g.Table → g.Table
  add_if_new p t =
      let (r, t1) = pair_is_supported_by_pair_name g p.name t in
      let (e, t2) = add_new_supported_pair g p.name p.base p.target t1 in
      if (value_or no_pair r).id == 0 then t2 else t1

  unfoldable pub add_missing : List OooApiPairsResult → g.Table → g.Table
  add_missing [] t = t
  add_missing (p ∷ ps) t = add_missing ps (add_if_new p t)

  -- `o.db.Unscoped().Delete(&p)` for each; an error is not looked at.
  unfoldable pub delete_each : List SupportedPairs → g.Table → g.Table
  delete_each [] t = t
  delete_each (p ∷ ps) t = delete_each ps (g.delete p t).1

  -- A failed query leaves no pair to delete, whatever the error.
  unfoldable pub delete_unsupported : Result (List SupportedPairs) → g.Table → g.Table
  delete_unsupported (ok gone) t = delete_each gone t
  delete_unsupported (err m) t = t

  unfoldable pub refresh : List OooApiPairsResult → g.Table → g.Table
  refresh result t =
      let t1 = add_missing result t in
      let (gone, t2) = pairs_no_longer_supported g (map (λ p. p.name) result) t1 in
      delete_unsupported gone t2

  unfoldable pub refresh_from : (h : Http) → Result h.Response → g.Table → g.Table
  refresh_from h (err m) t = t
  refresh_from h (ok r) t = elim (h.pairs_of (h.read_part r)) [
    | ok result ↦ refresh result t
    | err m ↦ t
  ]

  unfoldable pub update_supported_pairs : (h : Http) → String → h.Conn × g.Table → h.Conn × g.Table
  update_supported_pairs h base_url (c, t) =
      let (r, c1) = h.get (base_url <> "/pairs") c in (c1, refresh_from h r t)
