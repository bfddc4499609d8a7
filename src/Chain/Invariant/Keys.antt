-- ===== src/Chain/Invariant/Keys.antt =====
-- Uniqueness of primary keys and request ids, for inserts and updates.
use xfund_router.Common.{
  ℕ, String, ◌≡◌, ◌≢◌, refl, Bool, false, some, List, [], ◌∷◌, ◌++◌, arith, find?, any, str_eq,
  eq_iff,
}
use xfund_router.Models.{DataRequests}
use xfund_router.Gorm.{contains_id, replace, Distinct}
use xfund_router.Gorm.Rows.{contains_id-find?, replace_fresh, Distinct-replace}
use xfund_router.Database.Schemas.{request_schema, has_request_id}
use xfund_router.Chain.Closed.{apply}
use xfund_router.Chain.Invariant.{IsRowInvariant, edit_keeps_id, edit_keeps_request_id}

-- No request id twice.
abbrev pub UniqueRequests : List DataRequests → Type 0
UniqueRequests [] = Unit
UniqueRequests (x ∷ xs) = (any (has_request_id x.request_id) xs ≡ false) × UniqueRequests xs

pub record HasKeys (rows : List DataRequests) : Type 0 where
  pub distinct : Distinct request_schema rows
  pub unique : UniqueRequests rows

contains_id-append :
    (n : ℕ) (rows : List DataRequests) (r : DataRequests)
    → contains_id request_schema n rows ≡ false
    → n ≢ r.id
    → contains_id request_schema n (rows ++ r ∷ []) ≡ false
contains_id-append n [] r h k = ground arith
contains_id-append n (x ∷ xs) r h k = ground (arith, contains_id-append n xs r)

pub Distinct-append :
    (rows : List DataRequests) (r : DataRequests)
    → Distinct request_schema rows
    → contains_id request_schema r.id rows ≡ false
    → Distinct request_schema (rows ++ r ∷ [])
Distinct-append [] r d h = (refl, tt)
Distinct-append (x ∷ xs) r d h =
    ground (arith, Distinct-append xs r d.1, contains_id-append x.id xs r d.0)

any-append :
    (k : String) (rows : List DataRequests) (r : DataRequests)
    → any (has_request_id k) rows ≡ false
    → has_request_id k r ≡ false
    → any (has_request_id k) (rows ++ r ∷ []) ≡ false
any-append k [] r h g = ground arith
any-append k (x ∷ xs) r h g = ground (arith, any-append k xs r)

str_eq_symm : (a b : String) → str_eq a b ≡ false → str_eq b a ≡ false
str_eq_symm a b h = ground (arith, eq_iff a b, eq_iff b a)

UniqueRequests-append :
    (rows : List DataRequests) (r : DataRequests)
    → UniqueRequests rows
    → any (has_request_id r.request_id) rows ≡ false
    → UniqueRequests (rows ++ r ∷ [])
UniqueRequests-append [] r d h = (refl, tt)
UniqueRequests-append (x ∷ xs) r d h = ground (
  arith,
  UniqueRequests-append xs r d.1,
  any-append x.request_id xs r d.0,
  str_eq_symm x.request_id r.request_id,
)

-- A row that keeps its key and its request id changes no search by request id.
any-replace :
    (p : DataRequests → Bool) (k : String) (r r' : DataRequests) (rows : List DataRequests)
    → Distinct request_schema rows
    → find? p rows ≡ some r
    → r'.id ≡ r.id
    → r'.request_id ≡ r.request_id
    → any (has_request_id k) (replace request_schema r' rows) ≡ any (has_request_id k) rows
any-replace p k r r' [] d found e e' = refl
any-replace p k r r' (x ∷ xs) d found e e' = ground (
  arith,
  any-replace p k r r' xs d.1,
  contains_id-find? request_schema p xs r,
  replace_fresh request_schema r' xs,
)

UniqueRequests-replace :
    (p : DataRequests → Bool) (r r' : DataRequests) (rows : List DataRequests)
    → Distinct request_schema rows
    → find? p rows ≡ some r
    → r'.id ≡ r.id
    → r'.request_id ≡ r.request_id
    → UniqueRequests rows
    → UniqueRequests (replace request_schema r' rows)
UniqueRequests-replace p r r' [] d found e e' u = tt
UniqueRequests-replace p r r' (x ∷ xs) d found e e' u = ground (
  arith,
  UniqueRequests-replace p r r' xs d.1,
  any-replace p x.request_id r r' xs d.1,
  contains_id-find? request_schema p xs r,
  replace_fresh request_schema r' xs,
)

pub Keys-IsRowInvariant : IsRowInvariant HasKeys
Keys-IsRowInvariant = record {
  insert = λ r rows n f v. record {
    distinct = Distinct-append rows r v.distinct f.new_key;
    unique = UniqueRequests-append rows r v.unique f.new_request_id;
  };
  edit = λ k c r rows found v. record {
    distinct = Distinct-replace request_schema (apply c r) rows v.distinct;
    unique =
        UniqueRequests-replace (has_request_id k) r (apply c r) rows v.distinct found
          (edit_keeps_id c r) (edit_keeps_request_id c r) v.unique;
  };
}
