-- ===== src/Chain/Outcome.antt =====
-- What a handler that runs to its end leaves for one request, with a database that answers.
pub mod Fetch
pub mod Send
pub mod Retry
pub mod Incoming
pub mod Life
pub mod Finchains
use xfund_router.Common.{Bool, ◌≡◌, refl, String, Option, none, some, find?, ap, ◌∙◌}
use xfund_router.Models.{DataRequests, RequestStatus}
use xfund_router.Gorm.{IsGorm, Distinct}
use xfund_router.Gorm.Rows.{find?-sound, Distinct-replace, find?-replace_self}
use xfund_router.Gorm.Available.{IsUp, update_where_up}
use xfund_router.Gorm.Update.{update_where}
use xfund_router.Database.Schemas.{request_schema, has_request_id}
use xfund_router.Database.Transactions.{set_request_status, update_request_status}
use xfund_router.Chain.Env.{Env, Node}
use xfund_router.Chain.Monad.{M, ◌>>=◌, ◌>>◌, resume, pure, ignore, check, on_requests, modify}
use xfund_router.Chain.Fulfil.{set_status}

module _ {e : Env} where
  -- The call goes on with `a`, in a node of which `Q` holds.
  pub record Gives {A : Type 0} (a : A) (m : M e A) (n : Node e) (Q : Node e → Type 0)
      : Type 0 where
    pub value : (m n).0 ≡ some a
    pub after : Q (m n).1

  pub Gives->>= :
      {A B : Type 0} {a : A} {b : B} {m : M e A} {n : Node e} {P Q : Node e → Type 0}
      (f : A → M e B)
      → Gives a m n P
      → ((n' : Node e) → P n' → Gives b (f a) n' Q)
      → Gives b (m >>= f) n Q
  unfolding ◌>>=◌
  Gives->>= {m = m} {n = n} f h k =
      let g = k (m n).1 h.after in
      record { value = rw (h.value, resume) g.value; after = rw (h.value, resume) g.after }

  pub Gives-weaken :
      {A : Type 0} {a : A} {m : M e A} {n : Node e} {P Q : Node e → Type 0}
      → Gives a m n P
      → ((n' : Node e) → P n' → Q n')
      → Gives a m n Q
  Gives-weaken {m = m} {n = n} h k = record { value = h.value; after = k (m n).1 h.after }

  pub Gives-check :
      {m : M e (Option String)} {n : Node e} {Q : Node e → Type 0}
      → Gives none m n Q
      → Gives tt (check m) n Q
  unfolding check ◌>>=◌
  Gives-check {m = m} {n = n} h = record {
    value = rw (h.value, resume) refl;
    after = rw (h.value, resume) h.after;
  }

  pub Gives-ignore :
      {A : Type 0} {a : A} {m : M e A} {n : Node e} {Q : Node e → Type 0}
      → Gives a m n Q
      → Gives tt (ignore m) n Q
  unfolding ignore ◌>>=◌ pure
  Gives-ignore {m = m} {n = n} h = record {
    value = rw (h.value, resume) refl;
    after = rw (h.value, resume) h.after;
  }

  -- The row of the request `k` is `r`.
  pub record Has (k : String) (r : DataRequests) (n : Node e) : Type 0 where
    pub distinct : Distinct request_schema (e.requests.rows n.requests)
    pub found : find? (has_request_id k) (e.requests.rows n.requests) ≡ some r

  -- The row of `k` is `r`, and what is outside the tables is as it was in `n`.
  pub record Leaves (k : String) (r : DataRequests) (n n' : Node e) : Type 0 where
    pub has : Has k r n'
    pub same_api : n'.api ≡ n.api
    pub same_chain : n'.chain ≡ n.chain
    pub same_opts : n'.transact_opts ≡ n.transact_opts
    pub same_spawned : n'.spawned ≡ n.spawned

  pub Leaves-trans :
      {k : String} {r r' : DataRequests} {n m l : Node e}
      → Leaves k r n m
      → Leaves k r' m l
      → Leaves k r' n l
  Leaves-trans u v = record {
    has = v.has;
    same_api = v.same_api ∙ u.same_api;
    same_chain = v.same_chain ∙ u.same_chain;
    same_opts = v.same_opts ∙ u.same_opts;
    same_spawned = v.same_spawned ∙ u.same_spawned;
  }

  module _ (law : IsGorm request_schema e.requests) (up : IsUp request_schema e.requests) where
    pub Has-update_where :
        (k : String) (r : DataRequests) (f : DataRequests → DataRequests) (n : Node e)
        → ((x : DataRequests) → (f x).id ≡ x.id)
        → ((x : DataRequests) → (f x).request_id ≡ x.request_id)
        → Has k r n
        → Gives none
            (on_requests (update_where e.requests (has_request_id k) f))
            n
            (Leaves k (f r) n)
    unfolding on_requests
    Has-update_where k r f n same_id same_request h =
        let u =
          update_where_up request_schema e.requests law up (has_request_id k) f same_id n.requests r
            h.found in
        let there : has_request_id k (f r) ≡ Bool.true =
          rw (same_request r)
            (find?-sound (has_request_id k) (e.requests.rows n.requests) r h.found) in
        record {
          value = ap some u.0;
          after = record {
            has = record {
              distinct =
                  rw u.1
                    (Distinct-replace request_schema (f r) (e.requests.rows n.requests) h.distinct);
              found = rw u.1 (
                  find?-replace_self request_schema (has_request_id k) r (f r)
                    (e.requests.rows n.requests) h.distinct h.found (same_id r) there);
            };
            same_api = refl;
            same_chain = refl;
            same_opts = refl;
            same_spawned = refl;
          };
        }

    pub Has-set_status :
        (k : String) (r : DataRequests) (status : RequestStatus) (reason : String) (n : Node e)
        → Has k r n
        → Gives tt (set_status k status reason) n (Leaves k (set_request_status status reason r) n)
    unfolding set_status update_request_status
    Has-set_status k r status reason n h =
        Gives-ignore
          (Has-update_where k r (set_request_status status reason) n (λ x. refl) (λ x. refl) h)
