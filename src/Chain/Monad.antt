-- ===== src/Chain/Monad.antt =====
-- Handlers: programs over the node's state that may return early, as Go's handlers do after they
-- have logged an error. Logging itself is left out.
use xfund_router.Common.{String, Option, none, some, Result, ok, err, List, [], ◌∷◌}
use xfund_router.Chain.Env.{Env, Node}

-- `none` is an early return.
abbrev pub M : Env → Type 0 → Type 0
M e A = Node e → Option A × Node e

-- What is left to do after a call that ended as `r`.
abbrev pub resume : {e : Env} {A B : Type 0} → Option A → (A → M e B) → M e B
resume none f n = (none, n)
resume (some a) f n = f a n

infixl 5 ◌>>=◌ ◌>>◌
unfoldable pub ◌>>=◌ : {e : Env} {A B : Type 0} → M e A → (A → M e B) → M e B
◌>>=◌ m f n = let (r, n') = m n in resume r f n'

abbrev pub ◌>>◌ : {e : Env} {B : Type 0} → M e (Unit {0}) → M e B → M e B
m >> k = m >>= λ _. k

unfoldable pub pure : {e : Env} {A : Type 0} → A → M e A
pure a n = (some a, n)

unfoldable pub return : {e : Env} → M e (Unit {0})
return n = (none, n)

abbrev pub or_return : {e : Env} {A : Type 0} → Result A → M e A
or_return (ok a) n = (some a, n)
or_return (err _) n = (none, n)

-- `x, err := call; if err != nil { return }`.
unfoldable pub try : {e : Env} {A : Type 0} → M e (Result A) → M e A
unfolding ◌>>=◌
try m = m >>= or_return

abbrev pub unless_error : {e : Env} → Option String → M e (Unit {0})
unless_error none n = (some tt, n)
unless_error (some _) n = (none, n)

-- `err := call; if err != nil { return }`.
unfoldable pub check : {e : Env} → M e (Option String) → M e (Unit {0})
unfolding ◌>>=◌
check m = m >>= unless_error

-- `_ = call`.
unfoldable pub ignore : {e : Env} {A : Type 0} → M e A → M e (Unit {0})
unfolding ◌>>=◌ pure
ignore m = m >>= λ _. pure tt

-- A call that ends before its caller goes on: an early return is the callee's own.
unfoldable pub scope : {e : Env} → M e (Unit {0}) → M e (Unit {0})
scope m n = (some tt, (m n).1)

unfoldable pub gets : {e : Env} {A : Type 0} → (Node e → A) → M e A
gets f n = (some (f n), n)

unfoldable pub modify : {e : Env} → (Node e → Node e) → M e (Unit {0})
modify f n = (some tt, f n)

module _ {e : Env} where
  -- The parts of the node that a call acts on.
  unfoldable pub on_requests : {A : Type 0} → (e.requests.Table → A × e.requests.Table) → M e A
  on_requests f n = let (a, t) = f n.requests in (some a, record n { requests = t })

  unfoldable pub on_blocks : {A : Type 0} → (e.to_blocks.Table → A × e.to_blocks.Table) → M e A
  on_blocks f n = let (a, t) = f n.to_blocks in (some a, record n { to_blocks = t })

  unfoldable pub on_failed : {A : Type 0} → (e.failed.Table → A × e.failed.Table) → M e A
  on_failed f n = let (a, t) = f n.failed in (some a, record n { failed = t })

  unfoldable pub on_chain : {A : Type 0} → (e.client.Chain → A × e.client.Chain) → M e A
  on_chain f n = let (a, c) = f n.chain in (some a, record n { chain = c })

  unfoldable pub on_api : {A : Type 0} → (e.api.Api → A × e.api.Api) → M e A
  on_api f n = let (a, p) = f n.api in (some a, record n { api = p })

  -- `for _, x := range xs { body(x) }`, where the body is a call.
  unfoldable pub for_each : {A : Type 0} → List A → (A → M e (Unit {0})) → M e (Unit {0})
  for_each [] body = pure tt
  for_each (x ∷ xs) body = scope (body x) >> for_each xs body
