-- ===== src/Prelude/Result.antt =====
-- What a handler throws, and code that runs in a database transaction: `AppError`,
-- `BadRequestException` and the errors of the Prisma client, which the exception filter maps.
-- A transaction that throws is rolled back, so it has no final state.
use Prim.Native.Nat.{ℕ}
use mathlib.Core.Path.{◌≡◌, refl}
use mathlib.Core.Logic.{◌⊎◌, inl, inr}
use mathlib.Core.Bool.{Bool, true, false}
use mathlib.Core.Option.{Option, none, some}
use mathlib.Core.List.{List, [], ◌∷◌}

-- backend/src/common/errors/error-codes.ts
pub data ErrorCode : Type 0 where
  validation_error auth_required forbidden not_found conflict insufficient_stock : ErrorCode
  expired_batch transaction_failed internal_error : ErrorCode

-- `p2002` is a unique-constraint violation, `p2025` a record that is not there.
pub data Failure : Type 0 where
  app_error : ErrorCode → ℕ → Failure
  bad_request p2002 p2025 : Failure

pub data Result {ℓ} (A : Type ℓ) : Type ℓ where
  ok : A → Result A
  err : Failure → Result A

-- To split on an outcome and keep the equation.
pub Result-cases {ℓ} :
    {A : Type ℓ} (r : Result A) → ((a : A) × (r ≡ ok a)) ⊎ ((e : Failure) × (r ≡ err e))
Result-cases (ok a) = inl (a, refl)
Result-cases (err e) = inr (e, refl)

-- backend/src/common/errors/prisma-error.mapper.ts: the errors that the mapper turns into an
-- `AppError`; the others it leaves to the filter.
unfoldable pub map_prisma_error : Failure → Option (ErrorCode × ℕ)
map_prisma_error p2002 = some (conflict, 409)
map_prisma_error p2025 = some (not_found, 404)
map_prisma_error _ = none

-- The code inside a `$transaction` callback.
abbrev pub Tx {ℓ} : Type ℓ → Type ℓ → Type ℓ
Tx S A = S → Result (A × S)

-- A handler that may make several transactions: what was committed stays.
abbrev pub Action {ℓ} : Type ℓ → Type ℓ → Type ℓ
Action S A = S → Result A × S

infixl 5 ◌>>=◌ ◌>>◌
abbrev pub ◌>>=◌ {ℓ} : {S A B : Type ℓ} → Tx S A → (A → Tx S B) → Tx S B
◌>>=◌ m f s = elim (m s) [ ok (a, t) ↦ f a t | err e ↦ err e ]

abbrev pub ◌>>◌ {ℓ} : {S A B : Type ℓ} → Tx S A → Tx S B → Tx S B
◌>>◌ m k s = elim (m s) [ ok (a, t) ↦ k t | err e ↦ err e ]

module _ {ℓ} {S A : Type ℓ} where
  abbrev pub pure : A → Tx S A
  pure a s = ok (a, s)

  abbrev pub throw : Failure → Tx S A
  throw e s = err e

  abbrev pub gets : (S → A) → Tx S A
  gets f s = ok (f s, s)

  -- A computation on the state that may throw and writes nothing.
  abbrev pub lift : (S → Result A) → Tx S A
  lift f s = elim (f s) [ ok a ↦ ok (a, s) | err e ↦ err e ]

  abbrev pub or_throw : Option A → Failure → Tx S A
  or_throw none e s = err e
  or_throw (some a) e s = ok (a, s)

abbrev pub modify : {S : Type 0} → (S → S) → Tx S Unit
modify f s = ok (tt, f s)

abbrev pub throw_if : {S : Type 0} → Bool → Failure → Tx S Unit
throw_if true e s = err e
throw_if false e s = ok (tt, s)

-- `this.prisma.$transaction(m)`
unfoldable pub transaction {ℓ} : {S A : Type ℓ} → Tx S A → Action S A
transaction m s = elim (m s) [ ok (a, t) ↦ (ok a, t) | err e ↦ (err e, s) ]

-- A handler's transaction, and what it writes when that has been committed.
unfoldable pub committed {ℓ} : {S A : Type ℓ} → Action S A → (A → S → S) → Action S A
committed m after s = let (r, t) = m s in elim r [ ok a ↦ (ok a, after a t) | err e ↦ (err e, t) ]

-- `for (const x of xs) await body(x)`
module _ {ℓ} {S : Type 0} {A : Type ℓ} where
  unfoldable pub for_each : (A → Tx S Unit) → List A → Tx S Unit
  for_each body [] s = ok (tt, s)
  for_each body (x ∷ xs) s = elim (body x s) [ ok (_, t) ↦ for_each body xs t | err e ↦ err e ]
