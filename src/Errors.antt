-- ===== src/Errors.antt =====
-- The error values that cross package boundaries: the sentinels of internal/judge/engine.go, the
-- errors that internal/database makes, those of the PostgreSQL driver that its code tells apart,
-- and any other error of the environment, by a number.
use online_coding_judge.Prelude.{ℕ, ◌≡◌, refl, ◌⊎◌, inl, inr, Bool, true, false, Option, none, some}

pub data Error : Type 0 where
  terminal busy stale_attempt queue_closed : Error
  no_tests invalid_concurrency : Error
  invalid_lease invalid_transition cannot_finalize invalid_retry_delay invalid_outbox_lease : Error
  no_rows null_scan unique_violation check_violation : Error
  failure : ℕ → Error

-- A value or an error.
pub data Reply {ℓ} (A : Type ℓ) : Type ℓ where
  ok : A → Reply A
  err : Error → Reply A

pub Reply-cases {ℓ} :
    {A : Type ℓ} (m : Reply A) → ((a : A) × (m ≡ ok a)) ⊎ ((e : Error) × (m ≡ err e))
Reply-cases (ok a) = inl (a, refl)
Reply-cases (err e) = inr (e, refl)

infixl 5 ◌>>=◌ ◌>>◌
abbrev pub ◌>>=◌ {ℓ κ} : {A : Type ℓ} {B : Type κ} → Reply A → (A → Reply B) → Reply B
ok a >>= f = f a
err e >>= f = err e

abbrev pub ◌>>◌ {ℓ} : {B : Type ℓ} → Reply (Unit {0}) → Reply B → Reply B
m >> k = m >>= λ _. k

abbrev pub guard : Bool → Error → Reply (Unit {0})
guard true e = ok tt
guard false e = err e

abbrev pub or_fail {ℓ} : {A : Type ℓ} → Option A → Error → Reply A
or_fail none e = err e
or_fail (some a) e = ok a
