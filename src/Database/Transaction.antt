-- ===== src/Database/Transaction.antt =====
-- A transaction against PostgreSQL, as the store runs it. The connection may fail at any call, and
-- a failed COMMIT may or may not have taken effect: `Net` is what happens to the calls. Row locks
-- and the deferred Rollback make a transaction one step.
use online_coding_judge.Prelude.{ℕ, ◌≡◌, refl, ◌⊎◌, inl, inr, arith, Bool, Option, none, some}
use online_coding_judge.Errors.{Error, Reply, ok, err, failure}

pub data Commit : Type 0 where
  committed aborted lost : Commit

pub commit_cases : (c : Commit) → (c ≡ aborted) ⊎ ((c ≡ committed) ⊎ (c ≡ lost))
commit_cases aborted = inl refl
commit_cases committed = inr (inl refl)
commit_cases lost = inr (inr refl)

-- `call k` says whether the k-th call of the transaction, BEGIN being the call 0, is answered.
pub record Net : Type 0 where
  pub call : ℕ → Bool
  pub commit : Commit

abbrev pub disconnected : Error
disconnected = failure 0

-- The reply to a COMMIT and the rows after it, from the rows before and after the transaction.
abbrev pub commit_as : {T : Type 0} → Commit → T → T → Option Error × T
commit_as committed before after = (none, after)
commit_as aborted before after = (some disconnected, before)
commit_as lost before after = (some disconnected, after)

-- The end of a transaction: the rows before it, and the rows that its body leaves or its error.
abbrev pub settle : {T : Type 0} → Net → T → Reply T → Option Error × T
settle net before (err e) = (some e, before)
settle net before (ok after) = commit_as net.commit before after

abbrev pub reply_to {ℓ} : {A : Type ℓ} → A → Option Error → Reply A
reply_to a none = ok a
reply_to a (some e) = err e

-- The same, where the body gives a value besides the rows.
abbrev pub settle_with : {A T : Type 0} → Net → T → Reply (A × T) → Reply A × T
settle_with net before (err e) = (err e, before)
settle_with net before (ok (a, after)) =
    let (failed, t') = commit_as net.commit before after in (reply_to a failed, t')

pub settle_with_ok :
    {A T : Type 0} (net : Net) (t : T) (r : Reply (A × T)) (a : A)
    → (settle_with net t r).0 ≡ ok a
    → (t' : T) × (r ≡ ok (a, t')) × ((settle_with net t r).1 ≡ t')
settle_with_ok net t (err e) a h = absurd (ground (arith, h))
settle_with_ok net t (ok (b, t')) a h = (t', ground (arith, h), ground (arith, h))

-- The rows after a transaction are those before it or those that its body leaves.
pub settle_with_cases :
    {A T : Type 0} (net : Net) (t : T) (r : Reply (A × T))
    → ((settle_with net t r).1 ≡ t)
      ⊎ ((a : A) × (t' : T) × (r ≡ ok (a, t')) × ((settle_with net t r).1 ≡ t'))
settle_with_cases net t (err e) = inl refl
settle_with_cases net t (ok (a, t')) = elim (commit_cases net.commit) [
  | inl e ↦ inl (rw e refl)
  | inr (inl e) ↦ inr (a, t', refl, rw e refl)
  | inr (inr e) ↦ inr (a, t', refl, rw e refl)
]

-- The clocks: `now` of the process (`time.Now()`) and `db_now` of the database (`now()`).
pub record Clocks : Type 0 where
  pub now : ℕ
  pub db_now : ℕ
