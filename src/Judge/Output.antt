-- ===== src/Judge/Output.antt =====
-- `outputBudget` and `budgetWriter` of internal/judge/output.go. The mutex makes each `Write` one
-- step; `cancels` counts the calls of `cancel`.
pub mod Accounting
use online_coding_judge.Prelude.{
  ℕ, suc, ◌+◌, ◌-◌, Bool, true, false, not, List, [], ◌∷◌, ◌++◌, Bytes, length, take, min, ltb,
  ◌&&◌, if◌then◌else◌,
}

pub record OutputBudget : Type 0 where
  pub remaining : ℕ
  pub stdout : Bytes
  pub exceeded : Bool
  pub cancels : ℕ

unfoldable pub new_output_budget : ℕ → OutputBudget
new_output_budget limit = record { remaining = limit; stdout = []; exceeded = false; cancels = 0 }

-- `Write` through the adapter for stdout (`true`) or stderr (`false`): the bytes reported as
-- consumed, and the budget after it.
unfoldable pub write : Bool → OutputBudget → Bytes → ℕ × OutputBudget
write stdout b p =
    let n = min (length p) b.remaining in
    let kept = if stdout then b.stdout ++ take n p else b.stdout in
    let over = ltb n (length p) && not b.exceeded in
    (
      length p,
      record {
        remaining = b.remaining - n;
        stdout = kept;
        exceeded = if over then true else b.exceeded;
        cancels = if over then suc b.cancels else b.cancels;
      },
    )

unfoldable pub limited : OutputBudget → Bool
limited b = b.exceeded

unfoldable pub output : OutputBudget → Bytes
output b = b.stdout

-- The writes of both streams, in the order in which they take the lock.
unfoldable pub write_all : OutputBudget → List (Bool × Bytes) → OutputBudget
unfolding write
write_all b [] = b
write_all b ((stdout, p) ∷ ps) = write_all (write stdout b p).1 ps
