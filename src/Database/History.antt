-- ===== src/Database/History.antt =====
-- Histories: the transactions of any number of workers, in any order, on well-formed tables.
use online_coding_judge.Prelude.{ℕ, ◌≡◌, ap, ℤ, true, List, [], ◌∷◌, Bytes, some, arith}
use online_coding_judge.Submissions.{Status}
use online_coding_judge.Judge.Types.{Result}
use online_coding_judge.Database.Tables.{AttemptRow, Tables}
use online_coding_judge.Database.Transaction.{Net, Clocks}
use online_coding_judge.Database.Queries.{find_submission, find_attempt, is_live}
use online_coding_judge.Database.Claim.{claim}
use online_coding_judge.Database.Attempts.{transition, finish, retry, fail, renew}
use online_coding_judge.Database.Invariant.{IsWellFormed}
use online_coding_judge.Database.Preservation.{
  transition-IsWellFormed, finish-IsWellFormed, retry-IsWellFormed, fail-IsWellFormed,
  renew-IsWellFormed,
}
use online_coding_judge.Database.Claiming.{claim-IsWellFormed}

-- A call of the store by some worker. The first number of `claims` is the uuid that the database
-- generates for the attempt, that of `retries` the one for the outbox row.
pub data Call : Type 0 where
  claims : ℕ → ℕ → Bytes → ℤ → Call
  transitions : ℕ → Status → Call
  renews : ℕ → ℤ → Call
  finishes : ℕ → Result → Call
  retries : ℕ → ℕ → ℤ → Call
  fails : ℕ → Call

-- The rows after a call.
unfoldable pub after_call : Net → Clocks → Call → Tables → Tables
after_call net clocks (claims n id worker lease) t = (claim net clocks n id worker lease t).1
after_call net clocks (transitions a to) t = (transition net a to t).1
after_call net clocks (renews a lease) t = (renew net clocks a lease t).1
after_call net clocks (finishes a r) t = (finish net clocks a r t).1
after_call net clocks (retries event a delay) t = (retry net clocks event a delay t).1
after_call net clocks (fails a) t = (fail net clocks a t).1

unfoldable pub run : List (Net × Clocks × Call) → Tables → Tables
run [] t = t
run ((net, clocks, call) ∷ rest) t = run rest (after_call net clocks call t)

pub after_call-IsWellFormed :
    (net : Net) (clocks : Clocks) (call : Call) (t : Tables)
    → IsWellFormed t
    → IsWellFormed (after_call net clocks call t)
unfolding after_call
after_call-IsWellFormed net clocks (claims n id worker lease) t wf =
    claim-IsWellFormed net clocks n id worker lease t wf
after_call-IsWellFormed net clocks (transitions a to) t wf = transition-IsWellFormed net a to t wf
after_call-IsWellFormed net clocks (renews a lease) t wf =
    renew-IsWellFormed net clocks a lease t wf
after_call-IsWellFormed net clocks (finishes a r) t wf = finish-IsWellFormed net clocks a r t wf
after_call-IsWellFormed net clocks (retries event a delay) t wf =
    retry-IsWellFormed net clocks event a delay t wf
after_call-IsWellFormed net clocks (fails a) t wf = fail-IsWellFormed net clocks a t wf

-- Whatever calls the workers make, in whatever order, and whichever of their statements and
-- commits fail: well-formed tables stay well formed. A queued submission has no current attempt;
-- any other has one, in the same state and with its attempt count for a number; and each attempt
-- belongs to a submission that has counted it and is its current attempt while it is live.
pub run-IsWellFormed :
    (calls : List (Net × Clocks × Call)) (t : Tables) → IsWellFormed t → IsWellFormed (run calls t)
unfolding run
run-IsWellFormed [] t wf = wf
run-IsWellFormed ((net, clocks, call) ∷ rest) t wf =
    run-IsWellFormed rest _ (after_call-IsWellFormed net clocks call t wf)

-- From well-formed tables on, no history of the workers' calls leaves two live attempts of one
-- submission.
pub one_live_attempt :
    (calls : List (Net × Clocks × Call)) (t : Tables) (a b : ℕ) (r q : AttemptRow)
    → IsWellFormed t
    → find_attempt a (run calls t) ≡ some r
    → find_attempt b (run calls t) ≡ some q
    → r.submission_id ≡ q.submission_id
    → is_live r.status ≡ true
    → is_live q.status ≡ true
    → a ≡ b
one_live_attempt calls t a b r q wf found other same live alive =
    let kept = run-IsWellFormed calls t wf in
    ground (
      arith,
      kept.belongs a r found,
      kept.belongs b q other,
      ap (λ i. find_submission i (run calls t)) same,
    )
