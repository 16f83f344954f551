-- ===== src/Database/Fencing.antt =====
-- What a worker that has lost its attempt cannot do, and what nobody can do to finished work.
use online_coding_judge.Prelude.{
  ℕ, ◌≡◌, ◌≢◌, ◌⊎◌, ◌∙◌, inl, inr, ap, ℤ, true, Bytes, some, is_some, ◌==◌, arith, Bool-cases,
  ==_iff,
}
use online_coding_judge.Errors.{Error, ok, err, Reply-cases, terminal, busy}
use online_coding_judge.Submissions.{Status, queued, is_same}
use online_coding_judge.Judge.Types.{Result, granted, Job}
use online_coding_judge.Database.Tables.{SubmissionRow, AttemptRow, Tables}
use online_coding_judge.Database.Transaction.{Net, Clocks}
use online_coding_judge.Database.Queries.{find_submission, find_attempt, is_terminal, is_after}
use online_coding_judge.Database.Claim.{claim, claim_transaction, claim_checks}
use online_coding_judge.Database.Attempts.{
  fenced, transition, finish, retry, retry_transaction, fail,
}
use online_coding_judge.Database.Invariant.{IsWellFormed, fenced-Fence, Fence-status}

-- The submission of the attempt no longer points to it.
abbrev pub IsStale : ℕ → Tables → Type 0
IsStale a t =
    (r : AttemptRow)
    → find_attempt a t ≡ some r
    → (s : SubmissionRow) → find_submission r.submission_id t ≡ some s
    → s.current_attempt_id ≢ some a

fenced_stale :
    (net : Net) (a : ℕ) (t : Tables) → IsStale a t → (e : Error) × (fenced net a t ≡ err e)
fenced_stale net a t stale = elim (Reply-cases (fenced net a t)) [
  | inr failed ↦ failed
  | inl (r, passed) ↦
      let (s, fence) = fenced-Fence net a t r passed in
      absurd (stale r fence.found s fence.owner fence.points)
]

-- A stale attempt can write nothing: `Transition`, `Finish`, `Retry` and `Fail` return an error
-- and leave every table as it was, whatever else happens to their statements.
pub stale_writes_nothing :
    (net : Net) (clocks : Clocks) (a event : ℕ) (to : Status) (r : Result) (delay : ℤ) (t : Tables)
    → IsStale a t
    → ((is_some (transition net a to t).0 ≡ true) × ((transition net a to t).1 ≡ t))
      × ((is_some (finish net clocks a r t).0 ≡ true) × ((finish net clocks a r t).1 ≡ t))
      × ((is_some (retry net clocks event a delay t).0 ≡ true)
          × ((retry net clocks event a delay t).1 ≡ t))
      × ((is_some (fail net clocks a t).0 ≡ true) × ((fail net clocks a t).1 ≡ t))
unfolding transition finish retry retry_transaction fail
stale_writes_nothing net clocks a event to r delay t stale =
    let (e, failed) = fenced_stale net a t stale in
    (ground (arith, failed), ground (arith, failed), ground (arith, failed), ground (arith, failed))

abbrev pub IsBlocked : SubmissionRow → ℕ → Type 0
IsBlocked s now =
    (is_terminal s.status ≡ true)
    ⊎ ((is_after s.retry_after now ≡ true)
        ⊎ ((s.status ≢ queued) × (is_after s.lease_until now ≡ true)))

claim_checks_blocked :
    (s : SubmissionRow) (now : ℕ) → IsBlocked s now → (e : Error) × (claim_checks s now ≡ err e)
unfolding claim_checks is_same
claim_checks_blocked s now (inl done) = (terminal, ground arith)
claim_checks_blocked s now (inr blocked) = elim (Bool-cases (is_terminal s.status)) [
  | inl done ↦ (terminal, ground arith)
  | inr open_still ↦ (busy, ground arith)
]

-- A submission that is terminal, whose retry delay has not passed or that is leased beyond `now`
-- is granted to nobody, and the attempt to claim it writes nothing.
pub claim_excluded :
    (net : Net) (clocks : Clocks) (n id : ℕ) (worker : Bytes) (lease : ℤ) (t : Tables)
    (s : SubmissionRow)
    → find_submission id t ≡ some s
    → IsBlocked s clocks.now
    → ((j : Job) → (claim net clocks n id worker lease t).0 ≢ granted j)
      × ((claim net clocks n id worker lease t).1 ≡ t)
unfolding claim claim_transaction
claim_excluded net clocks n id worker lease t s found blocked =
    let (e, failed) = claim_checks_blocked s clocks.now blocked in
    (λ j. ground (arith, found, failed), ground (arith, found, failed))

pub fenced_elsewhere :
    (net : Net) (a : ℕ) (t : Tables) (r : AttemptRow) (i : ℕ) (s : SubmissionRow)
    → IsWellFormed t
    → find_submission i t ≡ some s
    → is_terminal s.status ≡ true
    → fenced net a t ≡ ok r
    → (is_terminal r.status ≡ true) ⊎ (r.submission_id ≢ i)
fenced_elsewhere net a t r i s wf found done passed =
    let (x, fence) = fenced-Fence net a t r passed in
    let (status, _) = Fence-status t a r x wf fence in
    elim (Bool-cases (r.submission_id == i)) [
      | inl same ↦
          let here : find_submission r.submission_id t ≡ some s =
            ap (λ k. find_submission k t) ((==_iff _ _).0 same) ∙ found in
          inl (ground (arith, fence.owner, here))
      | inr other ↦ inr (ground arith)
    ]
