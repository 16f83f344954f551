-- ===== src/Database/Terminal.antt =====
-- Finished work: which calls leave it alone, and which do not check.
use online_coding_judge.Prelude.{
  ==-refl, ℕ, ◌≡◌, ◌≢◌, ◌∙◌, inl, inr, refl, ap, sym, subst, ℤ, true, false, Bytes, none, some,
  ◌==◌, ◌&&◌, if◌then◌else◌, arith, Bool-cases, ==_iff, below, above,
}
use online_coding_judge.Errors.{Reply-cases, err, null_scan}
use online_coding_judge.Submissions.{queued, Status, final, can_transition, is_same}
use online_coding_judge.Judge.Types.{Result}
use online_coding_judge.Database.Table.{exists, find, insert, map_option, find-update}
use online_coding_judge.Database.Tables.{
  EventRow, SubmissionRow, AttemptRow, Tables, submission_key, event_key, transient,
}
use online_coding_judge.Database.Transaction.{Net, Clocks, committed}
use online_coding_judge.Database.Queries.{
  find_submission, find_attempt, is_terminal, points_to, write_attempt, write_owned,
  write_submission,
}
use online_coding_judge.Database.Attempts.{
  fenced, transition, finish, fail, retry, retry_transaction, renew, with_result, after_transition,
  after_finish, five_minutes, requeue, close_attempt,
}
use online_coding_judge.Database.Invariant.{
  IsWellFormed, submission-key, settle_keeps, find-write_submission,
}
use online_coding_judge.Database.Preservation.{renew_cases, find-after_renew}
use online_coding_judge.Database.History.{
  Call, claims, transitions, renews, finishes, retries, fails, after_call,
}
use online_coding_judge.Database.Claim.{claim, assign}
use online_coding_judge.Database.Claiming.{claim_cases, claim_writes_inv}
use online_coding_judge.Database.Fencing.{fenced_elsewhere, claim_excluded}

-- A write to another submission, or to none, leaves the row alone.
find-write_other :
    (t : Tables) (i k a : ℕ) (s : SubmissionRow) (f : SubmissionRow → SubmissionRow)
    → ((x : SubmissionRow) → (f x).id ≡ x.id)
    → find_submission i t ≡ some s
    → k ≢ i
    → find_submission i (write_owned k a f t) ≡ some s
find-write_other t i k a s f same found other =
    find-update submission_key (λ x. x.id == k && points_to x.current_attempt_id a) f same i
      t.submissions
    ∙ rw found (ground (arith, submission-key t i s found))

module _ (t : Tables) (i : ℕ) (s : SubmissionRow) (wf : IsWellFormed t)
    (found : find_submission i t ≡ some s) (done : is_terminal s.status ≡ true) where
  abbrev Kept : Tables → Type 0
  Kept u = find_submission i u ≡ some s

  transition_keeps : (net : Net) (a : ℕ) (to : Status) → Kept (transition net a to t).1
  unfolding transition can_transition
  transition_keeps net a to = settle_keeps Kept net t _ found λ t' e.
      elim (Reply-cases (fenced net a t)) [
        | inr (x, failed) ↦ absurd (ground (arith, failed))
        | inl (r, passed) ↦ elim (fenced_elsewhere net a t r i s wf found done passed) [
          | inl closed ↦ absurd (ground (arith, passed, closed))
          | inr other ↦
              subst Kept {x = after_transition r a to t} {y = t'} (ground (arith, passed)) (
                find-write_other t i r.submission_id a s (λ x. record x { status = to }) (λ x. refl)
                  found other)
        ]
      ]

  finish_keeps :
      (net : Net) (clocks : Clocks) (a : ℕ) (result : Result)
      → Kept (finish net clocks a result t).1
  unfolding finish is_same
  finish_keeps net clocks a result = settle_keeps Kept net t _ found λ t' e.
      elim (Reply-cases (fenced net a t)) [
        | inr (x, failed) ↦ absurd (ground (arith, failed))
        | inl (r, passed) ↦ elim (fenced_elsewhere net a t r i s wf found done passed) [
          | inl closed ↦ absurd (ground (arith, passed, closed))
          | inr other ↦
              subst Kept {x = after_finish clocks r a result t} {y = t'} (ground (arith, passed)) (
                find-write_other t i r.submission_id a s (with_result clocks result) (λ x. refl)
                  found other)
        ]
      ]

  renew_keeps :
      (net : Net) (clocks : Clocks) (a : ℕ) (lease : ℤ) → Kept (renew net clocks a lease t).1
  renew_keeps net clocks a lease = elim (renew_cases net clocks a lease t) [
    | inl same ↦ subst Kept (sym same) found
    | inr renewed ↦
        subst Kept (sym renewed) (find-after_renew clocks a lease t i ∙ rw found (ground arith))
  ]

  claim_keeps :
      (net : Net) (clocks : Clocks) (n id : ℕ) (worker : Bytes) (lease : ℤ)
      → Kept (claim net clocks n id worker lease t).1
  claim_keeps net clocks n id worker lease = elim (Bool-cases (id == i)) [
    | inl same ↦
        let here = ap (λ k. find_submission k t) ((==_iff _ _).0 same) ∙ found in
        subst Kept (sym (claim_excluded net clocks n id worker lease t s here (inl done)).1) found
    | inr other ↦ elim (claim_cases net clocks n id worker lease t) [
      | inl same ↦ subst Kept (sym same) found
      | inr (x, present, ran) ↦ subst Kept (sym ran) (
          settle_keeps Kept net t _ found λ t' e.
            let (u, written, rows) = claim_writes_inv net clocks n worker lease x t t' e in
            subst Kept {x = write_submission x.id (assign clocks n lease) u} {y = t'} (sym written)
              (find-update submission_key (λ y. y.id == x.id) (assign clocks n lease) (λ y. refl) i
                  u.submissions
                ∙ ap
                    (λ l.
                      map_option (λ y. if y.id == x.id then assign clocks n lease y else y)
                        (find submission_key i l))
                    rows
                ∙ rw found
                    (ground (arith, submission-key t i s found, submission-key t id x present))))
    ]
  ]

-- The calls that check the state of the attempt before they write.
abbrev pub IsChecked : Call → Type 0
IsChecked (retries event a delay) = ⊥
IsChecked (fails a) = ⊥
IsChecked _ = Unit {0}

-- On well-formed tables, no claim, transition, renewal or finish by any worker changes the row of
-- a submission that is FINAL or FAILED_INTERNAL, also if statements or commits fail.
pub terminal_kept :
    (net : Net) (clocks : Clocks) (call : Call) (t : Tables) (i : ℕ) (s : SubmissionRow)
    → IsWellFormed t
    → find_submission i t ≡ some s
    → is_terminal s.status ≡ true
    → IsChecked call
    → find_submission i (after_call net clocks call t) ≡ some s
unfolding after_call
terminal_kept net clocks (claims n id worker lease) t i s wf found done checked =
    claim_keeps t i s wf found done net clocks n id worker lease
terminal_kept net clocks (transitions a to) t i s wf found done checked =
    transition_keeps t i s wf found done net a to
terminal_kept net clocks (renews a lease) t i s wf found done checked =
    renew_keeps t i s wf found done net clocks a lease
terminal_kept net clocks (finishes a r) t i s wf found done checked =
    finish_keeps t i s wf found done net clocks a r
terminal_kept net clocks (retries event a delay) t i s wf found done checked = absurd checked
terminal_kept net clocks (fails a) t i s wf found done checked = absurd checked

fenced_null :
    (net : Net) (a : ℕ) (t : Tables) (r : AttemptRow) (s : SubmissionRow)
    → find_attempt a t ≡ some r
    → find_submission r.submission_id t ≡ some s
    → s.current_attempt_id ≡ none
    → (net.call 0 ≡ true) × (net.call 1 ≡ true)
    → fenced net a t ≡ err null_scan
unfolding fenced
fenced_null net a t r s found owner free up = ground (arith, found, owner)

-- The late worker of a submission that was put back into the queue is told by none of `Transition`,
-- `Finish`, `Retry` and `Fail` that its attempt is stale: once the row is read, each of them returns
-- the error of scanning the NULL pointer, and writes nothing.
pub requeued_null_scan :
    (net : Net) (clocks : Clocks) (a event : ℕ) (to : Status) (result : Result) (delay : ℤ)
    (t : Tables) (r : AttemptRow) (s : SubmissionRow)
    → find_attempt a t ≡ some r
    → find_submission r.submission_id t ≡ some s
    → s.current_attempt_id ≡ none
    → (net.call 0 ≡ true) × (net.call 1 ≡ true)
    → (below delay 0 ≡ false) × (above delay five_minutes ≡ false)
    → (transition net a to t ≡ (some null_scan, t))
      × (finish net clocks a result t ≡ (some null_scan, t))
      × (retry net clocks event a delay t ≡ (some null_scan, t))
      × (fail net clocks a t ≡ (some null_scan, t))
unfolding transition finish retry retry_transaction fail
requeued_null_scan net clocks a event to result delay t r s found owner free up range =
    let refused = fenced_null net a t r s found owner free up in
    (
      ground (arith, refused),
      ground (arith, refused),
      ground (arith, refused),
      ground (arith, refused),
    )

-- `Retry` does not look at the state of the attempt: where the calls succeed, the delay is in range
-- and the outbox id is unused, the attempt that a FINAL submission still points at puts it back into
-- the queue. The submission is QUEUED afterwards and points at no attempt, and the outbox has an
-- event for it.
pub retry_reopens :
    (net : Net) (clocks : Clocks) (event a : ℕ) (delay : ℤ) (t : Tables) (r : AttemptRow)
    (s : SubmissionRow)
    → find_attempt a t ≡ some r
    → find_submission r.submission_id t ≡ some s
    → s.current_attempt_id ≡ some a
    → s.status ≡ final
    → (below delay 0 ≡ false) × (above delay five_minutes ≡ false)
    → ((k : ℕ) → net.call k ≡ true) × (net.commit ≡ committed)
    → find event_key event t.outbox_events ≡ none
    → let t' = (retry net clocks event a delay t).1 in
      (s' : SubmissionRow) × (find_submission r.submission_id t' ≡ some s')
      × (s'.status ≡ queued)
      × (s'.current_attempt_id ≡ none)
      × (exists
            (λ (e : EventRow). e.id == event && e.submission_id == r.submission_id)
            t'.outbox_events
          ≡ true)
unfolding retry retry_transaction fenced insert exists
retry_reopens net clocks event a delay t r s found owner points over range up unused =
    let again =
      find-write_submission (write_attempt a (close_attempt clocks transient) t) r.submission_id
        r.submission_id s (requeue clocks delay) (λ x. refl) owner in
    (
      requeue clocks delay s,
      ground (arith, found, owner, unused, up.0 0, up.0 1, up.0 2, up.0 3, up.0 4, again),
      refl,
      refl,
      ground (
        arith,
        found,
        owner,
        unused,
        up.0 0,
        up.0 1,
        up.0 2,
        up.0 3,
        up.0 4,
        ==-refl event,
        ==-refl r.submission_id,
      ),
    )
