-- ===== src/Tests/Store.antt =====
-- The store of internal/database at concrete tables.
use online_coding_judge.Prelude.{
  ◌==◌, ◌&&◌, ℕ, pos, [], ◌∷◌, text, Option, none, some, true, ◌≡◌, refl, is_some, bytes_eq, subst,
  arith, inr, ◌≢◌,
}
use online_coding_judge.Errors.{null_scan}
use online_coding_judge.Submissions.{is_same, queued, claimed, running, final}
use online_coding_judge.Judge.Types.{Job, granted}
use online_coding_judge.Database.Tables.{
  EventRow, SubmissionRow, AttemptRow, submission_key, attempt_key,
}
use online_coding_judge.Database.Table.{exists, find, insert, update, count}
use online_coding_judge.Database.Queries.{find_submission, find_attempt}
use online_coding_judge.Database.Claim.{
  claim, claim_transaction, claim_checks, claim_writes, expire, insert_attempt,
}
use online_coding_judge.Database.Attempts.{transition, finish, retry, fail}
use online_coding_judge.Database.Linked.{CurrentOk, BelongsTo}
use online_coding_judge.Database.Invariant.{IsWellFormed}
use online_coding_judge.Database.History.{claims, after_call, run, one_live_attempt}
use online_coding_judge.Database.Fencing.{stale_writes_nothing, claim_excluded}
use online_coding_judge.Database.Terminal.{terminal_kept, requeued_null_scan, retry_reopens}
use online_coding_judge.Tests.Data.{
  waiting_row, final_row, running_row, attempt_row, final_attempt, waiting, judged, at_work,
  taken_over, requeued, online, at_100, passed_both,
}

some-inj : {A : Type 0} (a b : A) → some a ≡ some b → a ≡ b
some-inj a b h = ground (arith, h)

-- The row of a table with one row.
only :
    {A : Type 0} (key : A → ℕ) (x s : A) (i : ℕ)
    → find key i (x ∷ []) ≡ some s
    → (key x ≡ i) × (x ≡ s)
unfolding find
only key x s i h = ground (arith, h)

none≢some : {A : Type 0} (a : A) → none ≢ some a
none≢some a h = ground (arith, h)

final≢queued : final ≢ queued
final≢queued h = ground (arith, h)

running≢queued : running ≢ queued
running≢queued h = ground (arith, h)

eleven≢ten : ◌≢◌ {A = Option ℕ} (some 11) (some 10)
eleven≢ten h = ground (arith, h)

waiting-IsWellFormed : IsWellFormed waiting
unfolding find
waiting-IsWellFormed = record {
  current = λ i s h.
      let (at, is) = only submission_key waiting_row s i h in
      subst (λ y. CurrentOk (λ a. find_attempt a waiting) i y y.current_attempt_id) is refl;
  belongs = λ a r h. absurd (none≢some r h);
}

judged-IsWellFormed : IsWellFormed judged
unfolding find
judged-IsWellFormed = record {
  current = λ i s h.
      let (at, is) = only submission_key final_row s i h in
      subst (λ y. CurrentOk (λ a. find_attempt a judged) i y y.current_attempt_id) is
        (subst (λ j. CurrentOk (λ a. find_attempt a judged) j final_row (some 10)) at
          (final≢queued, (refl, refl, refl)));
  belongs = λ a r h.
      let (at, is) = only attempt_key final_attempt r a h in
      subst (λ y. BelongsTo a y (find_submission y.submission_id judged)) is
        (subst (λ c. BelongsTo c final_attempt (some final_row)) at
          (omega arith, omega arith, λ live. refl));
}

abbrev first : ℕ
first = 10

abbrev new_row : AttemptRow
new_row = record attempt_row { status = claimed; started_at = 100 }

stale_10 :
    (r : AttemptRow) (s : SubmissionRow)
    → find_attempt 10 taken_over ≡ some r
    → find_submission r.submission_id taken_over ≡ some s
    → s.current_attempt_id ≢ some 10
unfolding find
stale_10 r s h =
    subst
      (λ y. find_submission y.submission_id taken_over ≡ some s → s.current_attempt_id ≢ some 10)
      (some-inj _ r h)
      (λ k. subst (λ z. z.current_attempt_id ≢ some 10) (some-inj _ s k) eleven≢ten)

stale_writes_nothing_example :
    ((is_some (transition online 10 running taken_over).0 ≡ true)
      × ((transition online 10 running taken_over).1 ≡ taken_over))
    × ((is_some (finish online at_100 10 passed_both taken_over).0 ≡ true)
        × ((finish online at_100 10 passed_both taken_over).1 ≡ taken_over))
    × ((is_some (retry online at_100 3 10 (pos 5) taken_over).0 ≡ true)
        × ((retry online at_100 3 10 (pos 5) taken_over).1 ≡ taken_over))
    × ((is_some (fail online at_100 10 taken_over).0 ≡ true)
        × ((fail online at_100 10 taken_over).1 ≡ taken_over))
unfolding find
stale_writes_nothing_example =
    stale_writes_nothing online at_100 10 3 running passed_both (pos 5) taken_over
      (λ r h s k. stale_10 r s h k)

claim_excluded_example :
    ((j : Job) → (claim online at_100 11 1 (text "w2") (pos 900) at_work).0 ≢ granted j)
    × ((claim online at_100 11 1 (text "w2") (pos 900) at_work).1 ≡ at_work)
unfolding find
claim_excluded_example =
    claim_excluded online at_100 11 1 (text "w2") (pos 900) at_work running_row refl
      (inr (inr (running≢queued, refl)))

terminal_kept_example :
    find_submission 1 (after_call online at_100 (claims 11 1 (text "w2") (pos 900)) judged)
    ≡ some final_row
unfolding find
terminal_kept_example =
    terminal_kept online at_100 (claims 11 1 (text "w2") (pos 900)) judged 1 final_row
      judged-IsWellFormed refl refl tt

requeued_null_scan_example :
    (transition online 10 running requeued ≡ (some null_scan, requeued))
    × (finish online at_100 10 passed_both requeued ≡ (some null_scan, requeued))
    × (retry online at_100 3 10 (pos 5) requeued ≡ (some null_scan, requeued))
    × (fail online at_100 10 requeued ≡ (some null_scan, requeued))
unfolding find
requeued_null_scan_example =
    requeued_null_scan online at_100 10 3 running passed_both (pos 5) requeued _ _ refl refl refl
      (refl, refl) (refl, refl)

retry_reopens_example :
    let t' = (retry online at_100 3 10 (pos 5) judged).1 in
    (s' : SubmissionRow) × (find_submission 1 t' ≡ some s')
    × (s'.status ≡ queued)
    × (s'.current_attempt_id ≡ none)
    × (exists (λ (e : EventRow). e.id == 3 && e.submission_id == 1) t'.outbox_events ≡ true)
unfolding find
retry_reopens_example =
    retry_reopens online at_100 3 10 (pos 5) judged final_attempt final_row refl refl refl refl
      (refl, refl) ((λ k. refl), refl) refl

one_live_attempt_example : first ≡ first
unfolding run after_call claim claim_transaction claim_checks claim_writes expire insert_attempt
    insert find update bytes_eq is_same count
one_live_attempt_example =
    one_live_attempt ((online, at_100, claims 10 1 (text "w1") (pos 900)) ∷ []) waiting first first
      new_row new_row waiting-IsWellFormed refl refl refl refl refl
