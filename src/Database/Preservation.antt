-- ===== src/Database/Preservation.antt =====
-- Every transaction of the judging lifecycle keeps the tables well formed.
use online_coding_judge.Prelude.{
  ℕ, ◌≡◌, ◌≢◌, ◌⊎◌, inl, inr, refl, sym, subst, ℤ, pos_part, ◌+◌, true, some, if◌then◌else◌,
  Option-cases, arith,
}
use online_coding_judge.Errors.{ok, Reply-cases}
use online_coding_judge.Submissions.{Status, queued, final, can_transition}
use online_coding_judge.Judge.Types.{Result}
use online_coding_judge.Database.Table.{insert, map_option, find-update}
use online_coding_judge.Database.Tables.{
  Tables, transient, attempts_exhausted, submission_key, event_key,
}
use online_coding_judge.Database.Transaction.{Net, Clocks, settle}
use online_coding_judge.Database.Queries.{find_submission}
use online_coding_judge.Database.Attempts.{
  fenced, transition, finish, retry, fail, renew, with_result, requeue, close_attempt, give_up,
  after_transition, after_finish, after_fail, after_retry, after_renew, retry_transaction,
  holds_lease, extend, new_event,
}
use online_coding_judge.Database.Invariant.{
  IsWellFormed, fenced-Fence, settle_keeps, write_owned-IsWellFormed, write_submission-IsWellFormed,
}

-- An allowed edge does not lead back to the queue.
can_transition-ne : (from to : Status) → can_transition from to ≡ true → to ≢ queued
unfolding can_transition
can_transition-ne from to h = ground arith

pub transition-IsWellFormed :
    (net : Net) (a : ℕ) (to : Status) (t : Tables)
    → IsWellFormed t
    → IsWellFormed (transition net a to t).1
unfolding transition
transition-IsWellFormed net a to t wf = settle_keeps IsWellFormed net t _ wf λ t' e.
    elim (Reply-cases (fenced net a t)) [
      | inr (x, failed) ↦ absurd (ground (arith, failed))
      | inl (r, passed) ↦
          let (s, fence) = fenced-Fence net a t r passed in
          let allowed : can_transition r.status to ≡ true = ground (arith, passed) in
          subst IsWellFormed {x = after_transition r a to t} {y = t'} (ground (arith, passed)) (
            write_owned-IsWellFormed t a r s wf fence (λ x. record x { status = to })
              (λ x. record x { status = to }) (λ x. refl) (λ x. refl) (λ x. refl) (λ x. refl)
              (λ x. refl) (inl (fence.points, refl, can_transition-ne _ _ allowed)))
    ]

pub finish-IsWellFormed :
    (net : Net) (clocks : Clocks) (a : ℕ) (result : Result) (t : Tables)
    → IsWellFormed t
    → IsWellFormed (finish net clocks a result t).1
unfolding finish
finish-IsWellFormed net clocks a result t wf = settle_keeps IsWellFormed net t _ wf λ t' e.
    elim (Reply-cases (fenced net a t)) [
      | inr (x, failed) ↦ absurd (ground (arith, failed))
      | inl (r, passed) ↦
          let (s, fence) = fenced-Fence net a t r passed in
          subst IsWellFormed {x = after_finish clocks r a result t} {y = t'}
            (ground (arith, passed))
            (write_owned-IsWellFormed t a r s wf fence (with_result clocks result)
              (λ x. record x { status = final; finished_at = some clocks.db_now }) (λ x. refl)
              (λ x. refl) (λ x. refl) (λ x. refl) (λ x. refl) (inl (fence.points, refl, λ x. cc)))
    ]

pub fail-IsWellFormed :
    (net : Net) (clocks : Clocks) (a : ℕ) (t : Tables)
    → IsWellFormed t
    → IsWellFormed (fail net clocks a t).1
unfolding fail
fail-IsWellFormed net clocks a t wf = settle_keeps IsWellFormed net t _ wf λ t' e.
    elim (Reply-cases (fenced net a t)) [
      | inr (x, failed) ↦ absurd (ground (arith, failed))
      | inl (r, passed) ↦
          let (s, fence) = fenced-Fence net a t r passed in
          subst IsWellFormed {x = after_fail clocks r a t} {y = t'} (ground (arith, passed)) (
            write_owned-IsWellFormed t a r s wf fence (give_up clocks)
              (close_attempt clocks attempts_exhausted) (λ x. refl) (λ x. refl) (λ x. refl)
              (λ x. refl) (λ x. refl) (inl (fence.points, refl, λ x. cc)))
    ]

retry_transaction-IsWellFormed :
    (net : Net) (clocks : Clocks) (event a : ℕ) (delay : ℤ) (t t' : Tables)
    → IsWellFormed t
    → retry_transaction net clocks event a delay t ≡ ok t'
    → IsWellFormed t'
unfolding retry_transaction
retry_transaction-IsWellFormed net clocks event a delay t t' wf e =
    elim (Reply-cases (fenced net a t)) [
      | inr (x, failed) ↦ absurd (ground (arith, failed))
      | inl (r, passed) ↦
          let (s, fence) = fenced-Fence net a t r passed in
          let kept : IsWellFormed (after_retry clocks r a delay t) =
            write_submission-IsWellFormed t a r s wf fence (requeue clocks delay)
              (close_attempt clocks transient) (λ x. refl) (λ x. refl) (λ x. refl) (λ x. refl)
              (λ x. refl) (inr (refl, refl, refl)) in
          let row = new_event clocks event r.submission_id (clocks.db_now + pos_part delay) in
          elim (Option-cases (insert event_key row t.outbox_events)) [
            | inl taken ↦ absurd (ground (arith, passed, taken))
            | inr (events, added) ↦
                subst IsWellFormed
                  {x = record (after_retry clocks r a delay t) { outbox_events = events }} {y = t'}
                  (ground (arith, passed, added)) kept
          ]
    ]

retry_cases :
    (net : Net) (clocks : Clocks) (event a : ℕ) (delay : ℤ) (t : Tables)
    → ((retry net clocks event a delay t).1 ≡ t)
      ⊎ (retry net clocks event a delay t
          ≡ settle net t (retry_transaction net clocks event a delay t))
unfolding retry
retry_cases net clocks event a delay t = ground arith

pub retry-IsWellFormed :
    (net : Net) (clocks : Clocks) (event a : ℕ) (delay : ℤ) (t : Tables)
    → IsWellFormed t
    → IsWellFormed (retry net clocks event a delay t).1
retry-IsWellFormed net clocks event a delay t wf = elim (retry_cases net clocks event a delay t) [
  | inl same ↦ subst IsWellFormed (sym same) wf
  | inr ran ↦
      subst (λ x. IsWellFormed x.1) (sym ran)
        (settle_keeps IsWellFormed net t _ wf
          λ t' e. retry_transaction-IsWellFormed net clocks event a delay t t' wf e)
]

pub find-after_renew :
    (clocks : Clocks) (a : ℕ) (lease : ℤ) (t : Tables) (j : ℕ)
    → find_submission j (after_renew clocks a lease t)
      ≡ map_option (λ x. if holds_lease a x then extend clocks lease x else x) (find_submission j t)
find-after_renew clocks a lease t j =
    find-update submission_key (holds_lease a) (extend clocks lease) (λ x. refl) j t.submissions

after_renew-IsWellFormed :
    (clocks : Clocks) (a : ℕ) (lease : ℤ) (t : Tables)
    → IsWellFormed t
    → IsWellFormed (after_renew clocks a lease t)
after_renew-IsWellFormed clocks a lease t wf = record {
  current = λ i s e. elim (Option-cases (find_submission i t)) [
    | inl absent ↦ absurd (ground (arith, absent, find-after_renew clocks a lease t i))
    | inr (x, present) ↦
        ground (arith, present, find-after_renew clocks a lease t i, wf.current i x present)
  ];
  belongs =
      λ b r e. ground (arith, find-after_renew clocks a lease t r.submission_id, wf.belongs b r e);
}

pub renew_cases :
    (net : Net) (clocks : Clocks) (a : ℕ) (lease : ℤ) (t : Tables)
    → ((renew net clocks a lease t).1 ≡ t)
      ⊎ ((renew net clocks a lease t).1 ≡ after_renew clocks a lease t)
unfolding renew
renew_cases net clocks a lease t = ground arith

pub renew-IsWellFormed :
    (net : Net) (clocks : Clocks) (a : ℕ) (lease : ℤ) (t : Tables)
    → IsWellFormed t
    → IsWellFormed (renew net clocks a lease t).1
renew-IsWellFormed net clocks a lease t wf = elim (renew_cases net clocks a lease t) [
  | inl same ↦ subst IsWellFormed (sym same) wf
  | inr renewed ↦ subst IsWellFormed (sym renewed) (after_renew-IsWellFormed clocks a lease t wf)
]
