-- ===== src/Database/Claiming.antt =====
-- `Claim`: the invariant, who gets a claim, and who does not.
use online_coding_judge.Prelude.{
  ℕ, ◌≡◌, ◌⊎◌, inl, inr, refl, ap, sym, ◌∙◌, subst, ℤ, above, not, [], Bytes, bytes_eq, none, some,
  ◌==◌, ◌&&◌, ◌||◌, if◌then◌else◌, Option-cases, Bool-cases, arith,
}
use online_coding_judge.Errors.{ok, Reply-cases}
use online_coding_judge.Database.Table.{find, insert, update, map_option, find-update, find-insert}
use online_coding_judge.Database.Tables.{
  SubmissionRow, AttemptRow, Tables, submission_key, attempt_key,
}
use online_coding_judge.Database.Transaction.{Net, Clocks, settle}
use online_coding_judge.Database.Queries.{find_submission, find_attempt, is_live, write_submission}
use online_coding_judge.Database.Claim.{
  expire_attempt, claim_checks, expire, insert_attempt, assign, new_attempt, claim_writes,
  claim_transaction, claim,
}
use online_coding_judge.Database.Linked.{expire_row, reassign-IsLinked}
use online_coding_judge.Database.Invariant.{
  IsWellFormed, submission-key, attempt-key, settle_keeps, find-write_submission,
}

find-expire :
    (clocks : Clocks) (s : SubmissionRow) (t : Tables) (b : ℕ)
    → find_attempt b (expire clocks s t) ≡ map_option (expire_row clocks s) (find_attempt b t)
unfolding expire
find-expire clocks s t b = elim (Option-cases s.current_attempt_id) [
  | inl free ↦ rw (free, expire) (ground (arith, free))
  | inr (a, taken) ↦ elim (Option-cases (find_attempt b t)) [
    | inl absent ↦ ground (arith, taken, absent, found a)
    | inr (x, present) ↦ ground (arith, taken, present, found a)
  ]
]
  where
    found :
        (a : ℕ)
        → find_attempt b (record t {
          submission_attempts =
              update
                (λ r. r.id == a && is_live r.status)
                (expire_attempt clocks)
                t.submission_attempts;
        })
          ≡ map_option
              (λ r. if r.id == a && is_live r.status then expire_attempt clocks r else r)
              (find_attempt b t)
    found a =
        find-update attempt_key (λ r. r.id == a && is_live r.status) (expire_attempt clocks)
          (λ x. refl) b t.submission_attempts

expire-submissions :
    (clocks : Clocks) (s : SubmissionRow) (t : Tables)
    → (expire clocks s t).submissions ≡ t.submissions
unfolding expire
expire-submissions clocks s t = ground arith

insert_attempt_lem :
    (r : AttemptRow) (t t' : Tables)
    → insert_attempt r t ≡ ok t'
    → (find_attempt r.id t ≡ none)
      × (t'.submissions ≡ t.submissions)
      × (t'.outbox_events ≡ t.outbox_events)
      × ((b : ℕ) → find_attempt b t' ≡ (if r.id == b then some r else find_attempt b t))
unfolding insert_attempt
insert_attempt_lem r t t' h = elim (Option-cases (insert attempt_key r t.submission_attempts)) [
  | inl taken ↦ absurd (ground (arith, taken))
  | inr (rows, added) ↦
      let found = λ (b : ℕ). find-insert attempt_key r t.submission_attempts rows b added in
      (
        (found 0).1,
        ground (arith, added),
        ground (arith, added),
        λ b. ground (arith, added, found b),
      )
]

claim_writes-IsWellFormed :
    (net : Net) (clocks : Clocks) (n : ℕ) (worker : Bytes) (lease : ℤ) (s : SubmissionRow)
    (t t' : Tables)
    → IsWellFormed t
    → find_submission s.id t ≡ some s
    → claim_writes net clocks n worker lease s t ≡ ok t'
    → IsWellFormed t'
unfolding claim_writes
claim_writes-IsWellFormed net clocks n worker lease s t t' wf e h =
    elim (Reply-cases (insert_attempt row (expire clocks s t))) [
      | inr (x, failed) ↦ absurd (ground (arith, failed))
      | inl (t2, added) ↦
          let (unused, same, _, found) = insert_attempt_lem row (expire clocks s t) t2 added in
          let t3 = write_submission s.id (assign clocks n lease) t2 in
          let free : find_attempt n t ≡ none = ground (arith, find-expire clocks s t n) in
          subst IsWellFormed {x = t3} {y = t'} (ground (arith, added)) (
            reassign-IsLinked (λ i. find_submission i t) (λ i. find_submission i t3)
              (λ a. find_attempt a t) (λ a. find_attempt a t3) s.id n clocks s
              (assign clocks n lease s) row wf (attempt-key t) e free refl refl refl refl refl refl
              (λ j.
                find-write_submission t2 j s.id s (assign clocks n lease) (λ x. refl)
                  (kept t2 same s.id ∙ e)
                ∙ ap (λ o. if s.id == j then some (assign clocks n lease s) else o)
                    (kept t2 same j))
              (λ b. found b ∙ ap (λ o. if n == b then some row else o) (find-expire clocks s t b)))
    ]
  where
    row : AttemptRow
    row = new_attempt clocks n s worker

    kept :
        (u : Tables)
        → u.submissions ≡ (expire clocks s t).submissions
        → (j : ℕ) → find_submission j u ≡ find_submission j t
    kept u same j = ap (find submission_key j) (same ∙ expire-submissions clocks s t)

pub claim_cases :
    (net : Net) (clocks : Clocks) (n id : ℕ) (worker : Bytes) (lease : ℤ) (t : Tables)
    → ((claim net clocks n id worker lease t).1 ≡ t)
      ⊎ ((s : SubmissionRow) × (find_submission id t ≡ some s)
          × ((claim net clocks n id worker lease t).1
              ≡ (settle net t (claim_writes net clocks n worker lease s t)).1))
unfolding claim claim_transaction
claim_cases net clocks n id worker lease t = elim (Option-cases (find_submission id t)) [
  | inl absent ↦ inl (ground (arith, absent))
  | inr (s, present) ↦ elim (Reply-cases (claim_checks s clocks.now)) [
    | inr (x, failed) ↦ inl (ground (arith, present, failed))
    | inl (x, passed) ↦ elim (Bool-cases (bytes_eq worker [] || not (above lease 0))) [
      | inl wrong ↦ inl (ground (arith, wrong))
      | inr right ↦ elim (Bool-cases (net.call 0 && net.call 1)) [
        | inr down ↦ inl (ground (arith, right, down))
        | inl up ↦ inr (s, present, rw (right, up, present, passed, claim, claim_transaction))
      ]
    ]
  ]
]

pub claim-IsWellFormed :
    (net : Net) (clocks : Clocks) (n id : ℕ) (worker : Bytes) (lease : ℤ) (t : Tables)
    → IsWellFormed t
    → IsWellFormed (claim net clocks n id worker lease t).1
claim-IsWellFormed net clocks n id worker lease t wf =
    elim (claim_cases net clocks n id worker lease t) [
      | inl same ↦ subst IsWellFormed (sym same) wf
      | inr (s, present, ran) ↦ subst IsWellFormed (sym ran) (
          settle_keeps IsWellFormed net t _ wf λ t' e.
            claim_writes-IsWellFormed net clocks n worker lease s t t' wf
              (ap (λ k. find_submission k t) (submission-key t id s present) ∙ present) e)
    ]

-- What a successful claim has written.
pub claim_writes_inv :
    (net : Net) (clocks : Clocks) (n : ℕ) (worker : Bytes) (lease : ℤ) (s : SubmissionRow)
    (t t' : Tables)
    → claim_writes net clocks n worker lease s t ≡ ok t'
    → (u : Tables) × (t' ≡ write_submission s.id (assign clocks n lease) u)
      × (u.submissions ≡ t.submissions)
unfolding claim_writes
claim_writes_inv net clocks n worker lease s t t' h =
    elim (Reply-cases (insert_attempt (new_attempt clocks n s worker) (expire clocks s t))) [
      | inr (x, failed) ↦ absurd (ground (arith, failed))
      | inl (u, added) ↦
          let (_, same, _, _) = insert_attempt_lem _ (expire clocks s t) u added in
          (u, ground (arith, added), same ∙ expire-submissions clocks s t)
    ]
