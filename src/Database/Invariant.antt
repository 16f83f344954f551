-- ===== src/Database/Invariant.antt =====
-- Every transaction of the judging lifecycle keeps submissions and attempts tied together.
use online_coding_judge.Prelude.{
  ℕ, ◌≡◌, ◌≢◌, inl, inr, refl, ◌∙◌, some, ◌==◌, ◌&&◌, if◌then◌else◌, Option-cases, arith,
}
use online_coding_judge.Errors.{Reply, ok, err}
use online_coding_judge.Submissions.{queued}
use online_coding_judge.Database.Table.{find-update, find-key}
use online_coding_judge.Database.Tables.{
  SubmissionRow, AttemptRow, Tables, submission_key, attempt_key,
}
use online_coding_judge.Database.Transaction.{Net, settle, commit_as, committed, aborted, lost}
use online_coding_judge.Database.Queries.{
  find_submission, find_attempt, points_to, write_attempt, write_owned, write_submission,
}
use online_coding_judge.Database.Attempts.{fenced}
use online_coding_judge.Database.Linked.{IsLinked, Follows, relink-IsLinked}

-- The tables are tied together.
abbrev pub IsWellFormed : Tables → Type 0
IsWellFormed t = IsLinked (λ i. find_submission i t) (λ a. find_attempt a t)

pub submission-key :
    (t : Tables) (i : ℕ) (s : SubmissionRow) → find_submission i t ≡ some s → s.id ≡ i
submission-key t i s e = find-key submission_key i s t.submissions e

pub attempt-key : (t : Tables) (a : ℕ) (r : AttemptRow) → find_attempt a t ≡ some r → r.id ≡ a
attempt-key t a r e = find-key attempt_key a r t.submission_attempts e

module _ (t : Tables) (j : ℕ) where
  pub find-write_submission :
      (i : ℕ) (s : SubmissionRow) (f : SubmissionRow → SubmissionRow)
      → ((x : SubmissionRow) → (f x).id ≡ x.id)
      → find_submission i t ≡ some s
      → find_submission j (write_submission i f t)
        ≡ (if i == j then some (f s) else find_submission j t)
  find-write_submission i s f same e =
      find-update submission_key (λ x. x.id == i) f same j t.submissions
      ∙ elim (Option-cases (find_submission j t)) [
        | inl absent ↦ rw absent (ground (arith, absent))
        | inr (x, present) ↦ rw present (ground (arith, submission-key t j x present))
      ]

  pub find-write_owned :
      (i a : ℕ) (s : SubmissionRow) (f : SubmissionRow → SubmissionRow)
      → ((x : SubmissionRow) → (f x).id ≡ x.id)
      → find_submission i t ≡ some s
      → s.current_attempt_id ≡ some a
      → find_submission j (write_owned i a f t)
        ≡ (if i == j then some (f s) else find_submission j t)
  find-write_owned i a s f same e c =
      find-update submission_key (λ x. x.id == i && points_to x.current_attempt_id a) f same j
        t.submissions
      ∙ elim (Option-cases (find_submission j t)) [
        | inl absent ↦ rw absent (ground (arith, absent))
        | inr (x, present) ↦ rw present (ground (arith, submission-key t j x present))
      ]

  pub find-write_attempt :
      (a : ℕ) (r : AttemptRow) (f : AttemptRow → AttemptRow)
      → ((x : AttemptRow) → (f x).id ≡ x.id)
      → find_attempt a t ≡ some r
      → find_attempt j (write_attempt a f t) ≡ (if a == j then some (f r) else find_attempt j t)
  find-write_attempt a r f same e =
      find-update attempt_key (λ x. x.id == a) f same j t.submission_attempts
      ∙ elim (Option-cases (find_attempt j t)) [
        | inl absent ↦ rw absent (ground (arith, absent))
        | inr (x, present) ↦ rw present (ground (arith, attempt-key t j x present))
      ]

-- What a passed fence shows.
pub record Fence (attempt : ℕ) (t : Tables) (r : AttemptRow) (s : SubmissionRow) : Type 0 where
  pub found : find_attempt attempt t ≡ some r
  pub owner : find_submission r.submission_id t ≡ some s
  pub points : s.current_attempt_id ≡ some attempt

pub fenced-Fence :
    (net : Net) (attempt : ℕ) (t : Tables) (r : AttemptRow)
    → fenced net attempt t ≡ ok r
    → (s : SubmissionRow) × Fence attempt t r s
unfolding fenced
fenced-Fence net attempt t r h = elim (Option-cases (find_attempt attempt t)) [
  | inl absent ↦ absurd (ground (arith, absent))
  | inr (x, found) ↦ elim (Option-cases (find_submission x.submission_id t)) [
    | inl absent ↦ absurd (ground (arith, absent))
    | inr (s, owner) ↦ elim (Option-cases s.current_attempt_id) [
      | inl free ↦ absurd (ground arith)
      | inr (c, points) ↦
          let same : x ≡ r = ground arith in
          (s, record { found = ground arith; owner = ground arith; points = ground arith })
    ]
  ]
]

-- A transaction whose body keeps a property keeps it, however the commit ends.
pub settle_keeps :
    (P : Tables → Type 0) (net : Net) (t : Tables) (body : Reply Tables)
    → P t
    → ((t' : Tables) → body ≡ ok t' → P t')
    → P (settle net t body).1
settle_keeps P net t (err e) before after = before
settle_keeps P net t (ok t') before after = elim net.commit as (λ c. P (commit_as c t t').1) [
  | committed ↦ after t' refl
  | aborted ↦ before
  | lost ↦ after t' refl
]

module _ (t : Tables) (a : ℕ) (r : AttemptRow) (s : SubmissionRow) (wf : IsWellFormed t)
    (fence : Fence a t r s) (f : SubmissionRow → SubmissionRow) (g : AttemptRow → AttemptRow)
    (f_id : (x : SubmissionRow) → (f x).id ≡ x.id)
    (f_count : (x : SubmissionRow) → (f x).attempt_count ≡ x.attempt_count)
    (g_id : (x : AttemptRow) → (g x).id ≡ x.id)
    (g_owner : (x : AttemptRow) → (g x).submission_id ≡ x.submission_id)
    (g_number : (x : AttemptRow) → (g x).attempt_number ≡ x.attempt_number)
    (follows : Follows a (f s) (g r)) where
  pub write_owned-IsWellFormed :
      IsWellFormed (write_owned r.submission_id a f (write_attempt a g t))
  write_owned-IsWellFormed =
      relink-IsLinked _ _ _ _ r.submission_id a s (f s) r (g r) wf fence.owner fence.found refl
        fence.points (g_owner r) (g_number r) (f_count s) follows
        (λ j. find-write_owned t j r.submission_id a s f f_id fence.owner fence.points)
        (λ b. find-write_attempt t b a r g g_id fence.found)

  pub write_submission-IsWellFormed :
      IsWellFormed (write_submission r.submission_id f (write_attempt a g t))
  write_submission-IsWellFormed =
      relink-IsLinked _ _ _ _ r.submission_id a s (f s) r (g r) wf fence.owner fence.found refl
        fence.points (g_owner r) (g_number r) (f_count s) follows
        (λ j. find-write_submission t j r.submission_id s f f_id fence.owner)
        (λ b. find-write_attempt t b a r g g_id fence.found)

-- The state of the fenced attempt is that of its submission, which is not queued.
pub Fence-status :
    (t : Tables) (a : ℕ) (r : AttemptRow) (s : SubmissionRow)
    → IsWellFormed t
    → Fence a t r s
    → (r.status ≡ s.status) × (s.status ≢ queued)
Fence-status t a r s wf fence = ground (arith, wf.current r.submission_id s fence.owner, fence)
