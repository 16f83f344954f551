-- ===== src/Database/Linked.antt =====
-- The invariant that ties submissions to their attempts, over the two tables as functions of the
-- key, and the two ways in which a transaction changes them.
use online_coding_judge.Prelude.{
  ℕ, suc, ◌≤◌, ◌≡◌, ◌≢◌, ◌⊎◌, inl, inr, true, false, Option, none, some, ◌==◌, ◌&&◌, if◌then◌else◌,
  Option-cases, Bool-cases, arith,
}
use online_coding_judge.Submissions.{queued, claimed, is_same}
use online_coding_judge.Database.Table.{map_option}
use online_coding_judge.Database.Tables.{SubmissionRow, AttemptRow}
use online_coding_judge.Database.Transaction.{Clocks}
use online_coding_judge.Database.Claim.{needs_expiry, expire_attempt}
use online_coding_judge.Database.Queries.{is_live, points_to}

-- The row of the current attempt belongs to the submission, and is in the same state.
abbrev pub IsCurrentOf : ℕ → SubmissionRow → Option AttemptRow → Type 0
IsCurrentOf i s none = ⊥
IsCurrentOf i s (some r) =
    (r.submission_id ≡ i) × (r.status ≡ s.status) × (r.attempt_number ≡ s.attempt_count)

-- A queued submission has no current attempt; any other has one.
abbrev pub CurrentOk : (ℕ → Option AttemptRow) → ℕ → SubmissionRow → Option ℕ → Type 0
CurrentOk att i s none = s.status ≡ queued
CurrentOk att i s (some a) = (s.status ≢ queued) × IsCurrentOf i s (att a)

-- The submission of an attempt has counted it, and a live attempt is its current one.
abbrev pub BelongsTo : ℕ → AttemptRow → Option SubmissionRow → Type 0
BelongsTo a r none = ⊥
BelongsTo a r (some s) =
    (1 ≤ r.attempt_number)
    × (r.attempt_number ≤ s.attempt_count)
    × (is_live r.status ≡ true → s.current_attempt_id ≡ some a)

pub record IsLinked (sub : ℕ → Option SubmissionRow) (att : ℕ → Option AttemptRow) : Type 0 where
  pub current :
      (i : ℕ) (s : SubmissionRow) → sub i ≡ some s → CurrentOk att i s s.current_attempt_id
  pub belongs : (a : ℕ) (r : AttemptRow) → att a ≡ some r → BelongsTo a r (sub r.submission_id)

-- The states that an attempt and its submission may be given together.
abbrev pub Follows : ℕ → SubmissionRow → AttemptRow → Type 0
Follows a s r =
    ((s.current_attempt_id ≡ some a) × (s.status ≡ r.status) × (s.status ≢ queued))
    ⊎ ((s.current_attempt_id ≡ none) × (s.status ≡ queued) × (is_live r.status ≡ false))

-- The current attempt of a submission and the submission are rewritten together.
module _ (sub sub' : ℕ → Option SubmissionRow) (att att' : ℕ → Option AttemptRow) (i a : ℕ)
    (s s' : SubmissionRow) (r r' : AttemptRow) (linked : IsLinked sub att) (owner : sub i ≡ some s)
    (attempt : att a ≡ some r) (mine : r.submission_id ≡ i) (holds : s.current_attempt_id ≡ some a)
    (same_owner : r'.submission_id ≡ i) (same_number : r'.attempt_number ≡ r.attempt_number)
    (same_count : s'.attempt_count ≡ s.attempt_count) (follows : Follows a s' r')
    (subs : (j : ℕ) → sub' j ≡ (if i == j then some s' else sub j))
    (atts : (b : ℕ) → att' b ≡ (if a == b then some r' else att b)) where
  relink_current :
      (j : ℕ) (x : SubmissionRow) → sub' j ≡ some x → CurrentOk att' j x x.current_attempt_id
  relink_current j x e = elim (Bool-cases (i == j)) [
    | inl here ↦ ground (arith, subs j, linked.current i s owner, atts a)
    | inr away ↦ elim (Option-cases x.current_attempt_id) [
      | inl free ↦ ground (arith, subs j, linked.current j x)
      | inr (b, taken) ↦ ground (arith, subs j, linked.current j x, atts b)
    ]
  ]

  relink_belongs : (b : ℕ) (x : AttemptRow) → att' b ≡ some x → BelongsTo b x (sub' x.submission_id)
  relink_belongs b x e = elim (Bool-cases (a == b)) [
    | inl here ↦ ground (arith, atts b, subs x.submission_id, linked.belongs a r attempt)
    | inr away ↦ ground (arith, atts b, subs x.submission_id, linked.belongs b x)
  ]

  pub relink-IsLinked : IsLinked sub' att'
  relink-IsLinked = record { current = relink_current; belongs = relink_belongs }

-- What `Claim` does to the row of an earlier attempt of the submission `s`.
abbrev pub expire_row : Clocks → SubmissionRow → AttemptRow → AttemptRow
expire_row clocks s r =
    if needs_expiry s && (points_to s.current_attempt_id r.id && is_live r.status)
    then expire_attempt clocks r
    else r

-- The submission is given to a new attempt, and its earlier one is closed.
module _ (sub sub' : ℕ → Option SubmissionRow) (att att' : ℕ → Option AttemptRow) (i n : ℕ)
    (clocks : Clocks) (s s' : SubmissionRow) (r' : AttemptRow) (linked : IsLinked sub att)
    (keys : (b : ℕ) (x : AttemptRow) → att b ≡ some x → x.id ≡ b) (owner : sub i ≡ some s)
    (unused : att n ≡ none) (holds : s'.current_attempt_id ≡ some n) (starts : s'.status ≡ claimed)
    (counts : s'.attempt_count ≡ suc s.attempt_count) (same_owner : r'.submission_id ≡ i)
    (numbered : r'.attempt_number ≡ suc s.attempt_count) (live : r'.status ≡ claimed)
    (subs : (j : ℕ) → sub' j ≡ (if i == j then some s' else sub j))
    (atts : (b : ℕ)
      → att' b ≡ (if n == b then some r' else map_option (expire_row clocks s) (att b))) where
  reassign_current :
      (j : ℕ) (x : SubmissionRow) → sub' j ≡ some x → CurrentOk att' j x x.current_attempt_id
  unfolding is_same
  reassign_current j x e = elim (Bool-cases (i == j)) [
    | inl here ↦ ground (arith, subs j, atts n)
    | inr away ↦ elim (Option-cases x.current_attempt_id) [
      | inl free ↦ ground (arith, subs j, linked.current j x)
      | inr (b, taken) ↦ elim (Option-cases (att b)) [
        | inl absent ↦ ground (arith, subs j, linked.current j x)
        | inr (y, present) ↦
            ground (
              arith,
              subs j,
              linked.current j x,
              linked.current i s owner,
              atts b,
              keys b y present,
            )
      ]
    ]
  ]

  reassign_belongs :
      (b : ℕ) (x : AttemptRow) → att' b ≡ some x → BelongsTo b x (sub' x.submission_id)
  unfolding is_same
  reassign_belongs b x e = elim (Bool-cases (n == b)) [
    | inl here ↦ ground (arith, atts b, subs x.submission_id)
    | inr away ↦ elim (Option-cases (att b)) [
      | inl absent ↦ ground (arith, atts b)
      | inr (y, present) ↦ ground (
        arith,
        atts b,
        subs y.submission_id,
        linked.belongs b y present,
        linked.current i s owner,
        keys b y present,
      )
    ]
  ]

  pub reassign-IsLinked : IsLinked sub' att'
  reassign-IsLinked = record { current = reassign_current; belongs = reassign_belongs }
