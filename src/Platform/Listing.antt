-- ===== src/Platform/Listing.antt =====
-- The history of a user: the newest of that user's submissions, and no more than 100.
use online_coding_judge.Prelude.{
  ℕ, ◌+◌, ◌==◌, ◌&&◌, if◌then◌else◌, ◌≤◌, Bool, List, [], ◌∷◌, Option, map, take, ◌≡◌, refl, ◌∙◌,
  ap, inl, inr, arith, All, Bool-cases,
}
use online_coding_judge.Errors.{ok}
use online_coding_judge.Database.Table.{select, place, sort_by, count}
use online_coding_judge.Database.Tables.{SubmissionRow}
use online_coding_judge.Database.Transaction.{Net}
use online_coding_judge.Platform.Tables.{Platform}
use online_coding_judge.Platform.Submitting.{
  Submission, submission_of, is_shown, is_newer, is_wanted, history,
}

-- Each row is at least as new as those behind it.
abbrev pub IsNewestFirst : List SubmissionRow → Type 0
IsNewestFirst [] = Unit
IsNewestFirst (r ∷ rows) =
    (All (λ (x : SubmissionRow). x.created_at ≤ r.created_at) rows) × IsNewestFirst rows

older :
    (a b : ℕ) (rows : List SubmissionRow)
    → a ≤ b
    → All (λ (x : SubmissionRow). x.created_at ≤ a) rows
    → All (λ (x : SubmissionRow). x.created_at ≤ b) rows
older a b [] h k = tt
older a b (r ∷ rows) h (k, ks) = (omega arith, older a b rows h ks)

place-older :
    (a : ℕ) (r : SubmissionRow) (rows : List SubmissionRow)
    → r.created_at ≤ a
    → All (λ (x : SubmissionRow). x.created_at ≤ a) rows
    → All (λ (x : SubmissionRow). x.created_at ≤ a) (place is_newer r rows)
unfolding place
place-older a r [] h k = (h, tt)
place-older a r (x ∷ rows) h (k, ks) = elim (Bool-cases (is_newer r x)) [
  | inl newer ↦ rw newer (h, (k, ks))
  | inr later ↦ rw later (k, place-older a r rows h ks)
]

place-IsNewestFirst :
    (r : SubmissionRow) (rows : List SubmissionRow)
    → IsNewestFirst rows
    → IsNewestFirst (place is_newer r rows)
unfolding place
place-IsNewestFirst r [] h = (tt, tt)
place-IsNewestFirst r (x ∷ rows) (h, hs) = elim (Bool-cases (is_newer r x)) [
  | inl newer ↦ rw newer (
    (ground (arith, newer), older x.created_at r.created_at rows (ground (arith, newer)) h),
    (h, hs),
  )
  | inr later ↦
      rw later
        (place-older x.created_at r rows (ground (arith, later)) h, place-IsNewestFirst r rows hs)
]

sort_by-IsNewestFirst : (rows : List SubmissionRow) → IsNewestFirst (sort_by is_newer rows)
unfolding sort_by
sort_by-IsNewestFirst [] = tt
sort_by-IsNewestFirst (r ∷ rows) = place-IsNewestFirst r _ (sort_by-IsNewestFirst rows)

count-place :
    (p : SubmissionRow → Bool) (x : SubmissionRow) (rows : List SubmissionRow)
    → count p (place is_newer x rows) ≡ count p (x ∷ rows)
unfolding place count
count-place p x [] = refl
count-place p x (r ∷ rows) = elim (Bool-cases (is_newer x r)) [
  | inl newer ↦ rw newer
  | inr later ↦ rw later (omega (arith, count-place p x rows))
]

count-sort_by :
    (p : SubmissionRow → Bool) (rows : List SubmissionRow)
    → count p (sort_by is_newer rows) ≡ count p rows
unfolding sort_by count
count-sort_by p [] = refl
count-sort_by p (r ∷ rows) =
    count-place p r (sort_by is_newer rows) ∙ ap ((if p r then 1 else 0) +◌) (count-sort_by p rows)

count-select :
    (p q : SubmissionRow → Bool) (rows : List SubmissionRow)
    → count q (select p rows) ≡ count (λ r. p r && q r) rows
unfolding select count
count-select p q [] = refl
count-select p q (r ∷ rows) = ground (arith, count-select p q rows)

-- The rows that are in both lists as often, whatever is asked of them.
abbrev pub IsReordering : List SubmissionRow → (SubmissionRow → Bool) → List SubmissionRow → Type 0
IsReordering sorted p rows =
    (q : SubmissionRow → Bool) → count q sorted ≡ count (λ r. p r && q r) rows

-- A history that is read is the first 100 of the matching rows of the table, each as often as the
-- table holds it and the newest first: only submissions of that user match, and only that with the
-- given id where one is given.
pub history_lem :
    (net : Net) (user : ℕ) (id : Option ℕ) (t : Platform) (subs : List Submission)
    → history net user id t ≡ ok subs
    → (sorted : List SubmissionRow) × (subs ≡ map submission_of (take 100 sorted))
      × IsReordering sorted (λ r. r.user_id == user && is_wanted id r.id) t.judging.submissions
      × IsNewestFirst sorted
unfolding history
history_lem net user id t subs h =
    let shown = select (is_shown user id) t.judging.submissions in
    (
      sort_by is_newer shown,
      ground (arith, h),
      λ q. count-sort_by q shown ∙ count-select (is_shown user id) q t.judging.submissions,
      sort_by-IsNewestFirst shown,
    )
