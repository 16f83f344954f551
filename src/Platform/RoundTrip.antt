-- ===== src/Platform/RoundTrip.antt =====
-- A problem that was saved is loaded as it was authored.
use online_coding_judge.Prelude.{
  ℕ, ◌+◌, true, List, [], ◌∷◌, Bytes, Option, none, some, is_some, length, ◌==◌, ◌&&◌, ◌≡◌, refl,
  sym, ◌∙◌, ap, subst, arith, Bool-cases, Option-cases, inl, inr, ==-refl,
}
use online_coding_judge.Errors.{Reply, ok, Reply-cases}
use online_coding_judge.Problems.{Problem}
use online_coding_judge.Database.Table.{find, insert, update, sort_by, find-insert}
use online_coding_judge.Database.Transaction.{Net, settle_with_ok}
use online_coding_judge.Platform.Tables.{ProblemRow, Platform, problem_key}
use online_coding_judge.Platform.Authoring.{
  bytes_le, languages_of, tests_of, load_problem, row_of, write_row, add_languages, add_cases,
  other_languages, other_cases, replace_problem, save_problem,
}
use online_coding_judge.Platform.Stored.{languages_of-add_languages, tests_of-add_cases}

find-replace :
    (id : ℕ) (r : ProblemRow) (rows : List ProblemRow)
    → r.id ≡ id
    → is_some (find problem_key id rows) ≡ true
    → find problem_key id (update (λ (x : ProblemRow). x.id == id) (λ x. r) rows) ≡ some r
unfolding find update
find-replace id r [] same h = absurd (ground (arith, h))
find-replace id r (x ∷ xs) same h = elim (Bool-cases (x.id == id)) [
  | inl here ↦ rw here (ground (arith, same, ==-refl id))
  | inr other ↦
      rw other (ground (arith, other, find-replace id r xs same (ground (arith, other, h))))
]

write_row-find :
    (n : ℕ) (p : Problem) (o : Option ℕ) (rows rows' : List ProblemRow) (id : ℕ)
    → write_row n p o rows ≡ ok (id, rows')
    → find problem_key id rows' ≡ some (row_of id p)
unfolding write_row
write_row-find n p (some i) rows rows' id h =
    let found : is_some (find problem_key i rows) ≡ true = ground (arith, h) in
    let at : i ≡ id = ground (arith, h) in
    let is : update (λ (r : ProblemRow). r.id == i) (λ r. row_of i p) rows ≡ rows' =
      ground (arith, h) in
    subst (λ x. find problem_key x rows' ≡ some (row_of x p)) at
      (subst (λ l. find problem_key i l ≡ some (row_of i p)) is
        (find-replace i (row_of i p) rows refl found))
write_row-find n p none rows rows' id h =
    elim (Option-cases (insert problem_key (row_of n p) rows)) [
      | inl taken ↦ absurd (ground (arith, taken, h))
      | inr (added, e) ↦
          let at : n ≡ id = ground (arith, e, h) in
          let is : added ≡ rows' = ground (arith, e, h) in
          let held : find problem_key n added ≡ some (row_of n p) =
            ground (arith, (find-insert problem_key (row_of n p) rows added n e).0, ==-refl n) in
          subst (λ x. find problem_key x rows' ≡ some (row_of x p)) at
            (subst (λ l. find problem_key n l ≡ some (row_of n p)) is held)
    ]

-- The tables hold the problem `p` as that with the id `id`.
pub record IsStored (id : ℕ) (p : Problem) (t : Platform) : Type 0 where
  pub row : find problem_key id t.problems ≡ some (row_of id p)
  pub languages : languages_of id t.problem_languages ≡ sort_by bytes_le p.languages
  pub tests : tests_of id t.test_cases ≡ p.tests

pub replace_problem-IsStored :
    (net : Net) (n : ℕ) (p p' : Problem) (t t' : Platform)
    → replace_problem net n p t ≡ ok (p', t')
    → (id : ℕ) × (p' ≡ record p { id = some id }) × IsStored id p t' × (t'.judging ≡ t.judging)
unfolding replace_problem
replace_problem-IsStored net n p p' t t' h = elim (Reply-cases (write_row n p p.id t.problems)) [
  | inr (e, x) ↦ absurd (ground (arith, x, h))
  | inl ((id, rows), x) ↦
      elim (Reply-cases
        (add_languages net 4 id p.languages (other_languages id t.problem_languages))) [
          | inr (e, y) ↦ absurd (ground (arith, x, y, h))
          | inl (ls, y) ↦
              elim (Reply-cases (
                add_cases net (4 + length p.languages) id 0 p.tests
                  (other_cases id t.test_cases))) [
                    | inr (e, z) ↦ absurd (ground (arith, x, y, z, h))
                    | inl (cs, z) ↦
                        let gives : record p { id = some id } ≡ p' = ground (arith, x, y, z, h) in
                        let leaves : record t {
                          problems = rows;
                          problem_languages = ls;
                          test_cases = cs;
                        }
                            ≡ t' =
                          ground (arith, x, y, z, h) in
                        (
                          id,
                          sym gives,
                          subst (IsStored id p) leaves (record {
                            row = write_row-find n p p.id t.problems rows id x;
                            languages =
                                languages_of-add_languages net 4 id p.languages t.problem_languages
                                  ls y;
                            tests =
                                tests_of-add_cases net (4 + length p.languages) id p.tests
                                  t.test_cases cs z;
                          }),
                          ap (λ x. x.judging) (sym leaves),
                        )
                  ]
        ]
]

load_stored :
    (net : Net) (k id : ℕ) (p : Problem) (t : Platform)
    → IsStored id p t
    → (net.call k && (net.call (1 + k) && net.call (2 + k))) ≡ true
    → load_problem net k id t
      ≡ ok (record p { id = some id; languages = sort_by bytes_le p.languages })
unfolding load_problem
load_stored net k id p t h answered = ground (arith, h.row, h.languages, h.tests, answered)

resorted : List Bytes → Problem → Reply Problem
resorted ls q = ok (record q { languages = ls })

-- A problem that was saved comes back with its id and is otherwise as it was sent, and every load
-- of that id which the database answers gives it: all its fields, its tests in their order, and its
-- languages in alphabetical order.
pub load_problem-save_problem :
    (net net' : Net) (n k id : ℕ) (p p' : Problem) (t : Platform)
    → (save_problem net n p t).0 ≡ ok p'
    → p'.id ≡ some id
    → (net'.call k && (net'.call (1 + k) && net'.call (2 + k))) ≡ true
    → (p' ≡ record p { id = some id })
      × (load_problem net' k id (save_problem net n p t).1
          ≡ ok (record p' { languages = sort_by bytes_le p.languages }))
unfolding save_problem resorted
load_problem-save_problem net net' n k id p p' t saved named answered =
    let (t', replaced, leaves) = settle_with_ok net t (replace_problem net n p t) p' saved in
    let (i, is, stored, kept) = replace_problem-IsStored net n p p' t t' replaced in
    let at : i ≡ id = ground (arith, is, named) in
    let is' : p' ≡ record p { id = some id } = subst (λ x. p' ≡ record p { id = some x }) at is in
    (
      is',
      ap (load_problem net' k id) leaves
          ∙ load_stored net' k id p t' (subst (λ x. IsStored x p t') at stored) answered
          ∙ sym (ap (resorted (sort_by bytes_le p.languages)) is'),
    )
