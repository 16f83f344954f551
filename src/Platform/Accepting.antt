-- ===== src/Platform/Accepting.antt =====
-- The constraints of the tables refuse no problem that `Validate` accepts.
use online_coding_judge.Prelude.{
  ℕ, suc, ◌+◌, ◌≤◌, Bool, true, false, not, List, [], ◌∷◌, ◌++◌, Bytes, Option, none, some, is_some,
  length, ◌==◌, ◌&&◌, ◌||◌, ◌≡◌, refl, ◌∙◌, arith, Option-cases, inl, inr, ==-refl,
}
use online_coding_judge.Errors.{ok}
use online_coding_judge.Problems.{
  TestCase, Problem, exceeds_budgets, is_seen, check_languages, validate,
}
use online_coding_judge.Database.Table.{find, insert, update, select, exists}
use online_coding_judge.Database.Transaction.{Net, committed}
use online_coding_judge.Platform.Tables.{ProblemRow, LanguageRow, CaseRow, Platform, problem_key}
use online_coding_judge.Platform.Authoring.{
  passes_checks, takes_slug, row_of, write_row, is_language_row, language_row, is_case_row,
  case_row, add_languages, add_cases, other_languages, other_cases, replace_problem, save_problem,
}

validate_languages : (p : Problem) → validate p ≡ none → check_languages [] p.languages ≡ none
unfolding validate
validate_languages p h = elim (Option-cases (check_languages [] p.languages)) [
  | inl fine ↦ fine
  | inr (e, bad) ↦ absurd (ground (arith, bad, h))
]

validate_checks : (p : Problem) → validate p ≡ none → passes_checks p ≡ true
unfolding validate exceeds_budgets
validate_checks p h = ground (arith, h)

exists-append :
    {A : Type 0} (p : A → Bool) (x : A) (xs : List A)
    → exists p (xs ++ (x ∷ [])) ≡ p x || exists p xs
unfolding exists
exists-append p x [] = refl
exists-append p x (y ∷ ys) = ground (arith, exists-append p x ys)

-- The languages that have a row are those that the check has seen.
add_languages_done :
    (net : Net) (k id : ℕ) (seen ls : List Bytes) (rows : List LanguageRow)
    → ((i : ℕ) → net.call i ≡ true)
    → ((l : Bytes) → exists (is_language_row id l) rows ≡ is_seen l seen)
    → check_languages seen ls ≡ none
    → (rows' : List LanguageRow) × (add_languages net k id ls rows ≡ ok rows')
unfolding add_languages check_languages is_seen
add_languages_done net k id seen [] rows answered tracks h = (rows, refl)
add_languages_done net k id seen (l ∷ ls) rows answered tracks h =
    let (rows', e) =
      add_languages_done net (suc k) id (l ∷ seen) ls (rows ++ (language_row id l ∷ [])) answered
        (λ x.
          exists-append (is_language_row id x) (language_row id l) rows
          ∙ ground (arith, tracks x, ==-refl id))
        (ground (arith, h)) in
    (rows', ground (arith, h, e, answered k, tracks l))

add_cases_done :
    (net : Net) (k id i : ℕ) (cs : List TestCase) (rows : List CaseRow)
    → ((j : ℕ) → net.call j ≡ true)
    → ((j : ℕ) → i ≤ j → exists (is_case_row id j) rows ≡ false)
    → (rows' : List CaseRow) × (add_cases net k id i cs rows ≡ ok rows')
unfolding add_cases
add_cases_done net k id i [] rows answered free = (rows, refl)
add_cases_done net k id i (c ∷ cs) rows answered free =
    let (rows', e) =
      add_cases_done net (suc k) id (suc i) cs (rows ++ (case_row id i c ∷ [])) answered (λ j le.
        exists-append (is_case_row id j) (case_row id i c) rows
        ∙ ground (arith, free j (omega arith), le)) in
    (rows', ground (arith, e, answered k, free i (omega arith)))

no_language :
    (id : ℕ) (l : Bytes) (rows : List LanguageRow)
    → exists (is_language_row id l) (other_languages id rows) ≡ false
unfolding exists select
no_language id l [] = refl
no_language id l (r ∷ rows) = ground (arith, no_language id l rows)

no_case : (id j : ℕ) (rows : List CaseRow) → exists (is_case_row id j) (other_cases id rows) ≡ false
unfolding exists select
no_case id j [] = refl
no_case id j (r ∷ rows) = ground (arith, no_case id j rows)

-- A new id that is free, or a problem that is there, and a slug that no other problem has.
abbrev pub is_writable : ℕ → Option ℕ → Bytes → List ProblemRow → Bool
is_writable n none slug rows =
    not (is_some (find problem_key n rows)) && not (exists (takes_slug none slug) rows)
is_writable n (some id) slug rows =
    is_some (find problem_key id rows) && not (exists (takes_slug (some id) slug) rows)

abbrev pub named : ℕ → Option ℕ → ℕ
named n none = n
named n (some id) = id

write_row_done :
    (n : ℕ) (p : Problem) (o : Option ℕ) (rows : List ProblemRow)
    → is_writable n o p.slug rows ≡ true
    → passes_checks p ≡ true
    → (rows' : List ProblemRow) × (write_row n p o rows ≡ ok (named n o, rows'))
unfolding write_row insert
write_row_done n p none rows h checked = (row_of n p ∷ rows, ground (arith, h, checked))
write_row_done n p (some id) rows h checked =
    (update (λ (r : ProblemRow). r.id == id) (λ r. row_of id p) rows, ground (arith, h, checked))

replace_problem_done :
    (net : Net) (n : ℕ) (p : Problem) (t : Platform)
    → ((k : ℕ) → net.call k ≡ true)
    → validate p ≡ none
    → is_writable n p.id p.slug t.problems ≡ true
    → (t' : Platform) × (replace_problem net n p t ≡ ok (record p { id = some (named n p.id) }, t'))
unfolding replace_problem is_seen
replace_problem_done net n p t answered valid writable =
    let id = named n p.id in
    let (rows, x) = write_row_done n p p.id t.problems writable (validate_checks p valid) in
    let (ls, y) =
      add_languages_done net 4 id [] p.languages (other_languages id t.problem_languages) answered
        (λ l. no_language id l t.problem_languages) (validate_languages p valid) in
    let (cs, z) =
      add_cases_done net (4 + length p.languages) id 0 p.tests (other_cases id t.test_cases)
        answered (λ j le. no_case id j t.test_cases) in
    (
      record t { problems = rows; problem_languages = ls; test_cases = cs },
      ground (arith, x, y, z, answered 0, answered 1, answered 2, answered 3),
    )

-- While the database answers and commits, `SaveProblem` stores every problem that `Validate`
-- accepts, if its slug is free and its id is that of a problem, or unused where the database
-- generates it: no check, key or foreign key of the tables refuses one of its rows.
pub save_problem_accepts :
    (net : Net) (n : ℕ) (p : Problem) (t : Platform)
    → ((k : ℕ) → net.call k ≡ true)
    → net.commit ≡ committed
    → validate p ≡ none
    → is_writable n p.id p.slug t.problems ≡ true
    → (save_problem net n p t).0 ≡ ok (record p { id = some (named n p.id) })
unfolding save_problem
save_problem_accepts net n p t answered commits valid writable =
    let (t', done) = replace_problem_done net n p t answered valid writable in
    ground (arith, done, commits)
