-- ===== src/Platform/Authoring.antt =====
-- `loadProblem` and `SaveProblem` of internal/database/store.go.
use online_coding_judge.Prelude.{
  ℕ, suc, ◌+◌, below, above, Bool, true, false, not, List, [], ◌∷◌, ◌++◌, Bytes, bytes_eq, Option,
  none, some, is_some, length, map, ltb, ◌==◌, ◌&&◌, ◌||◌, if◌then◌else◌,
}
use online_coding_judge.Errors.{
  Reply, ok, ◌>>=◌, ◌>>◌, guard, or_fail, no_rows, unique_violation, check_violation,
}
use online_coding_judge.Problems.{TestCase, Problem, is_language, is_status}
use online_coding_judge.Database.Table.{find, insert, update, select, exists, sort_by, order_by}
use online_coding_judge.Database.Transaction.{Net, disconnected, settle_with}
use online_coding_judge.Platform.Tables.{
  ProblemRow, LanguageRow, CaseRow, Platform, problem_key, foreign_key_violation,
}

-- The order of the column `language_id`.
unfoldable pub bytes_le : Bytes → Bytes → Bool
bytes_le [] s = true
bytes_le (x ∷ r) [] = false
bytes_le (x ∷ r) (y ∷ s) = let rest = bytes_le r s in if x == y then rest else ltb x y

abbrev pub language_le : LanguageRow → LanguageRow → Bool
language_le x y = bytes_le x.language_id y.language_id

abbrev pub is_language_of : ℕ → LanguageRow → Bool
is_language_of id r = r.problem_id == id

abbrev pub is_case_of : ℕ → CaseRow → Bool
is_case_of id r = r.problem_id == id

abbrev pub by_ordinal : CaseRow → ℕ
by_ordinal r = r.ordinal

abbrev pub language_name : LanguageRow → Bytes
language_name r = r.language_id

abbrev pub case_of : CaseRow → TestCase
case_of r = record { input = r.input; expected = r.expected; hidden = r.hidden }

abbrev pub problem_of : ProblemRow → List Bytes → List TestCase → Problem
problem_of r languages tests = record {
  id = some r.id;
  slug = r.slug;
  title = r.title;
  statement = r.statement;
  difficulty = r.difficulty;
  time_limit_ms = r.time_limit_ms;
  memory_limit_mb = r.memory_limit_mb;
  status = r.status;
  languages = languages;
  tests = tests;
}

-- The rows of the two queries of `loadProblem` after the first.
unfoldable pub languages_of : ℕ → List LanguageRow → List Bytes
languages_of id rows = map language_name (sort_by language_le (select (is_language_of id) rows))

unfoldable pub tests_of : ℕ → List CaseRow → List TestCase
tests_of id rows = map case_of (order_by by_ordinal (select (is_case_of id) rows))

-- `loadProblem`, whose first query is the call `k`.
unfoldable pub load_problem : Net → ℕ → ℕ → Platform → Reply Problem
load_problem net k id t = do
  guard (net.call k) disconnected
  r ← or_fail (find problem_key id t.problems) no_rows
  guard (net.call (1 + k) && net.call (2 + k)) disconnected
  ok (problem_of r (languages_of id t.problem_languages) (tests_of id t.test_cases))

-- The checks of the table `problems`.
abbrev pub passes_checks : Problem → Bool
passes_checks p =
    not (below p.time_limit_ms 100 || above p.time_limit_ms 10000)
    && (not (below p.memory_limit_mb 32 || above p.memory_limit_mb 512) && is_status p.status)

-- Another row than `id` that has the slug.
abbrev pub takes_slug : Option ℕ → Bytes → ProblemRow → Bool
takes_slug none slug r = bytes_eq r.slug slug
takes_slug (some id) slug r = not (r.id == id) && bytes_eq r.slug slug

abbrev pub row_of : ℕ → Problem → ProblemRow
row_of id p = record {
  id = id;
  slug = p.slug;
  title = p.title;
  statement = p.statement;
  difficulty = p.difficulty;
  time_limit_ms = p.time_limit_ms;
  memory_limit_mb = p.memory_limit_mb;
  status = p.status;
}

-- The INSERT or the UPDATE, with the id of the problem; `n` is the id that the database generates.
unfoldable pub write_row : ℕ → Problem → Option ℕ → List ProblemRow → Reply (ℕ × List ProblemRow)
write_row n p none rows = do
  guard (passes_checks p) check_violation
  guard (not (exists (takes_slug none p.slug) rows)) unique_violation
  added ← or_fail (insert problem_key (row_of n p) rows) unique_violation
  ok (n, added)
write_row n p (some id) rows = do
  guard (is_some (find problem_key id rows)) no_rows
  guard (passes_checks p) check_violation
  guard (not (exists (takes_slug (some id) p.slug) rows)) unique_violation
  ok (id, update (λ (r : ProblemRow). r.id == id) (λ r. row_of id p) rows)

abbrev pub is_language_row : ℕ → Bytes → LanguageRow → Bool
is_language_row id l r = r.problem_id == id && bytes_eq l r.language_id

abbrev pub is_case_row : ℕ → ℕ → CaseRow → Bool
is_case_row id i r = r.problem_id == id && r.ordinal == i

abbrev pub language_row : ℕ → Bytes → LanguageRow
language_row id l = record { problem_id = id; language_id = l }

-- The loops of inserts; the first is the call `k`.
unfoldable pub add_languages :
    Net → ℕ → ℕ → List Bytes → List LanguageRow → Reply (List LanguageRow)
add_languages net k id [] rows = ok rows
add_languages net k id (l ∷ ls) rows = do
  guard (net.call k) disconnected
  guard (not (exists (is_language_row id l) rows)) unique_violation
  guard (is_language l) foreign_key_violation
  add_languages net (suc k) id ls (rows ++ (language_row id l ∷ []))

abbrev pub case_row : ℕ → ℕ → TestCase → CaseRow
case_row id i c = record {
  problem_id = id;
  ordinal = i;
  input = c.input;
  expected = c.expected;
  hidden = c.hidden;
}

unfoldable pub add_cases : Net → ℕ → ℕ → ℕ → List TestCase → List CaseRow → Reply (List CaseRow)
add_cases net k id i [] rows = ok rows
add_cases net k id i (c ∷ cs) rows = do
  guard (net.call k) disconnected
  guard (not (exists (is_case_row id i) rows)) unique_violation
  add_cases net (suc k) id (suc i) cs (rows ++ (case_row id i c ∷ []))

-- DELETE … WHERE problem_id = id
abbrev pub other_languages : ℕ → List LanguageRow → List LanguageRow
other_languages id rows = select (λ (r : LanguageRow). not (is_language_of id r)) rows

abbrev pub other_cases : ℕ → List CaseRow → List CaseRow
other_cases id rows = select (λ (r : CaseRow). not (is_case_of id r)) rows

-- The transaction of `SaveProblem` before its COMMIT.
unfoldable pub replace_problem : Net → ℕ → Problem → Platform → Reply (Problem × Platform)
replace_problem net n p t = do
  guard (net.call 0 && net.call 1) disconnected
  (id, rows) ← write_row n p p.id t.problems
  guard (net.call 2 && net.call 3) disconnected
  languages ← add_languages net 4 id p.languages (other_languages id t.problem_languages)
  cases ← add_cases net (4 + length p.languages) id 0 p.tests (other_cases id t.test_cases)
  ok (
    record p { id = some id },
    record t { problems = rows; problem_languages = languages; test_cases = cases },
  )

-- `SaveProblem`
unfoldable pub save_problem : Net → ℕ → Problem → Platform → Reply Problem × Platform
save_problem net n p t = settle_with net t (replace_problem net n p t)
