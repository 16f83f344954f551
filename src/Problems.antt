-- ===== src/Problems.antt =====
-- internal/problems/problem.go: problem definitions, their validation and their public view.
-- `id` is `none` where the source has the empty string.
pub mod Limits
pub mod Visibility
use online_coding_judge.Prelude.{
  ℕ, ◌+◌, ℤ, below, above, Bool, true, false, not, List, [], ◌∷◌, ◌++◌, Bytes, bytes_eq, text,
  length, Option, none, some, ltb, leb, ◌==◌, ◌&&◌, ◌||◌, if◌then◌else◌,
}

pub record TestCase : Type 0 where
  pub input : Bytes
  pub expected : Bytes
  pub hidden : Bool

pub record Problem : Type 0 where
  pub id : Option ℕ
  pub slug : Bytes
  pub title : Bytes
  pub statement : Bytes
  pub difficulty : Bytes
  pub time_limit_ms : ℤ
  pub memory_limit_mb : ℤ
  pub status : Bytes
  pub languages : List Bytes
  pub tests : List TestCase

pub data ProblemError : Type 0 where
  invalid_problem invalid_language test_too_large test_set_too_large : ProblemError

abbrev pub is_slug_start : ℕ → Bool
is_slug_start b = (leb b'a' b && leb b b'z') || (leb b'0' b && leb b b'9')

abbrev pub is_slug_part : ℕ → Bool
is_slug_part b = is_slug_start b || b == b'-'

unfoldable pub all_slug_parts : Bytes → Bool
all_slug_parts [] = true
all_slug_parts (b ∷ bs) = is_slug_part b && all_slug_parts bs

-- The regular expression ^[a-z0-9][a-z0-9-]{0,79}$
unfoldable pub is_slug : Bytes → Bool
unfolding all_slug_parts
is_slug [] = false
is_slug (b ∷ bs) = is_slug_start b && (leb (length bs) 79 && all_slug_parts bs)

abbrev pub is_language : Bytes → Bool
is_language l = bytes_eq l (text "python") || bytes_eq l (text "cpp")

abbrev pub is_status : Bytes → Bool
is_status s =
    bytes_eq s (text "draft") || (bytes_eq s (text "published") || bytes_eq s (text "disabled"))

-- The first condition of `Validate`.
unfoldable pub exceeds_budgets : Problem → Bool
exceeds_budgets p =
    not (is_slug p.slug)
    || (ltb (length p.title) 1
        || (ltb 200 (length p.title)
            || (ltb (length p.statement) 1
                || (ltb 65536 (length p.statement)
                    || (below p.time_limit_ms 100
                        || (above p.time_limit_ms 10000
                            || (below p.memory_limit_mb 32
                                || (above p.memory_limit_mb 512
                                    || (not (is_status p.status)
                                        || (ltb (length p.tests) 1
                                            || (ltb 100 (length p.tests)
                                                || (ltb (length p.languages) 1
                                                    || ltb 2 (length p.languages)))))))))))))

-- The map `seen`, as the list of its keys.
unfoldable pub is_seen : Bytes → List Bytes → Bool
is_seen l [] = false
is_seen l (k ∷ ks) = bytes_eq l k || is_seen l ks

unfoldable pub check_languages : List Bytes → List Bytes → Option ProblemError
unfolding is_seen
check_languages seen [] = none
check_languages seen (l ∷ ls) =
    let rest = check_languages (l ∷ seen) ls in
    if not (is_language l) || is_seen l seen then some invalid_language else rest

unfoldable pub check_tests : ℕ → List TestCase → Option ProblemError
check_tests total [] = if ltb 1048576 total then some test_set_too_large else none
check_tests total (c ∷ cs) =
    let rest = check_tests (total + (length c.input + length c.expected)) cs in
    if ltb 65536 (length c.input) || ltb 65536 (length c.expected)
    then some test_too_large
    else rest

-- `Validate`; `none` is the nil error.
unfoldable pub validate : Problem → Option ProblemError
validate p =
    if exceeds_budgets p
    then some invalid_problem
    else elim (check_languages [] p.languages) [ some e ↦ some e | none ↦ check_tests 0 p.tests ]

-- The loop of `Public`.
unfoldable pub visible_from : List TestCase → List TestCase → List TestCase
visible_from visible [] = visible
visible_from visible (c ∷ cs) =
    visible_from (if not c.hidden then visible ++ (c ∷ []) else visible) cs

-- `Public`
unfoldable pub public : Problem → Problem
unfolding visible_from
public p = record p { tests = visible_from [] p.tests }
