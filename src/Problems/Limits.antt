-- ===== src/Problems/Limits.antt =====
-- What an accepted problem guarantees, and that nothing else is refused.
use online_coding_judge.Prelude.{
  ℕ, ◌+◌, ◌≤◌, ◌≡◌, ◌≢◌, ◌↔◌, ◌⊎◌, inl, inr, refl, ℤ, below, above, pos, negsuc, true, false, List,
  [], ◌∷◌, Bytes, bytes_eq_iff, text, length, All, none, arith, Bool-cases, Option-cases,
}
use online_coding_judge.Problems.{
  TestCase, Problem, is_slug, is_language, is_status, exceeds_budgets, is_seen, check_languages,
  check_tests, validate,
}

-- The value lies in a range of natural numbers.
abbrev pub InRange : ℕ → ℤ → ℕ → Type 0
InRange lo (pos n) hi = (lo ≤ n) × (n ≤ hi)
InRange lo (negsuc n) hi = ⊥

abbrev pub IsLanguage : Bytes → Type 0
IsLanguage l = (l ≡ text "python") ⊎ (l ≡ text "cpp")

-- No language stands twice.
abbrev pub Distinct : List Bytes → Type 0
Distinct [] = Unit {0}
Distinct (l ∷ ls) = All (λ k. k ≢ l) ls × Distinct ls

abbrev pub IsSmallTest : TestCase → Type 0
IsSmallTest c = (length c.input ≤ 65536) × (length c.expected ≤ 65536)

abbrev pub test_bytes : List TestCase → ℕ
test_bytes [] = 0
test_bytes (c ∷ cs) = length c.input + length c.expected + test_bytes cs

pub record IsWithinBudgets (p : Problem) : Type 0 where
  pub slug : is_slug p.slug ≡ true
  pub title : (1 ≤ length p.title) × (length p.title ≤ 200)
  pub statement : (1 ≤ length p.statement) × (length p.statement ≤ 65536)
  pub time : InRange 100 p.time_limit_ms 10000
  pub memory : InRange 32 p.memory_limit_mb 512
  pub status : is_status p.status ≡ true
  pub some_tests : (1 ≤ length p.tests) × (length p.tests ≤ 100)
  pub some_languages : (1 ≤ length p.languages) × (length p.languages ≤ 2)

pub record IsValid (p : Problem) : Type 0 where
  pub budgets : IsWithinBudgets p
  pub supported : All IsLanguage p.languages
  pub distinct : Distinct p.languages
  pub small : All IsSmallTest p.tests
  pub bounded : test_bytes p.tests ≤ 1048576

range_iff : (lo hi : ℕ) (i : ℤ) → ((below i lo ≡ false) × (above i hi ≡ false)) ↔ InRange lo i hi
range_iff lo hi (pos n) = ground arith
range_iff lo hi (negsuc n) = ground arith

exceeds_budgets_iff : (p : Problem) → (exceeds_budgets p ≡ false) ↔ IsWithinBudgets p
unfolding exceeds_budgets
exceeds_budgets_iff p =
    ground (arith, range_iff 100 10000 p.time_limit_ms, range_iff 32 512 p.memory_limit_mb)

check_tests_iff :
    (total : ℕ) (cs : List TestCase)
    → (check_tests total cs ≡ none) ↔ (All IsSmallTest cs × (total + test_bytes cs ≤ 1048576))
unfolding check_tests
check_tests_iff total [] = ground arith
check_tests_iff total (c ∷ cs) =
    ground (arith, check_tests_iff (total + (length c.input + length c.expected)) cs)

is_seen_iff : (l : Bytes) (seen : List Bytes) → (is_seen l seen ≡ false) ↔ All (λ k. l ≢ k) seen
unfolding is_seen
is_seen_iff l [] = ground arith
is_seen_iff l (k ∷ ks) = ground (arith, is_seen_iff l ks, bytes_eq_iff l k)

abbrev Unseen : List Bytes → Bytes → Type 0
Unseen seen l = All (λ k. l ≢ k) seen

All-Unseen_iff :
    (l : Bytes) (seen ls : List Bytes)
    → All (Unseen (l ∷ seen)) ls ↔ (All (λ k. k ≢ l) ls × All (Unseen seen) ls)
All-Unseen_iff l seen [] = ground arith
All-Unseen_iff l seen (k ∷ ks) =
    let ih = All-Unseen_iff l seen ks in
    (
      λ h. ((h.0.0, (ih.0 h.1).0), (h.0.1, (ih.0 h.1).1)),
      λ h. ((h.0.0, h.1.0), ih.1 (h.0.1, h.1.1)),
    )

is_language_iff : (l : Bytes) → (is_language l ≡ true) ↔ IsLanguage l
is_language_iff l = ground (arith, bytes_eq_iff l (text "python"), bytes_eq_iff l (text "cpp"))

check_languages_iff :
    (seen ls : List Bytes)
    → (check_languages seen ls ≡ none) ↔ (All IsLanguage ls × Distinct ls × All (Unseen seen) ls)
unfolding check_languages
check_languages_iff seen [] = (λ _. (tt, tt, tt), λ _. refl)
check_languages_iff seen (l ∷ ls) = elim (Bool-cases (is_language l)) [
  | inr bad ↦ rw (bad, check_languages) (λ h. cc, λ h. cc ((is_language_iff l).1 h.0.0))
  | inl good ↦ elim (Bool-cases (is_seen l seen)) [
    | inl old ↦ rw (good, old, check_languages) (λ h. cc, λ h. cc ((is_seen_iff l seen).1 h.2.0))
    | inr new ↦
        let ih = check_languages_iff (l ∷ seen) ls in
        let split = All-Unseen_iff l seen ls in
        rw (good, new, check_languages)
          (
            λ h.
                let (supported, distinct, unseen) = ih.0 h in
                (
                  ((is_language_iff l).0 good, supported),
                  ((split.0 unseen).0, distinct),
                  ((is_seen_iff l seen).0 new, (split.0 unseen).1),
                ),
            λ h. ih.1 (h.0.1, h.1.1, split.1 (h.1.0, h.2.1)),
          )
  ]
]

All-Unseen_nil : (ls : List Bytes) → All (Unseen []) ls
All-Unseen_nil [] = tt
All-Unseen_nil (l ∷ ls) = (tt, All-Unseen_nil ls)

-- `Validate` accepts exactly the problems within every limit: the slug, title, statement, time,
-- memory and status limits, 1 to 100 tests of at most 65536 bytes a side and 1048576 bytes in all,
-- and one or two distinct languages among Python and C++.
pub validate_iff : (p : Problem) → (validate p ≡ none) ↔ IsValid p
unfolding validate
validate_iff p = elim (Bool-cases (exceeds_budgets p)) [
  | inl over ↦ rw (over, validate) (λ h. cc, λ h. cc ((exceeds_budgets_iff p).1 h.budgets))
  | inr within ↦ elim (Option-cases (check_languages [] p.languages)) [
    | inr (e, bad) ↦
        rw (within, bad, validate)
          (
            λ h. cc,
            λ h. cc (
                (check_languages_iff [] p.languages).1
                  (h.supported, h.distinct, All-Unseen_nil p.languages)),
          )
    | inl good ↦
        let languages = (check_languages_iff [] p.languages).0 good in
        let tests = check_tests_iff 0 p.tests in
        rw (within, good, validate)
          (
            λ h. record {
              budgets = (exceeds_budgets_iff p).0 within;
              supported = languages.0;
              distinct = languages.1;
              small = (tests.0 h).0;
              bounded = omega (arith, (tests.0 h).1);
            },
            λ h. tests.1 (h.small, omega (arith, h.bounded)),
          )
  ]
]
