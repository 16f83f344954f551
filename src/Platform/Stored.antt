-- ===== src/Platform/Stored.antt =====
-- What the inserts of `SaveProblem` leave in the tables, as `loadProblem` reads them.
use online_coding_judge.Prelude.{
  ℕ, suc, Bool, true, not, List, [], ◌∷◌, ◌++◌, Bytes, map, leb, ◌≡◌, refl, ◌∙◌, ap, ap₂, All,
  arith, append_assoc, append-nil, ==-refl,
}
use online_coding_judge.Errors.{ok}
use online_coding_judge.Problems.{TestCase}
use online_coding_judge.Database.Table.{select, place, sort_by, order_by}
use online_coding_judge.Database.Transaction.{Net}
use online_coding_judge.Platform.Tables.{LanguageRow, CaseRow}
use online_coding_judge.Platform.Authoring.{
  bytes_le, language_le, is_language_of, is_case_of, by_ordinal, language_name, case_of,
  languages_of, tests_of, language_row, case_row, add_languages, add_cases, other_languages,
  other_cases,
}

module _ {A : Type 0} (p : A → Bool) where
  select-append : (xs ys : List A) → select p (xs ++ ys) ≡ select p xs ++ select p ys
  unfolding select
  select-append [] ys = refl
  select-append (x ∷ xs) ys = ground (arith, select-append xs ys)

  -- Nothing that a predicate selects is left where its negation has selected.
  select-others : (xs : List A) → select p (select (λ x. not (p x)) xs) ≡ []
  unfolding select
  select-others [] = refl
  select-others (x ∷ xs) = ground (arith, select-others xs)

  select_whole : (xs : List A) → All (λ x. p x ≡ true) xs → select p xs ≡ xs
  unfolding select
  select_whole [] h = refl
  select_whole (x ∷ xs) (h, hs) = ground (arith, h, select_whole xs hs)

language_rows : ℕ → List Bytes → List LanguageRow
language_rows id [] = []
language_rows id (l ∷ ls) = language_row id l ∷ language_rows id ls

case_rows : ℕ → ℕ → List TestCase → List CaseRow
case_rows id i [] = []
case_rows id i (c ∷ cs) = case_row id i c ∷ case_rows id (suc i) cs

add_languages_lem :
    (net : Net) (k id : ℕ) (ls : List Bytes) (rows rows' : List LanguageRow)
    → add_languages net k id ls rows ≡ ok rows'
    → rows' ≡ rows ++ language_rows id ls
unfolding add_languages language_rows
add_languages_lem net k id [] rows rows' h = ground (arith, h, append-nil rows)
add_languages_lem net k id (l ∷ ls) rows rows' h =
    add_languages_lem net (suc k) id ls (rows ++ (language_row id l ∷ [])) rows' (ground (arith, h))
    ∙ append_assoc rows (language_row id l ∷ []) (language_rows id ls)

add_cases_lem :
    (net : Net) (k id i : ℕ) (cs : List TestCase) (rows rows' : List CaseRow)
    → add_cases net k id i cs rows ≡ ok rows'
    → rows' ≡ rows ++ case_rows id i cs
unfolding add_cases case_rows
add_cases_lem net k id i [] rows rows' h = ground (arith, h, append-nil rows)
add_cases_lem net k id i (c ∷ cs) rows rows' h =
    add_cases_lem net (suc k) id (suc i) cs (rows ++ (case_row id i c ∷ [])) rows'
      (ground (arith, h))
    ∙ append_assoc rows (case_row id i c ∷ []) (case_rows id (suc i) cs)

language_rows-All :
    (id : ℕ) (ls : List Bytes) → All (λ r. is_language_of id r ≡ true) (language_rows id ls)
unfolding language_rows
language_rows-All id [] = tt
language_rows-All id (l ∷ ls) = (==-refl id, language_rows-All id ls)

case_rows-All :
    (id i : ℕ) (cs : List TestCase) → All (λ r. is_case_of id r ≡ true) (case_rows id i cs)
unfolding case_rows
case_rows-All id i [] = tt
case_rows-All id i (c ∷ cs) = (==-refl id, case_rows-All id (suc i) cs)

place-language_rows :
    (id : ℕ) (l : Bytes) (ls : List Bytes)
    → place language_le (language_row id l) (language_rows id ls)
      ≡ language_rows id (place bytes_le l ls)
unfolding place language_rows
place-language_rows id l [] = refl
place-language_rows id l (k ∷ ls) = ground (arith, place-language_rows id l ls)

sort_by-language_rows :
    (id : ℕ) (ls : List Bytes)
    → sort_by language_le (language_rows id ls) ≡ language_rows id (sort_by bytes_le ls)
unfolding sort_by language_rows
sort_by-language_rows id [] = refl
sort_by-language_rows id (l ∷ ls) =
    ap (place language_le (language_row id l)) (sort_by-language_rows id ls)
    ∙ place-language_rows id l (sort_by bytes_le ls)

map-language_rows : (id : ℕ) (ls : List Bytes) → map language_name (language_rows id ls) ≡ ls
unfolding language_rows
map-language_rows id [] = refl
map-language_rows id (l ∷ ls) = ap (◌∷◌ l) (map-language_rows id ls)

map-case_rows : (id i : ℕ) (cs : List TestCase) → map case_of (case_rows id i cs) ≡ cs
unfolding case_rows
map-case_rows id i [] = refl
map-case_rows id i (c ∷ cs) = ap (◌∷◌ c) (map-case_rows id (suc i) cs)

place-case_rows :
    (id i : ℕ) (c : TestCase) (cs : List TestCase)
    → place (λ x y. leb (by_ordinal x) (by_ordinal y)) (case_row id i c) (case_rows id (suc i) cs)
      ≡ case_row id i c ∷ case_rows id (suc i) cs
unfolding place case_rows
place-case_rows id i c [] = refl
place-case_rows id i c (d ∷ ds) = ground arith

-- The rows of the tests are in the order of their ordinals.
order_by-case_rows :
    (id i : ℕ) (cs : List TestCase) → order_by by_ordinal (case_rows id i cs) ≡ case_rows id i cs
unfolding sort_by case_rows
order_by-case_rows id i [] = refl
order_by-case_rows id i (c ∷ cs) =
    ap (place (λ x y. leb (by_ordinal x) (by_ordinal y)) (case_row id i c))
      (order_by-case_rows id (suc i) cs)
    ∙ place-case_rows id i c cs

-- After the inserts on what the delete has left, the queries give the languages in their order and
-- the tests as they were.
pub languages_of-add_languages :
    (net : Net) (k id : ℕ) (ls : List Bytes) (rows rows' : List LanguageRow)
    → add_languages net k id ls (other_languages id rows) ≡ ok rows'
    → languages_of id rows' ≡ sort_by bytes_le ls
unfolding languages_of
languages_of-add_languages net k id ls rows rows' h =
    ap (λ x. map language_name (sort_by language_le x))
      (ap (select (is_language_of id))
          (add_languages_lem net k id ls (other_languages id rows) rows' h)
        ∙ select-append (is_language_of id) (other_languages id rows) (language_rows id ls)
        ∙ ap₂ ◌++◌ (select-others (is_language_of id) rows)
            (select_whole (is_language_of id) (language_rows id ls) (language_rows-All id ls)))
    ∙ ap (map language_name) (sort_by-language_rows id ls)
    ∙ map-language_rows id (sort_by bytes_le ls)

pub tests_of-add_cases :
    (net : Net) (k id : ℕ) (cs : List TestCase) (rows rows' : List CaseRow)
    → add_cases net k id 0 cs (other_cases id rows) ≡ ok rows'
    → tests_of id rows' ≡ cs
unfolding tests_of
tests_of-add_cases net k id cs rows rows' h =
    ap (λ x. map case_of (order_by by_ordinal x))
      (ap (select (is_case_of id)) (add_cases_lem net k id 0 cs (other_cases id rows) rows' h)
        ∙ select-append (is_case_of id) (other_cases id rows) (case_rows id 0 cs)
        ∙ ap₂ ◌++◌ (select-others (is_case_of id) rows)
            (select_whole (is_case_of id) (case_rows id 0 cs) (case_rows-All id 0 cs)))
    ∙ ap (map case_of) (order_by-case_rows id 0 cs)
    ∙ map-case_rows id 0 cs
