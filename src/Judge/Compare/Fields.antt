-- ===== src/Judge/Compare/Fields.antt =====
-- What `Compare` and the splitting into fields mean.
use online_coding_judge.Prelude.{
  ℕ, zero, suc, ◌≡◌, refl, ap, ◌↔◌, true, List, [], ◌∷◌, ◌++◌, arith, Bytes, bytes_eq_iff, length,
  inl, inr, ℕ-cases, append-nil,
}
use online_coding_judge.Judge.Compare.{
  is_space, space_width, emit, fields_from, fields, same_tokens, compare,
}

same_tokens_iff :
    (xs ys : List Bytes) → length xs ≡ length ys → (same_tokens xs ys ≡ true) ↔ (xs ≡ ys)
unfolding same_tokens
same_tokens_iff [] [] h = (λ _. refl, λ _. refl)
same_tokens_iff [] (y ∷ ys) h = absurd (omega arith)
same_tokens_iff (x ∷ xs) [] h = absurd (omega arith)
same_tokens_iff (x ∷ xs) (y ∷ ys) h =
    ground (arith, same_tokens_iff xs ys (omega arith), bytes_eq_iff x y)

length_eq : (xs ys : List Bytes) → xs ≡ ys → length xs ≡ length ys
length_eq xs ys e = ap length e

-- Two outputs compare equal exactly when they have the same white-space separated fields, in the
-- same order and byte for byte.
pub compare_iff :
    (actual expected : Bytes) → (compare actual expected ≡ true) ↔ (fields actual ≡ fields expected)
unfolding compare
compare_iff actual expected = ground (
  arith,
  same_tokens_iff (fields actual) (fields expected),
  length_eq (fields actual) (fields expected),
)

space_width_append :
    (a : ℕ) (s : Bytes) (z : ℕ)
    → is_space z ≡ true
    → space_width (a ∷ (s ++ (z ∷ []))) ≡ space_width (a ∷ s)
unfolding space_width
space_width_append a [] z h = ground arith
space_width_append a (b ∷ []) z h = ground arith
space_width_append a (b ∷ c ∷ s) z h = refl

space_width_space : (z : ℕ) → is_space z ≡ true → space_width (z ∷ []) ≡ 1
unfolding space_width
space_width_space z h = rw h

fields_from_trailing :
    (skip : ℕ) (word s : Bytes) (z : ℕ)
    → is_space z ≡ true
    → fields_from skip word (s ++ (z ∷ [])) ≡ fields_from skip word s
unfolding fields_from
fields_from_trailing zero word [] z h =
    rw (space_width_space z h, fields_from) (append-nil (emit word))
fields_from_trailing (suc skip) word [] z h = refl
fields_from_trailing (suc skip) word (b ∷ s) z h = fields_from_trailing skip word s z h
fields_from_trailing zero word (b ∷ s) z h = elim (ℕ-cases (space_width (b ∷ s))) [
  | inl e ↦
      rw (space_width_append b s z h, e, fields_from)
        (fields_from_trailing 0 (word ++ (b ∷ [])) s z h)
  | inr (k, e) ↦
      rw (space_width_append b s z h, e, fields_from)
        (ap (◌++◌ (emit word)) (fields_from_trailing k [] s z h))
]

-- White space after the last word, such as the newline of a final line, changes no comparison.
pub compare_trailing :
    (actual expected : Bytes) (z : ℕ)
    → is_space z ≡ true
    → compare (actual ++ (z ∷ [])) expected ≡ compare actual expected
unfolding compare
compare_trailing actual expected z h = rw (fields_from_trailing 0 [] actual z h)
