-- ===== src/Judge/Compare.antt =====
-- `Compare` of internal/judge/engine.go, with the `strings.Fields` that it calls.
-- A Go string is its bytes. `space_width` is the length of the UTF-8 encoding of the white-space
-- rune at the head, and 0 where no such rune stands there: no byte that begins one of these
-- encodings stands inside the encoding of another rune, so scanning bytes finds the same runes.
pub mod Fields
use online_coding_judge.Prelude.{
  ℕ, zero, suc, Bool, true, false, not, List, [], ◌∷◌, ◌++◌, Bytes, bytes_eq, length, leb, ◌==◌,
  ◌&&◌, ◌||◌, if◌then◌else◌,
}

-- The white space of ASCII: tab, newline, vertical tab, form feed, carriage return, space.
abbrev pub is_space : ℕ → Bool
is_space b = b == 32 || (leb 9 b && leb b 13)

-- The second byte of U+0085 and U+00A0, after 0xC2.
abbrev is_latin_space : ℕ → Bool
is_latin_space b = b == 0x85 || b == 0xa0

-- The last two bytes of the three-byte white-space runes: U+1680 after 0xE1; U+2000 to U+200A,
-- U+2028, U+2029, U+202F and U+205F after 0xE2; U+3000 after 0xE3.
abbrev is_wide_space : ℕ → ℕ → ℕ → Bool
is_wide_space a b c =
    (a == 0xe1 && (b == 0x9a && c == 0x80))
    || (a == 0xe2
        && (b == 0x80 && ((leb 0x80 c && leb c 0x8a) || (c == 0xa8 || (c == 0xa9 || c == 0xaf)))))
    || (a == 0xe2 && (b == 0x81 && c == 0x9f))
    || (a == 0xe3 && (b == 0x80 && c == 0x80))

unfoldable pub space_width : Bytes → ℕ
space_width [] = 0
space_width (a ∷ []) = if is_space a then 1 else 0
space_width (a ∷ b ∷ []) = if is_space a then 1 else if a == 0xc2 && is_latin_space b then 2 else 0
space_width (a ∷ b ∷ c ∷ rest) =
    if is_space a
    then 1
    else if a == 0xc2 && is_latin_space b
    then 2
    else if is_wide_space a b c
    then 3
    else 0

-- A word that is not empty is a field.
abbrev pub emit : Bytes → List Bytes
emit [] = []
emit (b ∷ w) = (b ∷ w) ∷ []

-- The fields of the rest, with the bytes of white space still to skip and the word read so far.
unfoldable pub fields_from : ℕ → Bytes → Bytes → List Bytes
fields_from skip word [] = emit word
fields_from (suc skip) word (b ∷ bs) = fields_from skip word bs
fields_from zero word (b ∷ bs) = elim (space_width (b ∷ bs)) [
  | zero ↦ fields_from 0 (word ++ (b ∷ [])) bs
  | suc k ↦ emit word ++ fields_from k [] bs
]

-- `strings.Fields`
unfoldable pub fields : Bytes → List Bytes
unfolding fields_from
fields s = fields_from 0 [] s

-- The loop over the indices of `a`; the lengths are equal where it runs.
unfoldable pub same_tokens : List Bytes → List Bytes → Bool
same_tokens [] bs = true
same_tokens (a ∷ more) [] = true
same_tokens (a ∷ more) (b ∷ bs) = bytes_eq a b && same_tokens more bs

unfoldable pub compare : Bytes → Bytes → Bool
unfolding fields same_tokens
compare actual expected =
    let a = fields actual in
    let b = fields expected in if not (length a == length b) then false else same_tokens a b
