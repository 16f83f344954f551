-- ===== src/Judge/Docker/Strings.antt =====
-- What internal/judge/docker.go uses of the packages strings, strconv and path/filepath.
pub mod Decimal
use online_coding_judge.Prelude.{
  ℕ, zero, suc, ◌+◌, ◌-◌, ◌*◌, ◌/◌, ◌%◌, Bool, true, false, List, [], ◌∷◌, ◌++◌, Bytes, bytes_eq,
  length, drop, Option, none, some, ltb, leb, ◌==◌, ◌&&◌, ◌||◌, if◌then◌else◌, ℤ, pos, negsuc,
}

-- `strings.HasPrefix(s, p)`
unfoldable pub has_prefix : Bytes → Bytes → Bool
has_prefix [] s = true
has_prefix (x ∷ p) [] = false
has_prefix (x ∷ p) (y ∷ s) = x == y && has_prefix p s

-- `strings.TrimPrefix(s, p)`
abbrev pub trim_prefix : Bytes → Bytes → Bytes
trim_prefix p s = if has_prefix p s then drop (length p) s else s

-- A byte in front of the first part.
abbrev pub push_byte : ℕ → List Bytes → List Bytes
push_byte c [] = (c ∷ []) ∷ []
push_byte c (p ∷ ps) = (c ∷ p) ∷ ps

-- `strings.Split(s, sep)` at a separator of one byte.
unfoldable pub split : ℕ → Bytes → List Bytes
split sep [] = [] ∷ []
split sep (c ∷ s) = let rest = split sep s in if c == sep then [] ∷ rest else push_byte c rest

-- The decimal digits of a number, in front of those that follow. Twenty digits are more than a
-- 64-bit number has.
unfoldable pub digits : ℕ → ℕ → Bytes → Bytes
digits zero n rest = rest
digits (suc fuel) n rest =
    let more = digits fuel (n / 10) ((48 + n % 10) ∷ rest) in
    if ltb n 10 then (48 + n) ∷ rest else more

-- `strconv.Itoa` of a number that is not negative.
unfoldable pub itoa : ℕ → Bytes
itoa n = digits 20 n []

-- Digits after the value so far.
unfoldable pub scan_digits : ℕ → Bytes → Option ℕ
scan_digits n [] = some n
scan_digits n (c ∷ s) =
    let rest = scan_digits (n * 10 + (c - 48)) s in if leb 48 c && leb c 57 then rest else none

-- One or more digits.
abbrev pub magnitude : Bytes → Option ℕ
magnitude [] = none
magnitude (c ∷ s) = scan_digits 0 (c ∷ s)

-- Within 64 bits, with and without a minus sign.
abbrev pub fit_pos : Option ℕ → Option ℤ
fit_pos none = none
fit_pos (some n) = if ltb n 9223372036854775808 then some (pos n) else none

abbrev pub negate : ℕ → ℤ
negate zero = pos 0
negate (suc n) = negsuc n

abbrev pub fit_neg : Option ℕ → Option ℤ
fit_neg none = none
fit_neg (some n) = if leb n 9223372036854775808 then some (negate n) else none

-- `strconv.ParseInt(s, 10, 64)`, and `strconv.Atoi` where an `int` has 64 bits.
unfoldable pub parse_int : Bytes → Option ℤ
parse_int [] = none
parse_int (c ∷ s) =
    if c == 43
    then fit_pos (magnitude s)
    else if c == 45
    then fit_neg (magnitude s)
    else fit_pos (magnitude (c ∷ s))

-- The parsed number in a text with white space around it: no white space stands in a number, so
-- that one field, and no other number of them, is left by `strings.TrimSpace`.
abbrev pub parse_field : List Bytes → Option ℤ
parse_field [] = none
parse_field (f ∷ []) = parse_int f
parse_field (f ∷ g ∷ fs) = none

abbrev pub is_dot : Bytes → Bool
is_dot c = bytes_eq c [] || bytes_eq c (46 ∷ [])

abbrev pub is_dot_dot : Bytes → Bool
is_dot_dot c = bytes_eq c (46 ∷ 46 ∷ [])

abbrev pub parent : List Bytes → List Bytes
parent [] = []
parent (d ∷ ds) = ds

-- The elements of a rooted path, the last in front, as `filepath.Clean` keeps them.
unfoldable pub clean_from : List Bytes → List Bytes → List Bytes
clean_from kept [] = kept
clean_from kept (c ∷ cs) =
    clean_from (if is_dot c then kept else if is_dot_dot c then parent kept else c ∷ kept) cs

unfoldable pub rooted : List Bytes → Bytes → Bytes
rooted [] path = path
rooted (c ∷ kept) path = rooted kept (47 ∷ (c ++ path))

-- `filepath.Clean` of a rooted path other than the root itself.
unfoldable pub clean : Bytes → Bytes
clean path = rooted (clean_from [] (split 47 path)) []
