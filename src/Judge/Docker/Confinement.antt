-- ===== src/Judge/Docker/Confinement.antt =====
-- The counters that are read are those of a cgroup of the host.
use online_coding_judge.Prelude.{
  ℕ, true, false, List, [], ◌∷◌, ◌++◌, ◌==◌, Bytes, text, ◌≡◌, refl, subst, All, arith, Bool-cases,
  inl, inr,
}
use online_coding_judge.Errors.{ok}
use online_coding_judge.Judge.Docker.Strings.{
  has_prefix, trim_prefix, split, push_byte, is_dot, is_dot_dot, parent, clean_from, rooted, clean,
}
use online_coding_judge.Judge.Docker.Container.{cgroup_root, cgroup_path}

-- No byte is a slash.
abbrev pub IsOneElement : Bytes → Type 0
IsOneElement c = All (λ b. (b == 47) ≡ false) c

-- An element that names an entry of a directory, and neither the directory nor the one above it.
abbrev pub IsEntry : Bytes → Type 0
IsEntry c = (is_dot c ≡ false) × (is_dot_dot c ≡ false) × IsOneElement c

push_byte-IsOneElement :
    (c : ℕ) (ps : List Bytes)
    → (c == 47) ≡ false
    → All IsOneElement ps
    → All IsOneElement (push_byte c ps)
push_byte-IsOneElement c [] h hs = ((h, tt), tt)
push_byte-IsOneElement c (p ∷ ps) h (k, ks) = ((h, k), ks)

-- Splitting at the slashes leaves none.
split-IsOneElement : (path : Bytes) → All IsOneElement (split 47 path)
unfolding split
split-IsOneElement [] = (tt, tt)
split-IsOneElement (c ∷ path) = elim (Bool-cases (c == 47)) [
  | inl slash ↦ rw slash (tt, split-IsOneElement path)
  | inr other ↦ rw other (push_byte-IsOneElement c (split 47 path) other (split-IsOneElement path))
]

parent-All : (P : Bytes → Type 0) (kept : List Bytes) → All P kept → All P (parent kept)
parent-All P [] h = tt
parent-All P (d ∷ ds) (h, hs) = hs

clean_from-All :
    (kept cs : List Bytes)
    → All IsOneElement cs
    → All IsEntry kept
    → All IsEntry (clean_from kept cs)
unfolding clean_from
clean_from-All kept [] _ h = h
clean_from-All kept (c ∷ cs) (one, ones) h = elim (Bool-cases (is_dot c)) [
  | inl dot ↦ rw dot (clean_from-All kept cs ones h)
  | inr named ↦ rw named (elim (Bool-cases (is_dot_dot c)) [
    | inl up ↦ rw up (clean_from-All (parent kept) cs ones (parent-All IsEntry kept h))
    | inr down ↦ rw down (clean_from-All (c ∷ kept) cs ones ((named, down, one), h))
  ])
]

-- A path of entries from the root of the file system on, the last in front: a slash before each.
abbrev pub IsPlain : Bytes → Type 0
IsPlain path = (kept : List Bytes) × (All IsEntry kept) × (path ≡ rooted kept [])

clean-IsPlain : (path : Bytes) → IsPlain (clean path)
unfolding clean
clean-IsPlain path = (
  clean_from [] (split 47 path),
  clean_from-All [] (split 47 path) (split-IsOneElement path) tt,
  refl,
)

-- Whatever /proc says the cgroup of a container is, the path that is kept for it lies below
-- /sys/fs/cgroup/ and leads there through no element that is empty, `.` or `..`, where its elements
-- are what stands between its slashes.
pub cgroup_path-IsPlain :
    (lines : List Bytes) (path : Bytes)
    → cgroup_path lines ≡ ok path
    → (has_prefix cgroup_root path ≡ true) × IsPlain path
unfolding cgroup_path
cgroup_path-IsPlain [] path h = absurd (ground (arith, h))
cgroup_path-IsPlain (line ∷ lines) path h =
    let here = clean (cgroup_root ++ trim_prefix (text "0::/") line) in
    elim (Bool-cases (has_prefix (text "0::/") line)) [
      | inr other ↦ cgroup_path-IsPlain lines path (ground (arith, other, h))
      | inl found ↦ elim (Bool-cases (has_prefix cgroup_root here)) [
        | inr outside ↦ absurd (ground (arith, found, outside, h))
        | inl inside ↦
            let same : here ≡ path = ground (arith, found, inside, h) in
            subst (λ p. (has_prefix cgroup_root p ≡ true) × IsPlain p) same
              (inside, clean-IsPlain _)
      ]
    ]
