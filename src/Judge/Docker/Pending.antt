-- ===== src/Judge/Docker/Pending.antt =====
-- The containers that were asked for and not yet asked to be removed, by name, beside the world.
use online_coding_judge.Prelude.{
  List, [], ◌∷◌, Bytes, text, bytes_eq, bytes_eq_refl, bytes_eq_iff, drop, Option, none, some,
  if◌then◌else◌, ◌≡◌, refl, All, Bool-cases, inl, inr, arith,
}
use online_coding_judge.Judge.Docker.Strings.{has_prefix}
use online_coding_judge.Judge.Docker.Host.{Host}

-- The name that `docker create` is told to use.
unfoldable pub named : List Bytes → Option Bytes
named [] = none
named (a ∷ args) =
    let rest = named args in if has_prefix (text "--name=") a then some (drop 7 a) else rest

unfoldable pub remove : Bytes → List Bytes → List Bytes
remove n [] = []
remove n (x ∷ xs) = let rest = remove n xs in if bytes_eq n x then rest else x ∷ rest

abbrev pub after_create : Option Bytes → List Bytes → List Bytes
after_create none pending = pending
after_create (some n) pending = n ∷ pending

abbrev pub after_rm : List Bytes → List Bytes → List Bytes
after_rm (flag ∷ n ∷ []) pending = remove n pending
after_rm args pending = pending

-- A creation may have taken effect also if the client reports an error.
unfoldable pub after_docker : List Bytes → List Bytes → List Bytes
after_docker [] pending = pending
after_docker (c ∷ args) pending =
    if bytes_eq c (text "create")
    then after_create (named args) pending
    else if bytes_eq c (text "rm")
    then after_rm args pending
    else pending

abbrev pub tracked : {W : Type 0} → Host W → Host (W × List Bytes)
tracked host = record {
  docker = λ cancelled input args (w, pending).
      let (r, w') = host.docker cancelled input args w in (r, (w', after_docker args pending));
  launch = λ cancelled input args (w, pending).
      let (p, w') = host.launch cancelled input args w in (p, (w', pending));
  now = λ (w, pending). host.now w;
  read_file = λ path (w, pending). let (r, w') = host.read_file path w in (r, (w', pending));
  random = λ n (w, pending). let (r, w') = host.random n w in (r, (w', pending));
  tar = host.tar;
  untar = host.untar;
}

-- No container but this one is pending.
abbrev pub Within : Option Bytes → List Bytes → Type 0
Within o pending = All (λ n. o ≡ some n) pending

pub remove_self : (n : Bytes) (pending : List Bytes) → remove n (n ∷ pending) ≡ remove n pending
unfolding remove
remove_self n pending = ground (arith, bytes_eq_refl n)

pub remove-Within :
    (o : Option Bytes) (n : Bytes) (pending : List Bytes)
    → Within o pending
    → Within o (remove n pending)
unfolding remove
remove-Within o n [] h = tt
remove-Within o n (x ∷ xs) (h, hs) = elim (Bool-cases (bytes_eq n x)) [
  | inl same ↦ rw same (remove-Within o n xs hs)
  | inr other ↦ rw other (h, remove-Within o n xs hs)
]

pub remove_only :
    (n : Bytes) (pending : List Bytes) → Within (some n) pending → remove n pending ≡ []
unfolding remove
remove_only n [] h = refl
remove_only n (x ∷ xs) (h, hs) = ground (arith, remove_only n xs hs, bytes_eq_iff n x)
