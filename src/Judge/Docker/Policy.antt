-- ===== src/Judge/Docker/Policy.antt =====
-- `sandboxArgs` of internal/judge/docker.go.
use online_coding_judge.Prelude.{
  ℕ, Bool, true, not, List, [], ◌∷◌, ◌++◌, Bytes, text, length, drop, leb, above, below, ℤ,
  pos_part, ◌==◌, ◌&&◌, ◌||◌, if◌then◌else◌,
}
use online_coding_judge.Errors.{Error, Reply, ok, err, failure}
use online_coding_judge.Judge.Docker.Strings.{has_prefix, itoa}

abbrev pub is_hex_digit : ℕ → Bool
is_hex_digit c = (leb 97 c && leb c 102) || (leb 48 c && leb c 57)

unfoldable pub all_hex_digits : Bytes → Bool
all_hex_digits [] = true
all_hex_digits (c ∷ s) = is_hex_digit c && all_hex_digits s

-- The pattern `^sha256:[a-f0-9]{64}$`; without the flag m, `$` is the end of the text.
unfoldable pub is_image : Bytes → Bool
is_image s = has_prefix (text "sha256:") s && (length (drop 7 s) == 64 && all_hex_digits (drop 7 s))

abbrev pub invalid_image : Error
invalid_image = failure 11

-- The controls between `create` and the image.
abbrev pub controls : ℕ → List Bytes
controls memory =
    text "--network=none"
    ∷ text "--read-only"
    ∷ text "--user=65534:65534"
    ∷ text "--cap-drop=ALL"
    ∷ text "--security-opt=no-new-privileges"
    ∷ text "--pids-limit=64"
    ∷ text "--cpus=1"
    ∷ (text "--memory=" ++ (itoa memory ++ text "m"))
    ∷ (text "--memory-swap=" ++ (itoa memory ++ text "m"))
    ∷ text "--tmpfs=/work:rw,exec,nosuid,nodev,size=32m,mode=1777"
    ∷ text "--tmpfs=/tmp:rw,noexec,nosuid,nodev,size=16m,mode=1777"
    ∷ text "--ulimit=fsize=16777216:16777216"
    ∷ text "--ulimit=nofile=64:64"
    ∷ text "--ulimit=core=0:0"
    ∷ text "--log-driver=none"
    ∷ text "--label=online-coding-judge.sandbox=true"
    ∷ []

unfoldable pub sandbox_args : Bytes → ℤ → Reply (List Bytes)
sandbox_args image memory =
    if not (is_image image) || (below memory 32 || above memory 512)
    then err invalid_image
    else ok (text "create" ∷ (controls (pos_part memory) ++ (image ∷ [])))
