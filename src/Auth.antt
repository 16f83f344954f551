-- ===== src/Auth.antt =====
-- internal/auth/auth.go: passwords and bearer tokens. What the packages bcrypt, crypto/rand and
-- crypto/sha256 do in a call is a parameter.
use online_coding_judge.Prelude.{
  ℕ, Bool, Bytes, Option, none, some, length, ltb, ◌||◌, if◌then◌else◌,
}
use online_coding_judge.Errors.{Error, Reply, ok, err, failure}
use online_coding_judge.Judge.Docker.Container.{hex}

-- `random` gives that many bytes.
pub record Crypto : Type 0 where
  pub generate_from_password : Bytes → Reply Bytes
  pub compare_hash_and_password : Bytes → Bytes → Bool
  pub random : ℕ → Option Bytes
  pub sha256 : Bytes → Bytes

abbrev pub invalid_password : Error
invalid_password = failure 33

abbrev pub no_entropy : Error
no_entropy = failure 34

abbrev pub encoded : Option Bytes → Reply Bytes
encoded none = err no_entropy
encoded (some bytes) = ok (hex bytes)

module _ (crypto : Crypto) where
  -- `HashPassword`
  unfoldable pub hash_password : Bytes → Reply Bytes
  hash_password password =
      if ltb (length password) 12 || ltb 72 (length password)
      then err invalid_password
      else crypto.generate_from_password password

  -- `Verify`
  unfoldable pub verify : Bytes → Bytes → Bool
  verify hash password = crypto.compare_hash_and_password hash password

  -- `Token`
  unfoldable pub token : Reply Bytes
  token = encoded (crypto.random 32)

  -- `Digest`
  unfoldable pub digest : Bytes → Bytes
  digest t = hex (crypto.sha256 t)
