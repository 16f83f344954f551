-- ===== src/Api/Responses.antt =====
-- What internal/api/api.go answers, and how it decodes a request.
use online_coding_judge.Prelude.{ℕ, List, Bytes, Option, none, length, ltb, if◌then◌else◌}
use online_coding_judge.Errors.{Error, unique_violation}
use online_coding_judge.Problems.{Problem}
use online_coding_judge.Platform.Submitting.{Submission}

-- `User` of internal/database/store.go.
pub record User : Type 0 where
  pub id : ℕ
  pub username : Bytes
  pub email : Bytes
  pub role : Bytes

-- One entry of the list of problems.
pub record Item : Type 0 where
  pub id : ℕ
  pub title : Bytes
  pub slug : Bytes
  pub difficulty : Bytes

pub data Body : Type 0 where
  nothing generic : Body
  registered : ℕ → Body
  session : Bytes → ℕ → Body
  profile : User → Body
  catalogue : List Item → Body
  problem : Problem → Body
  submission : Submission → Body
  submissions : List Submission → Body

pub record Response : Type 0 where
  pub status : ℕ
  pub body : Body

abbrev pub answer : ℕ → Body → Response
answer status body = record { status = status; body = body }

-- `fail`: the body has the text of the status only.
abbrev pub fail : ℕ → Response
fail status = answer status generic

-- `dbFail`
unfoldable pub db_fail : Error → Response
db_fail unique_violation = fail 409
db_fail _ = fail 500

-- The text as a JSON value of the wanted type with known fields only, with nothing behind it: both
-- calls of `Decode`. The package encoding/json is a parameter.
abbrev pub Json : Type 0 → Type 0
Json A = Bytes → Option A

-- `decode`: a body over the limit does not end for the decoder, so that one of the calls fails.
unfoldable pub decode : {A : Type 0} → Json A → ℕ → Bytes → Option A
decode json limit body = if ltb limit (length body) then none else json body
