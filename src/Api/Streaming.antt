-- ===== src/Api/Streaming.antt =====
-- GET /v1/submissions/:id/events of internal/api/api.go: the event stream of a submission, poll by
-- poll. The JSON text of a submission is a parameter.
pub mod Delivery
use online_coding_judge.Prelude.{
  ℕ, Bool, true, false, List, [], ◌∷◌, ◌++◌, Bytes, bytes_eq, Option, none, some, ◌||◌,
  if◌then◌else◌,
}
use online_coding_judge.Errors.{Reply, ok, err}
use online_coding_judge.Submissions.{Status, final, failed_internal, is_same}
use online_coding_judge.Database.Transaction.{Net}
use online_coding_judge.Platform.Tables.{Platform}
use online_coding_judge.Platform.Submitting.{Submission, history}

-- What one turn of the loop meets: the call of the database, the tables, and whether the request is
-- done before the next turn.
pub record Poll : Type 0 where
  pub net : Net
  pub platform : Platform
  pub closed : Bool

abbrev pub is_settled : Status → Bool
is_settled status = is_same status final || is_same status failed_internal

-- A payload is written where it differs from the last.
abbrev pub written : Bytes → Bytes → List Bytes
written last payload = if bytes_eq payload last then [] else payload ∷ []

-- One turn of the loop: the payloads from it on, and the status of `fail` where one ends it. `rest`
-- is the loop from the next turn on.
abbrev pub turn :
    (Submission → Bytes)
    → Bytes
    → Bool
    → Reply (List Submission)
    → (Bytes → List Bytes × Option ℕ)
    → List Bytes × Option ℕ
turn marshal last closed (err e) rest = ([], some 500)
turn marshal last closed (ok []) rest = ([], some 404)
turn marshal last closed (ok (item ∷ items)) rest =
    let payload = marshal item in
    let (more, failed) = rest payload in
    if is_settled item.status || closed
    then (written last payload, none)
    else (written last payload ++ more, failed)

-- The loop, over the turns that there are before the stream is looked at.
unfoldable pub stream_events :
    (Submission → Bytes) → ℕ → ℕ → Bytes → List Poll → List Bytes × Option ℕ
stream_events marshal user id last [] = ([], none)
stream_events marshal user id last (p ∷ polls) =
    turn marshal last p.closed (history p.net user (some id) p.platform)
      (λ l. stream_events marshal user id l polls)
