-- ===== src/Api/Streaming/Delivery.antt =====
-- The client of an event stream has the newest state after every turn, and no state twice in a row.
use online_coding_judge.Prelude.{
  ℕ, Bool, false, List, [], ◌∷◌, ◌++◌, Bytes, bytes_eq, bytes_eq_iff, append-nil, Option, none,
  some, ◌||◌, ◌≡◌, refl, sym, ◌∙◌, ap, subst, Bool-cases, inl, inr, All,
}
use online_coding_judge.Errors.{Reply, ok, err}
use online_coding_judge.Platform.Submitting.{Submission, history}
use online_coding_judge.Api.Streaming.{Poll, is_settled, written, turn, stream_events}

-- Each payload differs from the one before it.
abbrev pub Changes : Bytes → List Bytes → Type 0
Changes last [] = Unit
Changes last (x ∷ xs) = (bytes_eq x last ≡ false) × Changes x xs

-- The newest payload that the client has.
abbrev pub newest : Bytes → List Bytes → Bytes
newest last [] = last
newest last (x ∷ xs) = newest x xs

-- A turn that shows a submission which is still in work, to a client that stays.
abbrev pub IsOpen : ℕ → ℕ → Poll → Type 0
IsOpen user id p =
    (item : Submission) × (items : List Submission) × (history p.net user (some id) p.platform
      ≡ ok (item ∷ items))
    × ((is_settled item.status || p.closed) ≡ false)

written-Changes :
    (last payload : Bytes) (more : List Bytes)
    → Changes payload more
    → Changes last (written last payload ++ more)
written-Changes last payload more h = elim (Bool-cases (bytes_eq payload last)) [
  | inl same ↦ rw same (subst (λ x. Changes x more) ((bytes_eq_iff payload last).0 same) h)
  | inr fresh ↦ rw fresh (fresh, h)
]

newest-written :
    (last payload : Bytes) (more : List Bytes)
    → newest last (written last payload ++ more) ≡ newest payload more
newest-written last payload more = elim (Bool-cases (bytes_eq payload last)) [
  | inl same ↦ rw same (ap (λ x. newest x more) (sym ((bytes_eq_iff payload last).0 same)))
  | inr fresh ↦ rw fresh refl
]

turn-Changes :
    (marshal : Submission → Bytes) (last : Bytes) (closed : Bool) (r : Reply (List Submission))
    (rest : Bytes → List Bytes × Option ℕ)
    → ((l : Bytes) → Changes l (rest l).0)
    → Changes last (turn marshal last closed r rest).0
turn-Changes marshal last closed (err e) rest h = tt
turn-Changes marshal last closed (ok []) rest h = tt
turn-Changes marshal last closed (ok (item ∷ items)) rest h =
    let payload = marshal item in
    elim (Bool-cases (is_settled item.status || closed)) [
      | inl ends ↦ rw ends (
          subst (Changes last) (append-nil (written last payload))
            (written-Changes last payload [] tt))
      | inr stays ↦ rw stays (written-Changes last payload (rest payload).0 (h payload))
    ]

stream_events-Changes :
    (marshal : Submission → Bytes) (user id : ℕ) (last : Bytes) (polls : List Poll)
    → Changes last (stream_events marshal user id last polls).0
unfolding stream_events
stream_events-Changes marshal user id last [] = tt
stream_events-Changes marshal user id last (p ∷ polls) =
    turn-Changes marshal last p.closed (history p.net user (some id) p.platform)
      (λ l. stream_events marshal user id l polls)
      (λ l. stream_events-Changes marshal user id l polls)

module _ (marshal : Submission → Bytes) (last : Bytes) (item : Submission)
    (items : List Submission) where
  -- A turn brings the state that it sees.
  newest-turn_last :
      (closed : Bool)
      → newest last (turn marshal last closed (ok (item ∷ items)) (λ l. ([], none))).0
        ≡ marshal item
  newest-turn_last closed =
      let payload = marshal item in
      let brings : newest last (written last payload) ≡ payload =
        ap (newest last) (sym (append-nil (written last payload)))
        ∙ newest-written last payload [] in
      elim (Bool-cases (is_settled item.status || closed)) [
        | inl ends ↦ rw ends brings
        | inr stays ↦ rw stays (newest-written last payload [])
      ]

  -- Behind an open turn the client has what the later turns bring.
  newest-turn_open :
      (closed : Bool) (rest : Bytes → List Bytes × Option ℕ)
      → (is_settled item.status || closed) ≡ false
      → newest last (turn marshal last closed (ok (item ∷ items)) rest).0
        ≡ newest (marshal item) (rest (marshal item)).0
  newest-turn_open closed rest stays =
      rw stays (newest-written last (marshal item) (rest (marshal item)).0)

newest-stream_events :
    (marshal : Submission → Bytes) (user id : ℕ) (last : Bytes) (before : List Poll) (p : Poll)
    (item : Submission) (items : List Submission)
    → All (IsOpen user id) before
    → history p.net user (some id) p.platform ≡ ok (item ∷ items)
    → newest last (stream_events marshal user id last (before ++ (p ∷ []))).0 ≡ marshal item
unfolding stream_events
newest-stream_events marshal user id last [] p item items h shows =
    ap (λ r. newest last (turn marshal last p.closed r (λ l. ([], none))).0) shows
    ∙ newest-turn_last marshal last item items p.closed
newest-stream_events marshal user id last (q ∷ before) p item items
      ((earlier, others, shown, stays), h) shows =
    let rest = λ (l : Bytes). stream_events marshal user id l (before ++ (p ∷ [])) in
    ap (λ r. newest last (turn marshal last q.closed r rest).0) shown
    ∙ newest-turn_open marshal last earlier others q.closed rest stays
    ∙ newest-stream_events marshal user id (marshal earlier) before p item items h shows

-- While the submission is in work, the client stays and the database answers, the newest payload of
-- the stream after every turn is the state of the submission that this turn has read, a verdict
-- included, and no payload is written twice in a row.
pub stream_delivers :
    (marshal : Submission → Bytes) (user id : ℕ) (last : Bytes) (before : List Poll) (p : Poll)
    (item : Submission) (items : List Submission)
    → All (IsOpen user id) before
    → history p.net user (some id) p.platform ≡ ok (item ∷ items)
    → let payloads = (stream_events marshal user id last (before ++ (p ∷ []))).0 in
      (newest last payloads ≡ marshal item) × Changes last payloads
stream_delivers marshal user id last before p item items h shows = (
  newest-stream_events marshal user id last before p item items h shows,
  stream_events-Changes marshal user id last (before ++ (p ∷ [])),
)
