-- ===== src/Api/Handlers.antt =====
-- The handlers of internal/api/api.go for problems and submissions, and its routes.
use online_coding_judge.Prelude.{
  ℕ, Bool, not, List, [], ◌∷◌, Bytes, bytes_eq, text, Option, none, some, map, take, ◌==◌,
  if◌then◌else◌,
}
use online_coding_judge.Errors.{Reply, ok, err, ◌>>◌, guard}
use online_coding_judge.Problems.{Problem, ProblemError, validate, public}
use online_coding_judge.Database.Table.{select, sort_by, update, count}
use online_coding_judge.Database.Transaction.{Net, Clocks, disconnected, settle_with}
use online_coding_judge.Platform.Tables.{ProblemRow, Platform}
use online_coding_judge.Platform.Authoring.{bytes_le, load_problem, save_problem}
use online_coding_judge.Platform.Submitting.{Submission, create_submission, history}
use online_coding_judge.Api.Responses.{
  User, Item, nothing, catalogue, problem, submission, submissions, Response, answer, fail, db_fail,
  Json, decode,
}

abbrev pub item_of : ProblemRow → Item
item_of r = record { id = r.id; title = r.title; slug = r.slug; difficulty = r.difficulty }

abbrev pub is_published : ProblemRow → Bool
is_published r = bytes_eq r.status (text "published")

abbrev pub slug_le : ProblemRow → ProblemRow → Bool
slug_le x y = bytes_le x.slug y.slug

-- GET /v1/problems
unfoldable pub list_problems : Net → Platform → Response
list_problems net t =
    if not (net.call 0)
    then fail 500
    else answer 200
        (catalogue (map item_of (take 100 (sort_by slug_le (select is_published t.problems)))))

abbrev pub show_published : Reply Problem → Response
show_published (err e) = fail 404
show_published (ok p) =
    if bytes_eq p.status (text "published") then answer 200 (problem (public p)) else fail 404

-- GET /v1/problems/:id
unfoldable pub show_problem : Net → ℕ → Platform → Response
show_problem net id t = show_published (load_problem net 0 id t)

pub record Draft : Type 0 where
  pub problem_id : ℕ
  pub language : Bytes
  pub source : Bytes

abbrev pub submission_reply : Reply Submission × Platform → Response × Platform
submission_reply (ok sub, t) = (answer 202 (submission sub), t)
submission_reply (err e, t) = (fail 400, t)

-- The ids that the database generates in a request.
pub record Ids : Type 0 where
  pub row : ℕ
  pub event : ℕ

abbrev pub submit_with : Net → Clocks → Ids → User → Option Draft → Platform → Response × Platform
submit_with net clocks ids user none t = (fail 400, t)
submit_with net clocks ids user (some v) t =
    submission_reply
      (create_submission net clocks ids.row ids.event user.id v.problem_id v.language v.source t)

-- POST /v1/submissions, behind its limiter.
unfoldable pub submit_draft :
    Json Draft → Net → Clocks → Ids → User → Bytes → Platform → Response × Platform
submit_draft json net clocks ids user body t =
    submit_with net clocks ids user (decode json 400000 body) t

abbrev pub show_first : Reply (List Submission) → Response
show_first (err e) = fail 500
show_first (ok []) = fail 404
show_first (ok (sub ∷ subs)) = answer 200 (submission sub)

abbrev pub show_all : Reply (List Submission) → Response
show_all (err e) = fail 500
show_all (ok subs) = answer 200 (submissions subs)

-- `history` for one submission and for all of the user.
unfoldable pub show_submission : Net → User → ℕ → Platform → Response
show_submission net user id t = show_first (history net user.id (some id) t)

unfoldable pub list_submissions : Net → User → Platform → Response
list_submissions net user t = show_all (history net user.id none t)

abbrev pub problem_reply : ℕ → Reply Problem × Platform → Response × Platform
problem_reply status (ok p, t) = (answer status (problem p), t)
problem_reply status (err e, t) = (db_fail e, t)

abbrev pub created_or_saved : Option ℕ → ℕ
created_or_saved none = 201
created_or_saved (some id) = 200

abbrev pub save_valid : Net → ℕ → Problem → Option ProblemError → Platform → Response × Platform
save_valid net n p (some e) t = (fail 400, t)
save_valid net n p none t = problem_reply (created_or_saved p.id) (save_problem net n p t)

abbrev pub save_with : Net → ℕ → Option ℕ → Option Problem → Platform → Response × Platform
save_with net n id none t = (fail 400, t)
save_with net n id (some p) t = let q = record p { id = id } in save_valid net n q (validate q) t

-- `save`: POST /v1/admin/problems where the path has no id, PUT /v1/admin/problems/:id where it has one.
unfoldable pub save : Json Problem → Net → ℕ → Option ℕ → Bytes → Platform → Response × Platform
save json net n id body t = save_with net n id (decode json 7000000 body) t

abbrev pub show_any : Reply Problem → Response
show_any (err e) = fail 404
show_any (ok p) = answer 200 (problem p)

-- GET /v1/admin/problems/:id
unfoldable pub inspect_problem : Net → ℕ → Platform → Response
inspect_problem net id t = show_any (load_problem net 0 id t)

abbrev pub is_problem : ℕ → ProblemRow → Bool
is_problem id r = r.id == id

abbrev pub disable_reply : ℕ → Reply (Unit {0}) × Platform → Response × Platform
disable_reply n (err e, t) = (fail 404, t)
disable_reply n (ok x, t) = (if n == 0 then fail 404 else answer 204 nothing, t)

unfoldable pub disable_row : Net → ℕ → Platform → Reply (Unit {0} × Platform)
disable_row net id t = do
  guard (net.call 0) disconnected
  ok (
    tt,
    record t {
      problems = update (is_problem id) (λ r. record r { status = text "disabled" }) t.problems;
    },
  )

-- DELETE /v1/admin/problems/:id
unfoldable pub disable_problem : Net → ℕ → Platform → Response × Platform
disable_problem net id t =
    disable_reply (count (is_problem id) t.problems) (settle_with net t (disable_row net id t))
