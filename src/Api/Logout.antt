-- ===== src/Api/Logout.antt =====
-- A token opens nothing after the logout.
use online_coding_judge.Prelude.{
  not, List, [], ◌∷◌, Bytes, none, ◌≡◌, refl, sym, ◌∙◌, ap, subst, arith,
}
use online_coding_judge.Errors.{Reply, ok, err}
use online_coding_judge.Database.Table.{select}
use online_coding_judge.Database.Transaction.{Net, Clocks, settle_with, settle_with_ok}
use online_coding_judge.Platform.Tables.{SessionRow, Platform}
use online_coding_judge.Auth.{Crypto, digest}
use online_coding_judge.Api.Accounts.{
  first, has_token_hash, bearer, is_open_session, owner_of, option_user, authenticate,
  without_session, drop_session, delete_reply, logout,
}

module _ (crypto : Crypto) where
  delete_ok :
      (r : Reply (Unit {0}) × Platform)
      → (delete_reply r).0.status ≡ 204
      → ((x : Unit {0}) × (r.0 ≡ ok x)) × ((delete_reply r).1 ≡ r.1)
  delete_ok (ok x, t) h = ((x, refl), refl)
  delete_ok (err e, t) h = absurd (ground (arith, h))

  dropped_rows :
      (net : Net) (hash : Bytes) (t t' : Platform) (x : Unit {0})
      → drop_session net hash t ≡ ok (x, t')
      → without_session hash t ≡ t'
  unfolding drop_session
  dropped_rows net hash t t' x e = ground (arith, e)

  none_left :
      (clocks : Clocks) (hash : Bytes) (rows : List SessionRow)
      → select
          (is_open_session clocks hash)
          (select (λ (s : SessionRow). not (has_token_hash hash s)) rows)
        ≡ []
  unfolding select
  none_left clocks hash [] = refl
  none_left clocks hash (s ∷ rows) = ground (arith, none_left clocks hash rows)

  guard_refuses :
      (net : Net) (clocks : Clocks) (header : Bytes) (t : Platform)
      → select (is_open_session clocks (digest crypto (bearer header))) t.sessions ≡ []
      → authenticate crypto net clocks header t ≡ none
  unfolding authenticate first
  guard_refuses net clocks header t none_found =
      let refused : option_user (
            owner_of t.users
              (first (select (is_open_session clocks (digest crypto (bearer header))) t.sessions)))
          ≡ none =
        ap (λ l. option_user (owner_of t.users (first l))) none_found in
      ground (arith, refused)

  -- In the tables that a logout leaves which succeeds, no request with its token passes the guard.
  pub authenticate-logout :
      (net net' : Net) (clocks : Clocks) (header : Bytes) (t : Platform)
      → (logout crypto net header t).0.status ≡ 204
      → authenticate crypto net' clocks header (logout crypto net header t).1 ≡ none
  unfolding logout
  authenticate-logout net net' clocks header t h =
      let hash = digest crypto (bearer header) in
      let ((x, gives), keeps) = delete_ok (settle_with net t (drop_session net hash t)) h in
      let (t1, done, at) = settle_with_ok net t (drop_session net hash t) x gives in
      subst (λ y. authenticate crypto net' clocks header y ≡ none)
        (sym (keeps ∙ at ∙ sym (dropped_rows net hash t t1 x done)))
        (guard_refuses net' clocks header (without_session hash t)
          (none_left clocks hash t.sessions))
