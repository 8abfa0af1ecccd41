-- ===== src/Auth/Gates.antt =====
-- About services/infra/src/middleware/auth.ts: who gets through its guards.
use inspect_element.Prelude.{ℕ, ◌≡◌, refl, Option, none, some, [], ◌∷◌, arith, ap, sym, ◌∙◌}
use inspect_element.Prelude.Texts.{Text}
use inspect_element.Prelude.Results.{Result, ok, err, Failure}
use inspect_element.Auth.Sessions.{
  AuthInfo, user, partner, owner, challenger, partner_admin, AuthDb, Backend, Request, caught,
  first_of, verify_session_token, verify_api_key, by_token, by_api_key, try_authenticate,
  optional_auth,
}

of_caught : (m : Result (Option AuthInfo)) {a : AuthInfo} → caught m ≡ some a → m ≡ ok (some a)
of_caught (ok found) h = ap (λ o. ok o) h
of_caught (err e) h = cc

module _ (hash : Text → Text) (b : Backend) (now : ℕ) (d : AuthDb) where
  -- The kinds of identity that credentials can give.
  by_token-user :
      (header : Option Text) (a : AuthInfo)
      → by_token hash b now d header ≡ ok (some a)
      → (a.auth_type ≡ user) × (a.roles ≡ owner ∷ challenger ∷ [])
  unfolding by_token verify_session_token
  by_token-user none a h = cc
  by_token-user (some header) a h = ground arith

  by_api_key-partner :
      (key : Option Text) (a : AuthInfo)
      → by_api_key hash b d key ≡ ok (some a)
      → (a.auth_type ≡ partner) × (a.roles ≡ partner_admin ∷ [])
  unfolding by_api_key verify_api_key
  by_api_key-partner none a h = cc
  by_api_key-partner (some key) a h = ground arith

  -- Where sessions cannot be read, keys cannot either.
  by_token-throws :
      (header key : Option Text) (e : Failure)
      → by_token hash b now d header ≡ err e
      → caught (by_api_key hash b d key) ≡ none
  unfolding by_token by_api_key verify_session_token verify_api_key
  by_token-throws none key e h = cc
  by_token-throws (some header) none e h = refl
  by_token-throws (some header) (some key) e h = ground arith

  abbrev pub session_of : Request → Option AuthInfo
  session_of r = caught (by_token hash b now d r.authorization)

  abbrev pub key_of : Request → Option AuthInfo
  key_of r = caught (by_api_key hash b d r.x_api_key)

  auth_of :
      (r : Request) (found key : Result (Option AuthInfo))
      → r.auth ≡ none
      → found ≡ by_token hash b now d r.authorization
      → key ≡ by_api_key hash b d r.x_api_key
      → (optional_auth hash b now d r).auth ≡ first_of (session_of r) (key_of r)
  unfolding optional_auth try_authenticate
  auth_of r (err e) key fresh is_found is_key =
      ground (arith, by_token-throws r.authorization r.x_api_key e)
  auth_of r (ok none) key fresh is_found is_key = ground arith
  auth_of r (ok (some a)) key fresh is_found is_key = ground arith

  -- A session goes before a key.
  pub optional_auth_lem :
      (r : Request)
      → r.auth ≡ none
      → (optional_auth hash b now d r).auth ≡ first_of (session_of r) (key_of r)
  optional_auth_lem r fresh = auth_of r _ _ fresh refl refl

  again :
      (r : Request) (x : Option AuthInfo)
      → r.auth ≡ none
      → x ≡ first_of (session_of r) (key_of r)
      → (optional_auth hash b now d (record r { auth = x })).auth ≡ x
  unfolding optional_auth
  again r none fresh e = optional_auth_lem (record r { auth = none }) refl ∙ sym e
  again r (some a) fresh e = refl

  -- A second look changes nothing.
  pub optional_auth_idem :
      (r : Request)
      → r.auth ≡ none
      → (optional_auth hash b now d (optional_auth hash b now d r)).auth
        ≡ first_of (session_of r) (key_of r)
  unfolding optional_auth
  optional_auth_idem r fresh =
      let found = optional_auth_lem r fresh in
      again r (optional_auth hash b now d r).auth fresh found ∙ found

  -- What a found identity may be.
  pub session_of-user :
      (r : Request) (a : AuthInfo)
      → session_of r ≡ some a
      → (a.auth_type ≡ user) × (a.roles ≡ owner ∷ challenger ∷ [])
  session_of-user r a h = by_token-user r.authorization a (of_caught _ h)

  pub key_of-partner :
      (r : Request) (a : AuthInfo)
      → key_of r ≡ some a
      → (a.auth_type ≡ partner) × (a.roles ≡ partner_admin ∷ [])
  key_of-partner r a h = by_api_key-partner r.x_api_key a (of_caught _ h)
