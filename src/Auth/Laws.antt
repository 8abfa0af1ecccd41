-- ===== src/Auth/Laws.antt =====
-- About services/infra/src/middleware/auth.ts and api/auth.ts: the life of a session, and who gets
-- through to the guarded routes.
use inspect_element.Prelude.{
  sym, ℕ, ◌+◌, ◌*◌, ◌≡◌, refl, ap, ◌∙◌, Bool, true, false, not, none, some, List, [], ◌∷◌, ◌++◌,
  arith, ltb, if◌then◌else◌,
}
use inspect_element.Prelude.Texts.{Text, codes, to_lower, to_lower_idem, after_prefix, text_eq_refl}
use inspect_element.Prelude.Results.{Failure, Result, ok, err, ◌>>=◌, split_bind, bad_request}
use inspect_element.Prelude.Tables.{select, single}
use inspect_element.Store.Provider.{Provider, sqlite, supabase}
use inspect_element.Auth.Sessions.{
  UserSession, AuthDb, Backend, Request, db, by_provider, has_token, user_info,
  verify_session_token, by_token, by_api_key, try_authenticate, optional_auth, create_session,
}
use inspect_element.Auth.SignIn.{
  SiweMessage, VerifyBody, SignedIn, accepts_verify, check_nonce, mark_used, use_nonce, sign_in,
  post_verify, or_bad_request, valid_or_bad,
}

select-append {ℓ} :
    {A : Type ℓ} (p : A → Bool) (xs : List A) (row : A)
    → select p xs ≡ []
    → p row ≡ true
    → select p (xs ++ row ∷ []) ≡ row ∷ []
unfolding select
select-append p [] row none_yet fits = ground (arith, fits)
select-append p (x ∷ xs) row none_yet fits = ground (arith, fits, select-append p xs row)

after_prefix-append : (p s : Text) → after_prefix p (p ++ s) ≡ some s
unfolding after_prefix
after_prefix-append [] s = refl
after_prefix-append (a ∷ p) s = ground (arith, after_prefix-append p s)

pub use_nonce-sessions :
    (now : ℕ) (nonce address : Text) (d d' : AuthDb)
    → use_nonce now nonce address d ≡ ok d'
    → d'.sessions ≡ d.sessions
unfolding use_nonce mark_used
use_nonce-sessions now nonce address d d' h =
    let (checked, _, whole) = split_bind (check_nonce now nonce address d) _ h in
    let same : mark_used nonce d ≡ d' = ground arith in ap (λ d. d.sessions) (sym same)

not_refused {ℓ} :
    {A : Type ℓ} (accepted : Bool) (thrown : Failure) (rest : Result A) {a : A}
    → (if not accepted then err thrown else rest) ≡ ok a
    → rest ≡ ok a
not_refused true thrown rest h = h
not_refused false thrown rest h = cc

-- The tables once a session has been with_session.
abbrev pub with_session : (Text → Text) → ℕ → Text → Text → ℕ → AuthDb → AuthDb
with_session hash now address token ttl d = record d {
  sessions =
      d.sessions
      ++ (record {
        address = to_lower address;
        token_hash = hash token;
        expires_at = now + ttl * 60 * 60 * 1000;
      })
        ∷ [];
}

pub create_session-ok :
    (hash : Text → Text) (b : Backend) (now : ℕ) (address token : Text) (ttl : ℕ) (d d' : AuthDb)
    → create_session hash b now address token ttl d ≡ ok d'
    → (b.configured ≡ true) × (d' ≡ with_session hash now address token ttl d)
unfolding create_session
create_session-ok hash b now address token ttl d d' h = ground arith

-- The request that brings a token and nothing else.
abbrev pub bearer : Text → Request
bearer token = record {
  authorization = some (codes "Bearer " ++ token);
  x_api_key = none;
  auth = none;
}

module _ (hash : Text → Text) (parse : Text → Result SiweMessage)
    (verify : SiweMessage → Text → Result Bool) where
  -- What has been checked, and the tables between, when a verification succeeds.
  pub post_verify-ok :
      (b : Backend) (now : ℕ) (body : VerifyBody) (token : Text) (d d' : AuthDb) (s : SignedIn)
      → post_verify hash parse verify b now body token d ≡ ok (d', s)
      → (siwe : SiweMessage) × (between : AuthDb) × (parse body.message ≡ ok siwe)
        × (by_provider b.provider
              (ok d)
              (db b d >>= λ d. use_nonce now siwe.nonce (to_lower siwe.address) d)
            ≡ ok between)
        × (b.configured ≡ true)
        × (d' ≡ with_session hash now (to_lower siwe.address) token 24 between)
        × (s ≡ record {
          token = token;
          address = to_lower siwe.address;
          expires_at = now + 24 * 60 * 60 * 1000;
        })
  unfolding post_verify sign_in
  post_verify-ok b now body token d d' s h =
      let rest = sign_in hash parse verify b now body token d in
      let accepted = not_refused (accepts_verify body) bad_request rest h in
      let (siwe, parsed, h1) = split_bind (parse body.message) _ accepted in
      let (valid, _, h2) = split_bind (or_bad_request (verify siwe body.signature)) _ h1 in
      let (_, _, h3) = split_bind (valid_or_bad valid) _ h2 in
      let (between, used, h4) = split_bind (by_provider b.provider _ _) _ h3 in
      let (after, made, h5) = split_bind (create_session hash b now _ token 24 between) _ h4 in
      let (configured, tables) = create_session-ok hash b now _ token 24 between after made in
      (siwe, between, parsed, used, configured, cc, cc)

  between-sessions :
      (p : Provider) (b : Backend) (now : ℕ) (nonce address : Text) (d between : AuthDb)
      → by_provider p (ok d) (db b d >>= λ d. use_nonce now nonce address d) ≡ ok between
      → between.sessions ≡ d.sessions
  between-sessions sqlite b now nonce address d between h = cc
  between-sessions supabase b now nonce address d between h =
      let (same, is_same, used) = split_bind (db b d) _ h in
      use_nonce-sessions now nonce address same between used
      ∙ (let e : same ≡ d = ground arith in ap (λ (t : AuthDb). t.sessions) e)

  by_token-verify :
      (b : Backend) (now : ℕ) (d : AuthDb) (header token : Text)
      → after_prefix (codes "Bearer ") header ≡ some token
      → by_token hash b now d (some header) ≡ verify_session_token hash b now d token
  unfolding by_token
  by_token-verify b now d header token h = ground arith

  bearer-auth :
      (b : Backend) (now : ℕ) (d : AuthDb) (token : Text) (row : UserSession)
      → b.provider ≡ supabase
      → b.configured ≡ true
      → single (has_token (hash token)) d.sessions ≡ some row
      → (optional_auth hash b now d (bearer token)).auth
        ≡ (if ltb row.expires_at now then none else some (user_info row))
  unfolding optional_auth try_authenticate by_api_key verify_session_token
  bearer-auth b now d token row hosted configured found =
      let e = after_prefix-append (codes "Bearer ") token in
      ground (arith, by_token-verify b now d (codes "Bearer " ++ token) token e)

  with_session-auth :
      (b : Backend) (now later : ℕ) (address token : Text) (d between d' : AuthDb) (s : SignedIn)
      → b.provider ≡ supabase
      → b.configured ≡ true
      → select (has_token (hash token)) d.sessions ≡ []
      → between.sessions ≡ d.sessions
      → d' ≡ with_session hash now (to_lower address) token 24 between
      → s ≡ record {
        token = token;
        address = to_lower address;
        expires_at = now + 24 * 60 * 60 * 1000;
      }
      → (optional_auth hash b later d' (bearer token)).auth ≡ (
          if ltb (now + 86400000) later
          then none
          else some (
              user_info (record {
                address = s.address;
                token_hash = hash token;
                expires_at = s.expires_at;
              })))
  unfolding single
  with_session-auth b now later address token d between d' s hosted configured fresh same tables
        answer =
      let row : UserSession = record {
        address = to_lower (to_lower address);
        token_hash = hash token;
        expires_at = now + 86400000;
      } in
      let alone : select (has_token (hash token)) (between.sessions ++ row ∷ []) ≡ row ∷ [] =
        rw same (select-append _ d.sessions row fresh (text_eq_refl (hash token))) in
      let after = with_session hash now (to_lower address) token 24 between in
      rw (tables, answer)
        (bearer-auth b later after token row hosted configured (rw alone)
          ∙ rw (to_lower_idem address) (rw (to_lower_idem address) refl))

  -- Under Supabase the token of a sign-in whose hash was not in use names the wallet that signed in,
  -- as a user, until the session expires a day later, and nobody after.
  pub post_verify-optional_auth :
      (b : Backend) (now later : ℕ) (body : VerifyBody) (token : Text) (d d' : AuthDb)
      (s : SignedIn)
      → b.provider ≡ supabase
      → select (has_token (hash token)) d.sessions ≡ []
      → post_verify hash parse verify b now body token d ≡ ok (d', s)
      → (optional_auth hash b later d' (bearer token)).auth ≡ (
          if ltb (now + 86400000) later
          then none
          else some (
              user_info (record {
                address = s.address;
                token_hash = hash token;
                expires_at = s.expires_at;
              })))
  post_verify-optional_auth b now later body token d d' s hosted fresh h =
      let (siwe, between, _, used, configured, tables, answer) =
        post_verify-ok b now body token d d' s h in
      let same = between-sessions b.provider b now siwe.nonce _ d between used in
      with_session-auth b now later siwe.address token d between d' s hosted configured fresh same
        tables answer
