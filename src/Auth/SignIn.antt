-- ===== src/Auth/SignIn.antt =====
-- services/infra/src/api/auth.ts: a nonce for a wallet, and a session for the message that it signs.
use inspect_element.Prelude.{
  ℕ, ◌+◌, ◌*◌, Bool, true, false, not, ◌&&◌, none, some, List, [], ◌∷◌, ◌++◌, ltb, if◌then◌else◌,
}
use inspect_element.Prelude.Texts.{Text, text_eq, to_lower, is_hex, is_hex_data}
use inspect_element.Prelude.Results.{Result, ok, err, ◌>>=◌, bad_request}
use inspect_element.Prelude.Tables.{select, single, update, any}
use inspect_element.Auth.Sessions.{AuthNonce, AuthDb, Backend, db, by_provider, create_session}

abbrev pub is_nonce : Text → AuthNonce → Bool
is_nonce nonce n = text_eq n.nonce nonce

-- Rows that the clean-up leaves.
abbrev pub keeps : ℕ → Text → AuthNonce → Bool
keeps now address n = not (text_eq n.address address && ltb n.expires_at now)

-- An INSERT that the primary key refuses is dropped.
unfoldable pub insert_nonce : AuthNonce → List AuthNonce → List AuthNonce
unfolding any
insert_nonce row ns = if any (is_nonce row.nonce) ns then ns else ns ++ row ∷ []

-- GET /nonce; `drawn` is the random text.
unfoldable pub get_nonce : Backend → ℕ → Text → Text → AuthDb → Result (AuthDb × Text)
get_nonce b now address drawn d =
    if not (is_hex 40 address)
    then err bad_request
    else let row : AuthNonce = record {
      nonce = drawn;
      address = to_lower address;
      expires_at = now + 10 * 60 * 1000;
      used = false;
    } in
      by_provider b.provider (ok (d, drawn)) (
        db b
          (record d { nonces = insert_nonce row (select (keeps now row.address) d.nonces) }, drawn))

pub record SiweMessage : Type 0 where
  pub address : Text
  pub nonce : Text

pub record VerifyBody : Type 0 where
  pub message : Text
  pub signature : Text

pub record SignedIn : Type 0 where
  pub token : Text
  pub address : Text
  pub expires_at : ℕ

abbrev pub accepts_verify : VerifyBody → Bool
accepts_verify body = is_hex_data body.signature && not (text_eq body.signature (b'0' ∷ b'x' ∷ []))

-- `.eq("nonce", …).eq("address", …).eq("used", false)`
abbrev pub is_open : Text → Text → AuthNonce → Bool
is_open nonce address n = text_eq n.nonce nonce && text_eq n.address address && not n.used

abbrev pub spend : AuthNonce → AuthNonce
spend n = record n { used = true }

abbrev pub or_bad_request {ℓ} : {A : Type ℓ} → Result A → Result A
or_bad_request (ok a) = ok a
or_bad_request (err e) = err bad_request

abbrev pub valid_or_bad : Bool → Result Bool
valid_or_bad valid = if valid then ok valid else err bad_request

-- The SELECT of the nonce, and the checks of its row.
unfoldable pub check_nonce : ℕ → Text → Text → AuthDb → Result (Unit {0})
check_nonce now nonce address d = elim (single (is_open nonce address) d.nonces) [
  | none ↦ err bad_request
  | some row ↦ if ltb row.expires_at now then err bad_request else ok tt
]

-- The UPDATE, which does not ask for `used` once more.
unfoldable pub mark_used : Text → AuthDb → AuthDb
mark_used nonce d = record d { nonces = update (is_nonce nonce) spend d.nonces }

-- Both, where no other request comes between.
unfoldable pub use_nonce : ℕ → Text → Text → AuthDb → Result AuthDb
use_nonce now nonce address d = check_nonce now nonce address d >>= λ _. ok (mark_used nonce d)

-- `hash` is that of the sessions, `parse` the constructor of siwe's `SiweMessage`, and `verify` its
-- method, which may throw or say that the signature is not valid.
module _ (hash : Text → Text) (parse : Text → Result SiweMessage)
    (verify : SiweMessage → Text → Result Bool) where
  -- The handler once its body is accepted, as it runs while no other request is served between its
  -- statements. `token` is the random text of the session, and one reading of the clock serves.
  unfoldable pub sign_in : Backend → ℕ → VerifyBody → Text → AuthDb → Result (AuthDb × SignedIn)
  sign_in b now body token d = parse body.message >>= λ siwe.
      or_bad_request (verify siwe body.signature) >>= λ valid. valid_or_bad valid >>= λ _.
      by_provider b.provider (ok d)
        (db b d >>= λ d. use_nonce now siwe.nonce (to_lower siwe.address) d)
      >>= λ d. create_session hash b now (to_lower siwe.address) token 24 d >>= λ d. ok (
        d,
        record {
          token = token;
          address = to_lower siwe.address;
          expires_at = now + 24 * 60 * 60 * 1000;
        },
      )

  -- POST /verify
  unfoldable pub post_verify : Backend → ℕ → VerifyBody → Text → AuthDb → Result (AuthDb × SignedIn)
  post_verify b now body token d =
      if not (accepts_verify body) then err bad_request else sign_in b now body token d
