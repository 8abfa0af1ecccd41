-- ===== src/Auth/Sessions.antt =====
-- services/infra/src/middleware/auth.ts: who sends a request, by a session token or by an API key.
use inspect_element.Prelude.{
  ℕ, ◌+◌, ◌*◌, Bool, true, false, Option, none, some, List, [], ◌∷◌, ◌++◌, ltb, if◌then◌else◌,
}
use inspect_element.Prelude.Texts.{Text, codes, text_eq, to_lower, is_empty, after_prefix}
use inspect_element.Prelude.Results.{Result, ok, err, ◌>>=◌, unavailable, unauthorized, forbidden}
use inspect_element.Prelude.Tables.{single, any}
use inspect_element.Store.Provider.{Provider, sqlite, supabase}

pub data UserRole : Type 0 where
  owner challenger reviewer partner_admin : UserRole

pub data AuthType : Type 0 where
  user partner service : AuthType

pub record AuthInfo : Type 0 where
  pub auth_type : AuthType
  pub address : Option Text
  pub partner_id : Option Text
  pub scopes : List Text
  pub roles : List UserRole

-- Rows of supabase/migrations/00001_initial_schema.sql. Times are milliseconds.
pub record AuthNonce : Type 0 where
  pub nonce : Text
  pub address : Text
  pub expires_at : ℕ
  pub used : Bool

pub record UserSession : Type 0 where
  pub address : Text
  pub token_hash : Text
  pub expires_at : ℕ

pub record Partner : Type 0 where
  pub id : Text
  pub name : Text
  pub api_key_hash : Text
  pub scopes : List Text
  pub active : Bool

pub record AuthDb : Type 0 where
  pub nonces : List AuthNonce
  pub sessions : List UserSession
  pub partners : List Partner

-- The provider, and whether the settings of the Supabase client are there.
pub record Backend : Type 0 where
  pub provider : Provider
  pub configured : Bool

-- The headers that matter, and what an earlier middleware found.
pub record Request : Type 0 where
  pub authorization : Option Text
  pub x_api_key : Option Text
  pub auth : Option AuthInfo

-- `db()`, which throws without its settings.
abbrev pub db {ℓ} : {A : Type ℓ} → Backend → A → Result A
db b value = if b.configured then ok value else err unavailable

abbrev pub by_provider {ℓ} : {A : Type ℓ} → Provider → A → A → A
by_provider sqlite local hosted = local
by_provider supabase local hosted = hosted

abbrev pub first_of {ℓ} : {A : Type ℓ} → Option A → Option A → Option A
first_of (some a) rest = some a
first_of none rest = rest

abbrev pub has_token : Text → UserSession → Bool
has_token hash s = text_eq s.token_hash hash

abbrev pub has_key : Text → Partner → Bool
has_key hash p = text_eq p.api_key_hash hash

abbrev pub user_info : UserSession → AuthInfo
user_info s = record {
  auth_type = user;
  address = some (to_lower s.address);
  partner_id = none;
  scopes = codes "read" ∷ codes "write" ∷ [];
  roles = owner ∷ challenger ∷ [];
}

abbrev pub partner_info : Partner → AuthInfo
partner_info p = record {
  auth_type = partner;
  address = none;
  partner_id = some p.id;
  scopes = p.scopes;
  roles = partner_admin ∷ [];
}

abbrev pub live_session : ℕ → Option UserSession → Option AuthInfo
live_session now none = none
live_session now (some s) = if ltb s.expires_at now then none else some (user_info s)

abbrev pub active_partner : Option Partner → Option AuthInfo
active_partner none = none
active_partner (some p) = if p.active then some (partner_info p) else none

-- What a thrown error leaves of the answer.
abbrev pub caught {ℓ} : {A : Type ℓ} → Result (Option A) → Option A
caught (ok found) = found
caught (err thrown) = none

abbrev type_eq : AuthType → AuthType → Bool
type_eq user user = true
type_eq partner partner = true
type_eq service service = true
type_eq _ _ = false

abbrev allows : List AuthType → AuthType → Bool
allows [] t = true
allows (a ∷ rest) t = any (type_eq t) (a ∷ rest)

abbrev pub admit : List AuthType → Option AuthInfo → Result AuthInfo
admit allowed none = err unauthorized
admit allowed (some a) = if allows allowed a.auth_type then ok a else err forbidden

-- `hash` is the SHA-256 of a token in hexadecimal.
module _ (hash : Text → Text) where
  unfoldable pub verify_session_token : Backend → ℕ → AuthDb → Text → Result (Option AuthInfo)
  verify_session_token b now d token =
      by_provider b.provider (ok none)
        (db b (live_session now (single (has_token (hash token)) d.sessions)))

  unfoldable pub verify_api_key : Backend → AuthDb → Text → Result (Option AuthInfo)
  verify_api_key b d key =
      by_provider b.provider (ok none)
        (db b (active_partner (single (has_key (hash key)) d.partners)))

  unfoldable pub by_token : Backend → ℕ → AuthDb → Option Text → Result (Option AuthInfo)
  by_token b now d none = ok none
  by_token b now d (some header) = elim (after_prefix (codes "Bearer ") header) [
    | none ↦ ok none
    | some token ↦ verify_session_token b now d token
  ]

  unfoldable pub by_api_key : Backend → AuthDb → Option Text → Result (Option AuthInfo)
  by_api_key b d none = ok none
  by_api_key b d (some key) = if is_empty key then ok none else verify_api_key b d key

  unfoldable pub try_authenticate : Backend → ℕ → AuthDb → Request → Result (Option AuthInfo)
  try_authenticate b now d r = elim r.auth [
    | some a ↦ ok (some a)
    | none ↦ by_token b now d r.authorization >>= λ found. elim found [
      | some a ↦ ok (some a)
      | none ↦ by_api_key b d r.x_api_key
    ]
  ]

  -- `optionalAuth`: the request goes on with what was found.
  unfoldable pub optional_auth : Backend → ℕ → AuthDb → Request → Request
  optional_auth b now d r = record r {
    auth = first_of r.auth (caught (try_authenticate b now d r));
  }

  unfoldable pub require_auth : List AuthType → Backend → ℕ → AuthDb → Request → Result AuthInfo
  unfolding any
  require_auth allowed b now d r = admit allowed (optional_auth b now d r).auth

  -- The token is fresh random text; only its hash is kept.
  unfoldable pub create_session : Backend → ℕ → Text → Text → ℕ → AuthDb → Result AuthDb
  create_session b now address token ttl_hours d =
      let row : UserSession = record {
        address = to_lower address;
        token_hash = hash token;
        expires_at = now + ttl_hours * 60 * 60 * 1000;
      } in
      db b (record d { sessions = d.sessions ++ row ∷ [] })

  -- A key that is known already is refused by the table, which the code does not read: the answer
  -- has an empty id then.
  unfoldable pub create_partner_api_key :
      Backend → Text → List Text → Text → Text → AuthDb → Result (AuthDb × Text)
  unfolding any
  create_partner_api_key b name scopes id key d =
      let row : Partner = record {
        id = id;
        name = name;
        api_key_hash = hash key;
        scopes = scopes;
        active = true;
      } in
      db b (
        if any (has_key (hash key)) d.partners
        then (d, [])
        else (record d { partners = d.partners ++ row ∷ [] }, id))

abbrev has_scope : List Text → Text → Bool
has_scope have s = any (text_eq s) have

abbrev all_in : List Text → List Text → Bool
all_in have [] = true
all_in have (s ∷ rest) = if has_scope have s then all_in have rest else false

unfoldable pub require_scope : List Text → Option AuthInfo → Result AuthInfo
unfolding any
require_scope scopes none = err unauthorized
require_scope scopes (some a) = if all_in a.scopes scopes then ok a else err forbidden

abbrev role_eq : UserRole → UserRole → Bool
role_eq owner owner = true
role_eq challenger challenger = true
role_eq reviewer reviewer = true
role_eq partner_admin partner_admin = true
role_eq _ _ = false

unfoldable pub require_role : List UserRole → Option AuthInfo → Result AuthInfo
unfolding any
require_role roles none = err unauthorized
require_role roles (some a) =
    if any (λ r. any (role_eq r) a.roles) roles then ok a else err forbidden
