-- ===== src/Api/Reviewer/Laws.antt =====
-- About services/infra/src/api/reviewer.ts: who gets through the guard of the route.
use inspect_element.Prelude.{
  ℕ, ◌≡◌, refl, Option, none, some, [], ◌∷◌, arith, if◌then◌else◌, is_some,
}
use inspect_element.Prelude.Texts.{Text}
use inspect_element.Prelude.Results.{Result, err, ◌>>=◌, forbidden}
use inspect_element.Prelude.Tables.{any}
use inspect_element.Auth.Sessions.{
  AuthInfo, owner, challenger, partner_admin, AuthDb, Backend, Request, first_of, require_role,
}
use inspect_element.Auth.Gates.{
  session_of, key_of, optional_auth_lem, session_of-user, key_of-partner,
}
use inspect_element.Api.Reviewer.{
  ReviewerDecision, ReviewerSignature, ReviewerEnv, ReviewerBody, ReviewerAnswer, resolve, guarded,
  resolve_route,
}

module _ (inner_hash : ReviewerDecision → Result Text)
    (sign_message : Text → Result ReviewerSignature)
    (encode : ReviewerDecision → Text → Result Text) (send : Text → Text → Result Text) where
  abbrev resolving : ReviewerEnv → ReviewerBody → Result ReviewerAnswer
  resolving = resolve inner_hash sign_message encode send

  guarded-first_of :
      (session key : Option AuthInfo)
      → ((a : AuthInfo) → session ≡ some a → a.roles ≡ owner ∷ challenger ∷ [])
      → ((a : AuthInfo) → key ≡ some a → a.roles ≡ partner_admin ∷ [])
      → (env : ReviewerEnv) (body : ReviewerBody)
      → (guarded (first_of session key) >>= λ _. resolving env body)
        ≡ (if is_some session then err forbidden else resolving env body)
  unfolding guarded require_role any
  guarded-first_of none none users partners env body = refl
  guarded-first_of none (some a) users partners env body = ground (arith, partners a refl)
  guarded-first_of (some a) key users partners env body = ground (arith, users a refl)

  -- A request to the reviewer's route that comes without an identity is refused if it brings a live
  -- session, whoever signed in; any other, with no credentials at all as well, is resolved.
  pub resolve_route-session :
      (hash : Text → Text) (b : Backend) (now : ℕ) (d : AuthDb) (r : Request) (env : ReviewerEnv)
      (body : ReviewerBody)
      → r.auth ≡ none
      → resolve_route inner_hash sign_message encode send hash b now d r env body
        ≡ (if is_some (session_of hash b now d r) then err forbidden else resolving env body)
  unfolding resolve_route
  resolve_route-session hash b now d r env body fresh =
      rw (optional_auth_lem hash b now d r fresh) (
        guarded-first_of (session_of hash b now d r) (key_of hash b now d r)
          (λ a h. (session_of-user hash b now d r a h).1)
          (λ a h. (key_of-partner hash b now d r a h).1) env body)
