-- ===== src/Api/Execute/Laws.antt =====
-- About services/infra/src/api/execute.ts: who gets an accepted answer, and for which requests.
use inspect_element.Prelude.{
  ℕ, ◌≡◌, refl, not, ◌&&◌, Option, none, some, [], ◌∷◌, arith, is_some, ◌∙◌,
}
use inspect_element.Prelude.Texts.{Text, text_eq, to_lower}
use inspect_element.Prelude.Results.{◌>>=◌}
use inspect_element.Prelude.Tables.{any}
use inspect_element.Auth.Sessions.{
  AuthInfo, user, partner, service, AuthDb, Backend, Request, first_of, admit, require_auth,
}
use inspect_element.Auth.Gates.{
  session_of, key_of, optional_auth_idem, session_of-user, key_of-partner,
}
use inspect_element.Api.Execute.{
  ExecuteBody, accepts_execute, mismatch, execute, execute_route, is_accepted,
}

execute-accepted :
    (now : ℕ) (b : ExecuteBody)
    → is_accepted (execute now b) ≡ (
        accepts_execute b
        && text_eq (to_lower b.proposed_action.target) (to_lower b.target)
        && text_eq b.proposed_action.amount b.amount
        && text_eq (to_lower b.proposed_action.token) (to_lower b.token))
unfolding execute mismatch
execute-accepted now b = ground arith

module _ (hash : Text → Text) (b : Backend) (now : ℕ) (d : AuthDb) (r : Request) where
  admit-key :
      (session key : Option AuthInfo)
      → ((a : AuthInfo) → session ≡ some a → a.auth_type ≡ user)
      → ((a : AuthInfo) → key ≡ some a → a.auth_type ≡ partner)
      → (body : ExecuteBody)
      → is_accepted
          (admit (partner ∷ service ∷ []) (first_of session key) >>= λ _. execute now body)
        ≡ (not (is_some session) && is_some key && is_accepted (execute now body))
  unfolding any
  admit-key none none users partners body = refl
  admit-key none (some a) users partners body = ground (arith, partners a refl)
  admit-key (some a) key users partners body = ground (arith, users a refl)

  -- A request to /v1/execute that comes without an identity is accepted exactly where it brings the
  -- key of an active partner and no live session, has the right form, and agrees with the action of
  -- its trace: in target and token up to letter case, and in amount.
  pub execute_route-accepted :
      (body : ExecuteBody)
      → r.auth ≡ none
      → is_accepted (execute_route hash b now d r body) ≡ (
          not (is_some (session_of hash b now d r))
          && is_some (key_of hash b now d r)
          && accepts_execute body
          && text_eq (to_lower body.proposed_action.target) (to_lower body.target)
          && text_eq body.proposed_action.amount body.amount
          && text_eq (to_lower body.proposed_action.token) (to_lower body.token))
  unfolding execute_route require_auth
  execute_route-accepted body fresh = rw (optional_auth_idem hash b now d r fresh) (
      admit-key (session_of hash b now d r) (key_of hash b now d r)
        (λ a h. (session_of-user hash b now d r a h).0)
        (λ a h. (key_of-partner hash b now d r a h).0) body
      ∙ rw (execute-accepted now body) (ground arith))
