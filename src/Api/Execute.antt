-- ===== src/Api/Execute.antt =====
-- services/infra/src/api/execute.ts: a partner asks whether its execution agrees with its trace; and
-- the guard that api/app.ts sets before it.
pub mod Laws
use inspect_element.Prelude.{
  ℕ, ◌/◌, ◌≡◌, Bool, true, false, not, ◌&&◌, ◌||◌, Option, none, some, List, [], ◌∷◌, arith,
  if◌then◌else◌, is_some, Bool-cases, inl, inr,
}
use inspect_element.Prelude.Texts.{
  Text, text_eq, to_lower, is_hex, is_decimal, is_hex_data, is_empty,
}
use inspect_element.Prelude.Results.{Result, ok, err, ◌>>=◌, bad_request, unavailable}
use inspect_element.Store.Provider.{Provider, sqlite, supabase}
use inspect_element.Auth.Sessions.{
  AuthInfo, user, partner, service, AuthDb, Backend, Request, live_session, active_partner,
  by_provider, db, caught, first_of, verify_session_token, verify_api_key, by_token, by_api_key,
  try_authenticate, optional_auth, require_auth,
}

pub record ProposedAction : Type 0 where
  pub target : Text
  pub token : Text
  pub amount : Text

-- The fields of the request that are checked; those of the trace have the types of `TraceSchema`, and
-- only its proposed action is read.
pub record ExecuteBody : Type 0 where
  pub owner : Text
  pub agent_id : Text
  pub target : Text
  pub token : Text
  pub amount : Text
  pub call : Text
  pub proposed_action : ProposedAction

unfoldable pub accepts_execute : ExecuteBody → Bool
accepts_execute b =
    is_hex 40 b.owner
    && is_hex 64 b.agent_id
    && is_hex 40 b.target
    && is_hex 40 b.token
    && is_decimal b.amount
    && is_hex_data b.call

pub data Mismatch : Type 0 where
  trace_target_mismatch trace_amount_mismatch trace_token_mismatch : Mismatch

pub data ExecuteDecision : Type 0 where
  green red : ExecuteDecision

pub data ExecuteStatus : Type 0 where
  accepted rejected : ExecuteStatus

-- `reason_code` is `none` where the answer says NONE.
pub record ExecuteAnswer : Type 0 where
  pub status : ExecuteStatus
  pub decision : ExecuteDecision
  pub reason_code : Option Mismatch
  pub owner : Text
  pub agent_id : Text
  pub target : Text
  pub token : Text
  pub amount : Text
  pub timestamp : ℕ

unfoldable pub mismatch : ExecuteBody → Option Mismatch
mismatch b =
    if not (text_eq (to_lower b.proposed_action.target) (to_lower b.target))
    then some trace_target_mismatch
    else if not (text_eq b.proposed_action.amount b.amount)
    then some trace_amount_mismatch
    else if not (text_eq (to_lower b.proposed_action.token) (to_lower b.token))
    then some trace_token_mismatch
    else none

-- `now` in milliseconds
unfoldable pub execute : ℕ → ExecuteBody → Result ExecuteAnswer
execute now b =
    if not (accepts_execute b)
    then err bad_request
    else let reason = mismatch b in
      ok (record {
        status = if is_some reason then rejected else accepted;
        decision = if is_some reason then red else green;
        reason_code = reason;
        owner = b.owner;
        agent_id = b.agent_id;
        target = b.target;
        token = b.token;
        amount = b.amount;
        timestamp = now / 1000;
      })

-- `app.use(optionalAuth())`, and `requireAuth("partner", "service")` for the route.
unfoldable pub execute_route :
    (Text → Text) → Backend → ℕ → AuthDb → Request → ExecuteBody → Result ExecuteAnswer
execute_route hash b now d r body =
    require_auth hash (partner ∷ service ∷ []) b now d (optional_auth hash b now d r) >>= λ _.
    execute now body

abbrev pub is_accepted : Result ExecuteAnswer → Bool
is_accepted (err thrown) = false
is_accepted (ok a) = elim a.status [ accepted ↦ true | rejected ↦ false ]
