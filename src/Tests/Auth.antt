-- ===== src/Tests/Auth.antt =====
-- Sign-in, sessions and the guards of the routes, for a wallet that signs in with one nonce.
use inspect_element.Prelude.{◌≡◌, refl, Bool, true, false, none, some, [], ◌∷◌}
use inspect_element.Prelude.Texts.{
  Text, codes, text_eq, to_lower, is_hex_data, is_hex, after_prefix, is_decimal,
}
use inspect_element.Prelude.Integers.{pos}
use inspect_element.Prelude.Results.{Result, ok, err, bad_request, forbidden}
use inspect_element.Prelude.Tables.{single, select, update, any}
use inspect_element.Store.Provider.{supabase}
use inspect_element.Auth.Sessions.{
  AuthNonce, UserSession, AuthDb, Backend, Request, user_info, verify_session_token, by_token,
  by_api_key, optional_auth, create_session, create_partner_api_key, verify_api_key,
}
use inspect_element.Auth.SignIn.{
  SiweMessage, VerifyBody, SignedIn, get_nonce, insert_nonce, use_nonce, check_nonce, mark_used,
  sign_in, post_verify,
}
use inspect_element.Auth.Laws.{bearer, post_verify-optional_auth}
use inspect_element.Auth.Replay.{cleans, draws, marks, opens, run_all, post_verify_once}
use inspect_element.Api.Execute.{ExecuteBody, accepts_execute, execute_route, is_accepted}
use inspect_element.Api.Execute.Laws.{execute_route-accepted}
use inspect_element.Api.Reviewer.{
  number_input, ReviewerBody, ReviewerDecision, ReviewerSignature, ReviewerEnv, resolve_route,
}
use inspect_element.Api.Reviewer.Laws.{resolve_route-session}
use inspect_element.Tests.Api.{hex}

abbrev hash : Text → Text
hash t = b'h' ∷ t

abbrev parse : Text → Result SiweMessage
parse m = ok (record { address = codes "0xAB"; nonce = m })

abbrev verify : SiweMessage → Text → Result Bool
verify m signature = ok true

abbrev hosted : Backend
hosted = record { provider = supabase; configured = true }

abbrev before : AuthDb
before = record {
  nonces =
      record { nonce = codes "n1"; address = codes "0xab"; expires_at = 9000; used = false } ∷ [];
  sessions = [];
  partners =
      record {
        id = codes "p";
        name = codes "P";
        api_key_hash = codes "hkey";
        scopes = [];
        active = true;
      }
      ∷ [];
}

abbrev after : AuthDb
after = record before {
  nonces =
      record { nonce = codes "n1"; address = codes "0xab"; expires_at = 9000; used = true } ∷ [];
  sessions =
      record { address = codes "0xab"; token_hash = codes "htok"; expires_at = 86405000 } ∷ [];
}

abbrev body : VerifyBody
body = record { message = codes "n1"; signature = codes "0x1f" }

abbrev signed_in : SignedIn
signed_in = record { token = codes "tok"; address = codes "0xab"; expires_at = 86405000 }

post_verify_runs :
    post_verify hash parse verify hosted 5000 body (codes "tok") before ≡ ok (after, signed_in)
unfolding post_verify sign_in use_nonce check_nonce mark_used create_session single select update
    text_eq to_lower is_hex_data
post_verify_runs = refl

post_verify-optional_auth_example :
    (optional_auth hash hosted 86405000 after (bearer (codes "tok"))).auth
    ≡ some (
        user_info
          (record { address = codes "0xab"; token_hash = codes "htok"; expires_at = 86405000 }))
unfolding select
post_verify-optional_auth_example =
    post_verify-optional_auth hash parse verify hosted 5000 86405000 body (codes "tok") before after
      signed_in refl refl post_verify_runs

abbrev fresh_nonce : AuthNonce
fresh_nonce = record { nonce = codes "n2"; address = codes "0xcd"; expires_at = 9000; used = false }

post_verify_once_example :
    post_verify hash parse verify hosted 6000 body
      (codes "tok2")
      (run_all (marks (codes "n1") ∷ cleans 5500 (codes "0xcd") ∷ draws fresh_nonce ∷ []) before)
    ≡ err bad_request
unfolding text_eq
post_verify_once_example =
    post_verify_once hash parse verify hosted 6000 body (codes "tok2")
      (record { address = codes "0xAB"; nonce = codes "n1" }) before
      (cleans 5500 (codes "0xcd") ∷ draws fresh_nonce ∷ []) refl refl refl (tt, (refl, tt))

abbrev session_row : Text → UserSession
session_row token = record { address = codes "0xab"; token_hash = token; expires_at = 86405000 }

-- Two verifications with one nonce that both read its row before either marks it: both pass the
-- check, and there are two sessions.
overlap_passes_twice :
    (check_nonce 5000 (codes "n1") (codes "0xab") before ≡ ok tt)
    × ((run_all
          (marks (codes "n1")
            ∷ marks (codes "n1")
            ∷ opens (session_row (codes "a"))
            ∷ opens (session_row (codes "b"))
            ∷ [])
          before).sessions
        ≡ session_row (codes "a") ∷ session_row (codes "b") ∷ [])
unfolding check_nonce run_all single select text_eq mark_used
overlap_passes_twice = (refl, refl)

get_nonce_runs :
    get_nonce hosted 10000 (hex 40 b'a') (codes "n2") before
    ≡ ok (
      record before {
        nonces =
            record { nonce = codes "n1"; address = codes "0xab"; expires_at = 9000; used = false }
            ∷ record {
              nonce = codes "n2";
              address = hex 40 b'a';
              expires_at = 610000;
              used = false;
            }
            ∷ [];
      },
      codes "n2",
    )
unfolding get_nonce insert_nonce select any is_hex to_lower text_eq
get_nonce_runs = refl

abbrev partner_request : Request
partner_request = record { authorization = none; x_api_key = some (codes "key"); auth = none }

abbrev execute_body : ExecuteBody
execute_body = record {
  owner = hex 40 b'1';
  agent_id = hex 64 b'2';
  target = hex 40 b'a';
  token = hex 40 b'3';
  amount = codes "15";
  call = codes "0x";
  proposed_action = record { target = hex 40 b'A'; token = hex 40 b'3'; amount = codes "15" };
}

execute_route-accepted_example :
    is_accepted (execute_route hash hosted 5000 before partner_request execute_body) ≡ true
unfolding by_token by_api_key verify_api_key single select text_eq to_lower accepts_execute is_hex
    is_decimal is_hex_data
execute_route-accepted_example =
    execute_route-accepted hash hosted 5000 before partner_request execute_body refl

create_partner_api_key_again :
    create_partner_api_key hash hosted (codes "Q") [] (codes "q") (codes "key") before
    ≡ ok (before, [])
unfolding create_partner_api_key any text_eq
create_partner_api_key_again = refl

abbrev inner_hash : ReviewerDecision → Result Text
inner_hash d = ok (codes "d")

abbrev sign_message : Text → Result ReviewerSignature
sign_message digest = ok (record { digest = digest; signature = codes "s"; signer = codes "r" })

abbrev encode_call : ReviewerDecision → Text → Result Text
encode_call d signature = ok signature

abbrev send : Text → Text → Result Text
send to calldata = ok (codes "t")

abbrev reviewer_env : ReviewerEnv
reviewer_env = record {
  chain_id = 84532;
  reviewer_broadcast = true;
  has_reviewer_key = true;
  deployment = some (record { challenge_arbiter = codes "0xc"; chain_id = none });
}

abbrev reviewer_body : ReviewerBody
reviewer_body = record {
  challenge_id = number_input (pos 7);
  uphold = true;
  slash_amount = number_input (pos 100);
}

resolve_route-session_example :
    resolve_route inner_hash sign_message encode_call send hash hosted 6000 after
      (bearer (codes "tok"))
      reviewer_env
      reviewer_body
    ≡ err forbidden
unfolding by_token verify_session_token after_prefix single select text_eq
resolve_route-session_example =
    resolve_route-session inner_hash sign_message encode_call send hash hosted 6000 after
      (bearer (codes "tok")) reviewer_env reviewer_body refl
