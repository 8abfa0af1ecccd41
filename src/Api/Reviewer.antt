-- ===== src/Api/Reviewer.antt =====
-- services/infra/src/api/reviewer.ts: the reviewer's decision on a challenge, signed and, if it is set
-- so, sent; and signReviewerDecision of services/infra/src/signer/index.ts.
pub mod Laws
use inspect_element.Prelude.{
  ℕ, Bool, true, false, ◌&&◌, Option, none, some, List, [], ◌∷◌, if◌then◌else◌, is_some,
}
use inspect_element.Prelude.Texts.{Text}
use inspect_element.Prelude.Integers.{ℤ, big_int}
use inspect_element.Prelude.Results.{Result, ok, err, ◌>>=◌, internal}
use inspect_element.Auth.Sessions.{
  AuthInfo, reviewer, partner_admin, AuthDb, Backend, Request, optional_auth, require_role,
}

-- `z.union([z.string(), z.number()])`; a number is an integer or it is not.
pub data NumberInput : Type 0 where
  text_input : Text → NumberInput
  number_input : ℤ → NumberInput
  fraction_input : NumberInput

abbrev or_syntax : Option ℤ → Result ℤ
or_syntax none = err internal
or_syntax (some n) = ok n

-- `BigInt(v)`, which throws on what is no integer.
unfoldable pub to_bigint : NumberInput → Result ℤ
to_bigint (text_input s) = or_syntax (big_int s)
to_bigint (number_input n) = ok n
to_bigint fraction_input = err internal

pub record ReviewerBody : Type 0 where
  pub challenge_id : NumberInput
  pub uphold : Bool
  pub slash_amount : NumberInput

pub record ReviewerDecision : Type 0 where
  pub challenge_id : ℤ
  pub uphold : Bool
  pub slash_amount : ℤ
  pub challenge_arbiter : Text
  pub chain_id : ℕ

pub record ReviewerSignature : Type 0 where
  pub digest : Text
  pub signature : Text
  pub signer : Text

-- The deployment manifest, as far as it is read here.
pub record Deployment : Type 0 where
  pub challenge_arbiter : Text
  pub chain_id : Option ℕ

-- What the environment sets.
pub record ReviewerEnv : Type 0 where
  pub chain_id : ℕ
  pub reviewer_broadcast : Bool
  pub has_reviewer_key : Bool
  pub deployment : Option Deployment

pub record ReviewerAnswer : Type 0 where
  pub signature : Text
  pub signer : Text
  pub digest : Text
  pub calldata : Text
  pub to : Option Text
  pub chain_id : ℕ
  pub broadcasted : Bool
  pub tx_hash : Option Text

abbrev or_else : Option ℕ → ℕ → ℕ
or_else none fallback = fallback
or_else (some n) fallback = n

-- `resolveReviewerContext`
unfoldable pub resolve_reviewer_context : ReviewerEnv → Result (Text × ℕ)
resolve_reviewer_context env = elim env.deployment [
  | none ↦ err internal
  | some d ↦ ok (d.challenge_arbiter, or_else d.chain_id env.chain_id)
]

abbrev sent_or_none : Result Text → Option Text
sent_or_none (ok hash) = some hash
sent_or_none (err thrown) = none

abbrev arbiter_of : Option Deployment → Option Text
arbiter_of none = none
arbiter_of (some d) = some d.challenge_arbiter

-- The guard of the route: without an identity the request goes on.
unfoldable pub guarded : Option AuthInfo → Result (Option AuthInfo)
guarded none = ok none
guarded (some a) = require_role (reviewer ∷ partner_admin ∷ []) (some a) >>= λ info. ok (some info)

-- `inner_hash` encodes a decision and hashes it, `sign_message` signs with the reviewer's key,
-- `encode` makes the call of resolveByReviewer, and `send` broadcasts it: all are viem's.
module _ (inner_hash : ReviewerDecision → Result Text)
    (sign_message : Text → Result ReviewerSignature)
    (encode : ReviewerDecision → Text → Result Text) (send : Text → Text → Result Text) where
  -- `signReviewerDecision`
  unfoldable pub sign_reviewer_decision : ReviewerEnv → ReviewerDecision → Result ReviewerSignature
  sign_reviewer_decision env decision =
      if env.has_reviewer_key
      then (inner_hash decision >>= λ digest. sign_message digest)
      else err internal

  unfoldable pub broadcast : ReviewerEnv → Text → Option Text
  broadcast env calldata =
      if env.reviewer_broadcast
      then elim env.deployment [
        | none ↦ none
        | some d ↦ sent_or_none (send d.challenge_arbiter calldata)
      ]
      else none

  unfoldable pub resolve : ReviewerEnv → ReviewerBody → Result ReviewerAnswer
  resolve env body = to_bigint body.challenge_id >>= λ challenge_id.
      to_bigint body.slash_amount >>= λ slash_amount.
      (if env.has_reviewer_key then resolve_reviewer_context env else err internal) >>= λ context.
      let decision : ReviewerDecision = record {
        challenge_id = challenge_id;
        uphold = body.uphold;
        slash_amount = slash_amount;
        challenge_arbiter = context.0;
        chain_id = context.1;
      } in
      sign_reviewer_decision env decision >>= λ sig. encode decision sig.signature >>= λ calldata.
      let tx_hash = broadcast env calldata in
      ok (record {
        signature = sig.signature;
        signer = sig.signer;
        digest = sig.digest;
        calldata = calldata;
        to = arbiter_of env.deployment;
        chain_id = env.chain_id;
        broadcasted = is_some tx_hash;
        tx_hash = tx_hash;
      })

  unfoldable pub resolve_route :
      (Text → Text)
      → Backend
      → ℕ
      → AuthDb
      → Request
      → ReviewerEnv
      → ReviewerBody
      → Result ReviewerAnswer
  resolve_route hash b now d r env body =
      guarded (optional_auth hash b now d r).auth >>= λ _. resolve env body
