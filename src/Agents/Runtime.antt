-- ===== src/Agents/Runtime.antt =====
-- packages/trace/src/runtime-env.ts, and loadAgentEnv of agents/shared.ts: who signs for the agent.
-- The two ports, which no agent reads, are left out.
pub mod Laws
use inspect_element.Prelude.{
  Bool, true, false, not, ◌&&◌, ◌||◌, Option, none, some, List, [], ◌∷◌, if◌then◌else◌,
}
use inspect_element.Prelude.Texts.{Text, codes, text_eq, to_lower, is_empty}
use inspect_element.Prelude.Results.{Result, ok, err, ◌>>=◌, internal}
use inspect_element.Agents.Flow.{AgentEnv}

pub data AgentSignerProvider : Type 0 where
  cdp : AgentSignerProvider
  local : AgentSignerProvider

pub record RuntimeEnv : Type 0 where
  pub operator_key : Option Text
  pub owner_key : Text
  -- the address of the account
  pub account : Option Text
  pub owner_account : Text
  pub agent_salt : Text
  pub agent_id : Option Text
  pub rpc_url : Text
  pub trace_service_url : Text
  pub agent_metadata_uri : Text
  pub merchant_address : Text
  pub signer_provider : AgentSignerProvider
  pub cdp_account_name : Option Text

pub record AgentAccountResolution : Type 0 where
  pub address : Text
  pub agent_id : Text
  pub source : AgentSignerProvider

-- `value ?? fallback`
abbrev pub or_default : Option Text → Text → Text
or_default none fallback = fallback
or_default (some s) fallback = s

-- A variable that is set, and not empty.
abbrev pub is_given : Option Text → Bool
is_given none = false
is_given (some s) = not (is_empty s)

abbrev pub is_variable : Text → Option Text → Bool
is_variable t none = false
is_variable t (some s) = text_eq s t

unfoldable pub resolve_runtime_rpc_url : (Text → Option Text) → Text
resolve_runtime_rpc_url env =
    or_default (env (codes "RPC_URL"))
      (or_default (env (codes "BASE_SEPOLIA_RPC_URL")) (codes "https://sepolia.base.org"))

unfoldable pub resolve_trace_service_url : (Text → Option Text) → Text
resolve_trace_service_url env =
    or_default (env (codes "TRACE_SERVICE_URL")) (codes "http://localhost:7403")

unfoldable pub resolve_agent_salt : (Text → Option Text) → Text
resolve_agent_salt env = or_default (env (codes "AGENT_SALT")) (codes "intentguard-demo-agent-v1")

unfoldable pub resolve_agent_metadata_uri : (Text → Option Text) → Text
resolve_agent_metadata_uri env =
    or_default (env (codes "AGENT_METADATA_URI")) (codes "ipfs://stub/agent-metadata")

unfoldable pub resolve_merchant_address : (Text → Option Text) → Text
resolve_merchant_address env =
    or_default (env (codes "MERCHANT_ADDRESS")) (codes "0x0000000000000000000000000000000000000a01")

abbrev has_cdp_creds : (Text → Option Text) → Bool
has_cdp_creds env =
    is_given (env (codes "CDP_API_KEY_ID"))
    && is_given (env (codes "CDP_API_KEY_SECRET"))
    && is_given (env (codes "CDP_WALLET_SECRET"))

abbrev by_creds : (Text → Option Text) → AgentSignerProvider
by_creds env = if has_cdp_creds env then cdp else local

unfoldable pub resolve_signer_provider : (Text → Option Text) → AgentSignerProvider
resolve_signer_provider env = elim (env (codes "AGENT_SIGNER")) [
  | none ↦ by_creds env
  | some explicit ↦
      if text_eq (to_lower explicit) (codes "cdp")
      then cdp
      else if text_eq (to_lower explicit) (codes "local")
      then local
      else by_creds env
]

abbrev pub is_local : AgentSignerProvider → Bool
is_local local = true
is_local cdp = false

abbrev default_demo_owner_key : Text
default_demo_owner_key = codes "0x59c6995e998f97a5a0044966f0945382d7d6d3f6aa3dbe8b6f2a68d4d5f7d9e7"

-- The key of the owner, if it is not missing or empty.
unfoldable pub owner_key_of : (Text → Option Text) → Option Text
owner_key_of env = elim (env (codes "OWNER_PRIVATE_KEY")) [
  | none ↦
      if is_variable (codes "31337") (env (codes "CHAIN_ID"))
      then some default_demo_owner_key
      else none
  | some key ↦ if is_empty key then none else some key
]

-- `account_address` is viem's privateKeyToAccount, by the address of the account; `derive_agent_id`
-- hashes an address and a salt; `cdp_account` loads the named account of the Coinbase wallet;
-- `checksum` is viem's getAddress.
module _ (account_address : Text → Result Text) (derive_agent_id : Text → Text → Text)
    (cdp_account : Option Text → Result Text) (checksum : Text → Result Text) where
  -- The account of the operator, in the local mode.
  abbrev pub operator_account : AgentSignerProvider → Option Text → Result (Option Text)
  operator_account cdp key = ok none
  operator_account local none = ok none
  operator_account local (some key) =
      if is_empty key then ok none else account_address key >>= λ address. ok (some address)

  -- What is returned at the end.
  abbrev pub runtime_of :
      (Text → Option Text)
      → AgentSignerProvider
      → Option Text
      → Text
      → Option Text
      → Text
      → RuntimeEnv
  runtime_of env signer_provider operator_key owner_key account owner_account = record {
    operator_key = operator_key;
    owner_key = owner_key;
    account = account;
    owner_account = owner_account;
    agent_salt = resolve_agent_salt env;
    agent_id = elim account [
      | none ↦ none
      | some a ↦ some (derive_agent_id a (resolve_agent_salt env))
    ];
    rpc_url = resolve_runtime_rpc_url env;
    trace_service_url = resolve_trace_service_url env;
    agent_metadata_uri = resolve_agent_metadata_uri env;
    merchant_address = resolve_merchant_address env;
    signer_provider = signer_provider;
    cdp_account_name = env (codes "CDP_AGENT_ACCOUNT_NAME");
  }

  -- The rest, from the provider, the key of the operator and that of the owner.
  abbrev pub load_with :
      (Text → Option Text) → AgentSignerProvider → Option Text → Option Text → Result RuntimeEnv
  load_with env signer_provider operator_key owner_key =
      if is_local signer_provider && not (is_given operator_key)
      then err internal
      else elim owner_key [
        | none ↦ err internal
        | some owner_key ↦ operator_account signer_provider operator_key >>= λ account.
            account_address owner_key >>= λ owner_account.
            ok (runtime_of env signer_provider operator_key owner_key account owner_account)
      ]

  unfoldable pub load_runtime_env : (Text → Option Text) → Result RuntimeEnv
  load_runtime_env env =
      load_with env (resolve_signer_provider env) (env (codes "OPERATOR_PRIVATE_KEY"))
        (owner_key_of env)

  abbrev local_account : Option Text → Option Text → Result AgentAccountResolution
  local_account (some a) (some i) =
      if is_empty i then err internal else ok (record { address = a; agent_id = i; source = local })
  local_account _ _ = err internal

  unfoldable pub load_agent_account : RuntimeEnv → Result AgentAccountResolution
  load_agent_account r =
      if is_local r.signer_provider
      then local_account r.account r.agent_id
      else cdp_account r.cdp_account_name >>= λ a.
          ok (record { address = a; agent_id = derive_agent_id a r.agent_salt; source = cdp })

  unfoldable pub load_agent_env : (Text → Option Text) → Option Text → Result AgentEnv
  load_agent_env env owner_address_override = load_runtime_env env >>= λ r.
      load_agent_account r >>= λ a.
      (if is_given owner_address_override
        then checksum (or_default owner_address_override [])
        else ok r.owner_account)
      >>= λ owner. ok (record { owner_address = owner; agent_id = a.agent_id })
