-- ===== src/Agents/Runtime/Laws.antt =====
-- About packages/trace/src/runtime-env.ts: the account of the agent in the local mode.
use inspect_element.Prelude.{
  ◌≡◌, refl, sym, ap, subst, false, Option, none, some, Bool-cases, inl, inr,
}
use inspect_element.Prelude.Texts.{Text, codes, is_empty}
use inspect_element.Prelude.Results.{Result, ok, err, ◌>>=◌, internal}
use inspect_element.Agents.Runtime.{
  local, RuntimeEnv, resolve_signer_provider, resolve_agent_salt, owner_key_of, load_runtime_env,
  load_agent_account, runtime_of, load_with,
}
use inspect_element.Agents.Laws.{ok_injective}

module _ (account_address : Text → Result Text) (derive_agent_id : Text → Text → Text)
    (cdp_account : Option Text → Result Text) (checksum : Text → Result Text) where
  -- The part of the environment that the account hangs on.
  abbrev IsLocal : (Text → Option Text) → RuntimeEnv → Text → Type 0
  IsLocal env r a =
      (r.signer_provider ≡ local)
      × (r.account ≡ some a)
      × (r.agent_id ≡ some (derive_agent_id a (resolve_agent_salt env)))

  built-IsLocal :
      (env : Text → Option Text) (r : RuntimeEnv) (key : Option Text) (owner_key : Text)
      (made owned : Result Text)
      → (made >>= (λ a. ok (some a)) >>= λ account. owned >>= λ o. ok (
          runtime_of account_address derive_agent_id cdp_account checksum env local key owner_key
            account o))
        ≡ ok r
      → (a : Text) × (made ≡ ok a) × IsLocal env r a
  built-IsLocal env r key owner_key (err e) owned h = cc
  built-IsLocal env r key owner_key (ok a) (err e) h = cc
  built-IsLocal env r key owner_key (ok a) (ok o) h =
      let whole =
        runtime_of account_address derive_agent_id cdp_account checksum env local key owner_key
          (some a) o in
      let same : whole ≡ r = ok_injective whole r h in
      (
        a,
        refl,
        (
          sym (ap (λ r. r.signer_provider) same),
          sym (ap (λ r. r.account) same),
          sym (ap (λ r. r.agent_id) same),
        ),
      )

  load_with-IsLocal :
      (env : Text → Option Text) (r : RuntimeEnv) (key owner_key : Option Text)
      → load_with account_address derive_agent_id cdp_account checksum env local key owner_key
        ≡ ok r
      → (k : Text) × (a : Text) × (key ≡ some k) × (account_address k ≡ ok a) × IsLocal env r a
  load_with-IsLocal env r none owner_key h = cc
  load_with-IsLocal env r (some k) none h = elim (Bool-cases (is_empty k)) [
    | inl blank ↦ let no : err internal ≡ ok r = rw blank at h in cc
    | inr filled ↦ let no : err internal ≡ ok r = rw filled at h in cc
  ]
  load_with-IsLocal env r (some k) (some owner) h = elim (Bool-cases (is_empty k)) [
    | inl blank ↦ let no : err internal ≡ ok r = rw blank at h in cc
    | inr filled ↦
        let (a, made, as_local) =
          built-IsLocal env r (some k) owner (account_address k) (account_address owner)
            (rw filled at h) in
        (k, a, refl, made, as_local)
  ]

  -- In the local mode, whenever the environment loads, the account of the agent is that of the
  -- operator's key, its id is derived from that account's address and the salt, and nothing is thrown,
  -- provided that no derived id is empty.
  pub load_runtime_env-load_agent_account :
      (env : Text → Option Text) (r : RuntimeEnv)
      → ((a s : Text) → is_empty (derive_agent_id a s) ≡ false)
      → load_runtime_env account_address derive_agent_id cdp_account checksum env ≡ ok r
      → resolve_signer_provider env ≡ local
      → (key : Text) × (a : Text) × (env (codes "OPERATOR_PRIVATE_KEY") ≡ some key)
        × (account_address key ≡ ok a)
        × (load_agent_account account_address derive_agent_id cdp_account checksum r
            ≡ ok (record {
              address = a;
              agent_id = derive_agent_id a (resolve_agent_salt env);
              source = local;
            }))
  unfolding load_agent_account load_runtime_env
  load_runtime_env-load_agent_account env r hashed h mode =
      let (key, a, given, made, (m, account, id)) =
        load_with-IsLocal env r (env (codes "OPERATOR_PRIVATE_KEY")) (owner_key_of env) (
          subst
            (λ p.
              load_with account_address derive_agent_id cdp_account checksum env p
                (env (codes "OPERATOR_PRIVATE_KEY")) (owner_key_of env)
              ≡ ok r)
            mode h) in
      (
        key,
        a,
        given,
        made,
        rw (m, load_agent_account)
            (rw account (rw id (rw (hashed a (resolve_agent_salt env)) refl))),
      )
