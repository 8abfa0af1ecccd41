-- ===== src/Auth/Replay.antt =====
-- About services/infra/src/api/auth.ts: what the UPDATE of a nonce rules out. The statements of a
-- request are apart here, as the requests that the service runs interleave between them.
use inspect_element.Prelude.{
  ℕ, ◌+◌, ◌≡◌, refl, sym, ap, ◌∙◌, ◌*◌, subst, Bool, true, false, not, ◌&&◌, List, [], ◌∷◌, ◌++◌,
  arith, All,
}
use inspect_element.Prelude.Texts.{Text, text_eq, to_lower}
use inspect_element.Prelude.Results.{Result, ok, err, ◌>>=◌, split_bind, bad_request}
use inspect_element.Prelude.Tables.{select, single, update, any}
use inspect_element.Store.Provider.{supabase}
use inspect_element.Auth.Sessions.{AuthNonce, AuthDb, UserSession, Backend, db, by_provider}
use inspect_element.Auth.SignIn.{
  SiweMessage, VerifyBody, SignedIn, is_nonce, is_open, keeps, spend, insert_nonce, check_nonce,
  mark_used, use_nonce, sign_in, post_verify,
}
use inspect_element.Auth.Laws.{post_verify-ok, with_session}

any-select {ℓ} :
    {A : Type ℓ} (q p : A → Bool) (xs : List A) → any q xs ≡ false → any q (select p xs) ≡ false
unfolding any select
any-select q p [] h = refl
any-select q p (x ∷ xs) h = ground (arith, any-select q p xs)

any-append {ℓ} :
    {A : Type ℓ} (q : A → Bool) (xs : List A) (row : A)
    → any q xs ≡ false
    → q row ≡ false
    → any q (xs ++ row ∷ []) ≡ false
unfolding any
any-append q [] row h miss = ground (arith, miss)
any-append q (x ∷ xs) row h miss = ground (arith, miss, any-append q xs row)

select_none {ℓ} :
    {A : Type ℓ} (p q : A → Bool) (xs : List A)
    → ((x : A) → q x ≡ false → p x ≡ false)
    → any q xs ≡ false
    → select p xs ≡ []
unfolding any select
select_none p q [] weaker h = refl
select_none p q (x ∷ xs) weaker h = ground (arith, weaker x, select_none p q xs weaker)

-- A row that could still open a session with the nonce.
abbrev unspent : Text → AuthNonce → Bool
unspent nonce n = text_eq n.nonce nonce && not n.used

abbrev IsSpent : Text → AuthDb → Type 0
IsSpent nonce d = any (unspent nonce) d.nonces ≡ false

any-update-spend :
    (nonce other : Text) (ns : List AuthNonce)
    → any (unspent nonce) ns ≡ false
    → any (unspent nonce) (update (is_nonce other) spend ns) ≡ false
unfolding any update
any-update-spend nonce other [] h = refl
any-update-spend nonce other (n ∷ ns) h = ground (arith, any-update-spend nonce other ns)

spends :
    (nonce : Text) (ns : List AuthNonce)
    → any (unspent nonce) (update (is_nonce nonce) spend ns) ≡ false
unfolding any update
spends nonce [] = refl
spends nonce (n ∷ ns) = ground (arith, spends nonce ns)

-- What is spent passes no check.
check_nonce-refused :
    (now : ℕ) (nonce address : Text) (d : AuthDb)
    → IsSpent nonce d
    → check_nonce now nonce address d ≡ err bad_request
unfolding check_nonce single
check_nonce-refused now nonce address d spent =
    let closed =
      select_none (is_open nonce address) (unspent nonce) d.nonces (λ n miss. ground arith) spent in
    rw (closed, check_nonce) refl

insert_nonce-IsSpent :
    (nonce : Text) (row : AuthNonce) (ns : List AuthNonce)
    → text_eq row.nonce nonce ≡ false
    → any (unspent nonce) ns ≡ false
    → any (unspent nonce) (insert_nonce row ns) ≡ false
unfolding insert_nonce
insert_nonce-IsSpent nonce row ns other h = ground (arith, any-append (unspent nonce) ns row)

-- A statement that one of the two routes sends: the DELETE and the INSERT of GET /nonce, the UPDATE
-- and the INSERT of POST /verify.
pub data Statement : Type 0 where
  cleans : ℕ → Text → Statement
  draws : AuthNonce → Statement
  marks : Text → Statement
  opens : UserSession → Statement

-- The tables after a statement, and after many, of whichever requests.
pub run_statement : Statement → AuthDb → AuthDb
run_statement (cleans now address) d = record d { nonces = select (keeps now address) d.nonces }
run_statement (draws row) d = record d { nonces = insert_nonce row d.nonces }
run_statement (marks nonce) d = mark_used nonce d
run_statement (opens row) d = record d { sessions = d.sessions ++ row ∷ [] }

unfoldable pub run_all : List Statement → AuthDb → AuthDb
unfolding run_statement
run_all [] d = d
run_all (c ∷ cs) d = run_all cs (run_statement c d)

-- The statement does not draw the nonce once more.
abbrev pub Avoids : Text → Statement → Type 0
Avoids nonce (draws row) = text_eq row.nonce nonce ≡ false
Avoids nonce c = Unit

run_statement-IsSpent :
    (c : Statement) (nonce : Text) (d : AuthDb)
    → Avoids nonce c
    → IsSpent nonce d
    → IsSpent nonce (run_statement c d)
unfolding run_statement mark_used
run_statement-IsSpent (cleans now address) nonce d other spent =
    any-select (unspent nonce) (keeps now address) d.nonces spent
run_statement-IsSpent (draws row) nonce d other spent =
    insert_nonce-IsSpent nonce row d.nonces other spent
run_statement-IsSpent (marks m) nonce d other spent = any-update-spend nonce m d.nonces spent
run_statement-IsSpent (opens row) nonce d other spent = spent

run_all-IsSpent :
    (cs : List Statement) (nonce : Text) (d : AuthDb)
    → All (Avoids nonce) cs
    → IsSpent nonce d
    → IsSpent nonce (run_all cs d)
unfolding run_all
run_all-IsSpent [] nonce d others spent = spent
run_all-IsSpent (c ∷ cs) nonce d others spent =
    run_all-IsSpent cs nonce (run_statement c d) others.1
      (run_statement-IsSpent c nonce d others.0 spent)

mark_used-IsSpent : (nonce : Text) (d : AuthDb) → IsSpent nonce (mark_used nonce d)
unfolding mark_used
mark_used-IsSpent nonce d = spends nonce d.nonces

module _ (hash : Text → Text) (parse : Text → Result SiweMessage)
    (verify : SiweMessage → Text → Result Bool) (b : Backend) where
  refused_once_spent :
      (now : ℕ) (body : VerifyBody) (token : Text) (siwe : SiweMessage) (d : AuthDb)
      → b.provider ≡ supabase
      → b.configured ≡ true
      → parse body.message ≡ ok siwe
      → IsSpent siwe.nonce d
      → post_verify hash parse verify b now body token d ≡ err bad_request
  unfolding post_verify sign_in use_nonce
  refused_once_spent now body token siwe d hosted configured parsed spent =
      ground (arith, check_nonce-refused now siwe.nonce (to_lower siwe.address) d spent)

  -- A verification that is served without a break sends the UPDATE and the INSERT of the session.
  post_verify-run_all :
      (now : ℕ) (body : VerifyBody) (token : Text) (d d' : AuthDb) (s : SignedIn)
      → b.provider ≡ supabase
      → post_verify hash parse verify b now body token d ≡ ok (d', s)
      → (siwe : SiweMessage) × (row : UserSession) × (parse body.message ≡ ok siwe)
        × (check_nonce now siwe.nonce (to_lower siwe.address) d ≡ ok tt)
        × (d' ≡ run_all (marks siwe.nonce ∷ opens row ∷ []) d)
  unfolding run_all run_statement use_nonce
  post_verify-run_all now body token d d' s hosted h =
      let (siwe, between, parsed, used, _, tables, _) =
        post_verify-ok hash parse verify b now body token d d' s h in
      let hosted_h : (db b d >>= λ d. use_nonce now siwe.nonce (to_lower siwe.address) d)
          ≡ ok between =
        subst
          (λ p.
            by_provider p (ok d)
              (db b d >>= λ d. use_nonce now siwe.nonce (to_lower siwe.address) d)
            ≡ ok between)
          hosted used in
      let (same, is_same, both) = split_bind (db b d) _ hosted_h in
      let e : d ≡ same = ground arith in
      let (_, checked, whole) =
        split_bind (check_nonce now siwe.nonce (to_lower siwe.address) same) _ both in
      let marked : mark_used siwe.nonce same ≡ between = ground arith in
      (
        siwe,
        record {
          address = to_lower (to_lower siwe.address);
          token_hash = hash token;
          expires_at = now + 24 * 60 * 60 * 1000;
        },
        parsed,
        subst (λ d. check_nonce now siwe.nonce (to_lower siwe.address) d ≡ ok tt) (sym e) checked,
        tables
            ∙ ap (with_session hash now (to_lower siwe.address) token 24)
                (sym marked ∙ ap (mark_used siwe.nonce) (sym e)),
      )

  -- Under Supabase, once the UPDATE for a nonce has been made, a verification with this nonce is
  -- refused, if its SELECT comes after the UPDATE, whatever statements of these routes come between,
  -- in whatever order requests interleave, as long as none of them draws the same nonce again.
  pub post_verify_once :
      (later : ℕ) (again : VerifyBody) (token : Text) (siwe : SiweMessage) (d : AuthDb)
      (statements : List Statement)
      → b.provider ≡ supabase
      → b.configured ≡ true
      → parse again.message ≡ ok siwe
      → All (Avoids siwe.nonce) statements
      → post_verify hash parse verify b later again token
          (run_all (marks siwe.nonce ∷ statements) d)
        ≡ err bad_request
  unfolding run_all run_statement
  post_verify_once later again token siwe d statements hosted configured parsed others =
      refused_once_spent later again token siwe (run_all (marks siwe.nonce ∷ statements) d) hosted
        configured parsed
        (run_all-IsSpent statements siwe.nonce (mark_used siwe.nonce d) others
          (mark_used-IsSpent siwe.nonce d))
