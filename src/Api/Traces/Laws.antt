-- ===== src/Api/Traces/Laws.antt =====
-- About services/infra/src/api/traces.ts: what the table of traces holds, and uploads of one trace.
use inspect_element.Prelude.{
  ℕ, ◌+◌, ◌<◌, ◌≡◌, refl, sym, ap, ◌∙◌, subst, true, Option, none, some, List, [], ◌∷◌, All, lt→ltb,
  Bool-cases, Option-cases, inl, inr,
}
use inspect_element.Prelude.Texts.{Text, to_lower, text_eq, text_eq_iff, text_eq_refl}
use inspect_element.Prelude.Results.{Result, ok, err, Result-cases}
use inspect_element.Prelude.Tables.{upsert, upserted, find-upsert_self, find_fits}
use inspect_element.Store.Provider.{Provider, sqlite, supabase}
use inspect_element.Store.Traces.{
  TraceRow, InsertTraceInput, trace_row, trace_merge, has_digest, insert_trace, get_trace_by_digest,
}
use inspect_element.Api.Traces.{
  TraceBody, TraceAckContext, TraceAck, Signed, Uploaded, accepts_trace, to_canonical_bytes,
  unexpired, pin_and_sign, stored, ack_of, answer_cached, upload,
}

-- The key of every row is the hash of its trace.
abbrev pub IsHashed : (Text → Text) → TraceRow → Type 0
IsHashed keccak r = to_lower (keccak r.trace_json) ≡ r.context_digest

abbrev pub AreHashed : (Text → Text) → List TraceRow → Type 0
AreHashed keccak t = All (IsHashed keccak) t

merge_keeps :
    (p : Provider) (row x : TraceRow)
    → has_digest row.context_digest x ≡ true
    → has_digest row.context_digest (trace_merge p row x) ≡ true
unfolding trace_merge
merge_keeps sqlite row x h = h
merge_keeps supabase row x h = text_eq_refl row.context_digest

get_trace-insert_trace :
    (p : Provider) (now : ℕ) (i : InsertTraceInput) (key : Text) (t : List TraceRow)
    → to_lower key ≡ to_lower i.context_digest
    → get_trace_by_digest key (insert_trace p now i t)
      ≡ some
          (upserted (trace_merge p (trace_row now i)) (trace_row now i) (get_trace_by_digest key t))
unfolding get_trace_by_digest insert_trace trace_row
get_trace-insert_trace p now i key t e =
    let row = trace_row now i in
    rw e (
      find-upsert_self (has_digest row.context_digest) (trace_merge p row) row
        (text_eq_refl row.context_digest) (merge_keeps p row) t)

pub get_trace-digest :
    (key : Text) (t : List TraceRow) (r : TraceRow)
    → get_trace_by_digest key t ≡ some r
    → r.context_digest ≡ to_lower key
unfolding get_trace_by_digest
get_trace-digest key t r h = (text_eq_iff _ _).0 (find_fits (has_digest (to_lower key)) t r h)

module _ (keccak : Text → Text) (pin : Text → Result Text)
    (sign : TraceAckContext → TraceAck → Result Signed) (checksum : Text → Text) (ttl : ℕ)
    (provider : Provider) where
  abbrev uploaded : Result TraceAckContext → ℕ → TraceBody → List TraceRow → Uploaded
  uploaded = upload keccak pin sign checksum ttl provider

  merged-IsHashed :
      (p : Provider) (row old : TraceRow)
      → IsHashed keccak row
      → IsHashed keccak old
      → IsHashed keccak (trace_merge p row old)
  unfolding trace_merge
  merged-IsHashed sqlite row old h k = k
  merged-IsHashed supabase row old h k = h

  upsert-AreHashed :
      (row : TraceRow) (t : List TraceRow)
      → IsHashed keccak row
      → AreHashed keccak t
      → AreHashed keccak (upsert (has_digest row.context_digest) (trace_merge provider row) row t)
  unfolding upsert
  upsert-AreHashed row [] h all = (h, tt)
  upsert-AreHashed row (x ∷ t) h all = elim (Bool-cases (has_digest row.context_digest x)) [
    | inl same ↦ rw same (merged-IsHashed provider row x h all.0, all.1)
    | inr other ↦ rw other (all.0, upsert-AreHashed row t h all.1)
  ]

  stored-AreHashed :
      (now : ℕ) (b : TraceBody) (json uri : Text) (s : Signed) (t : List TraceRow)
      → to_lower (keccak json) ≡ to_lower b.context_digest
      → AreHashed keccak t
      → AreHashed keccak (stored keccak pin sign checksum ttl provider now b json uri s t)
  unfolding insert_trace trace_row
  stored-AreHashed now b json uri s t h all = upsert-AreHashed _ t h all

  pin_and_sign-AreHashed :
      (ctx : TraceAckContext) (now : ℕ) (b : TraceBody) (json : Text) (t : List TraceRow)
      → to_lower (keccak json) ≡ to_lower b.context_digest
      → AreHashed keccak t
      → AreHashed keccak (pin_and_sign keccak pin sign checksum ttl provider ctx now b json t).table
  unfolding pin_and_sign
  pin_and_sign-AreHashed ctx now b json t h all = elim (Result-cases (pin json)) [
    | inr (e, failed) ↦ rw (failed, pin_and_sign) all
    | inl (uri, pinned) ↦ elim (Result-cases (sign ctx (ack_of keccak checksum ttl now b uri))) [
      | inr (e, failed) ↦ rw (pinned, pin_and_sign) (rw failed all)
      | inl (s, signed) ↦
          rw (pinned, pin_and_sign) (rw signed (stored-AreHashed now b json uri s t h all))
    ]
  ]

  -- What follows the comparison of the digests.
  abbrev acknowledged : Result TraceAckContext → ℕ → TraceBody → Text → List TraceRow → Uploaded
  acknowledged context now b json t = elim context [
    | err e ↦ record { table = t; answer = err e }
    | ok ctx ↦ elim (unexpired now (get_trace_by_digest b.context_digest t)) [
      | some r ↦ record { table = t; answer = ok (answer_cached ctx b r) }
      | none ↦ pin_and_sign keccak pin sign checksum ttl provider ctx now b json t
    ]
  ]

  signed-AreHashed :
      (context : Result TraceAckContext) (now : ℕ) (b : TraceBody) (json : Text) (t : List TraceRow)
      → to_lower (keccak json) ≡ to_lower b.context_digest
      → AreHashed keccak t
      → AreHashed keccak (acknowledged context now b json t).table
  signed-AreHashed (err e) now b json t h all = all
  signed-AreHashed (ok ctx) now b json t h all =
      elim (Option-cases (unexpired now (get_trace_by_digest b.context_digest t))) [
        | inr (r, hit) ↦ rw (hit, acknowledged) all
        | inl miss ↦ rw (miss, acknowledged) (pin_and_sign-AreHashed ctx now b json t h all)
      ]

  -- Whatever is uploaded, accepted or not, a table in which the key of every trace is the hash of its
  -- stored text stays so, also of a trace that was uploaded as a string and is stored as it came.
  pub upload-AreHashed :
      (context : Result TraceAckContext) (now : ℕ) (b : TraceBody) (t : List TraceRow)
      → AreHashed keccak t
      → AreHashed keccak (uploaded context now b t).table
  unfolding upload
  upload-AreHashed context now b t all = elim (Bool-cases (accepts_trace b)) [
    | inr bad ↦ rw (bad, upload) all
    | inl fine ↦ elim (Result-cases (to_canonical_bytes b.trace)) [
      | inr (e, failed) ↦ rw (fine, upload) (rw failed all)
      | inl (json, canonical) ↦
          elim (Bool-cases (text_eq (to_lower (keccak json)) (to_lower b.context_digest))) [
            | inr wrong ↦ rw (fine, upload) (rw canonical (rw wrong all))
            | inl right ↦
                rw (fine, upload)
                  (rw canonical (
                    rw right
                      (signed-AreHashed context now b json t ((text_eq_iff _ _).0 right) all)))
          ]
    ]
  ]

  -- An answer from the cache.
  upload_hit :
      (ctx : TraceAckContext) (now : ℕ) (b : TraceBody) (json : Text) (t : List TraceRow)
      (r : TraceRow)
      → accepts_trace b ≡ true
      → to_canonical_bytes b.trace ≡ ok json
      → to_lower (keccak json) ≡ to_lower b.context_digest
      → unexpired now (get_trace_by_digest b.context_digest t) ≡ some r
      → uploaded (ok ctx) now b t ≡ record { table = t; answer = ok (answer_cached ctx b r) }
  unfolding upload
  upload_hit ctx now b json t r fine canonical hashed hit =
      let right : text_eq (to_lower (keccak json)) (to_lower b.context_digest) ≡ true =
        (text_eq_iff _ _).1 hashed in
      rw (fine, upload) (rw canonical (rw right (rw hit refl)))

  module _ (ctx : TraceAckContext) (now later : ℕ) (b b' : TraceBody) (json uri : Text) (s : Signed)
      (t : List TraceRow) (fine : accepts_trace b ≡ true) (fine' : accepts_trace b' ≡ true)
      (canonical : to_canonical_bytes b.trace ≡ ok json)
      (same_trace : to_canonical_bytes b'.trace ≡ ok json)
      (hashed : to_lower (keccak json) ≡ to_lower b.context_digest)
      (same_digest : to_lower b'.context_digest ≡ to_lower b.context_digest)
      (miss : unexpired now (get_trace_by_digest b.context_digest t) ≡ none)
      (pinned : pin json ≡ ok uri) (signed : sign ctx (ack_of keccak checksum ttl now b uri) ≡ ok s)
      (in_time : later < now + ttl) where
    first_table :
        (uploaded (ok ctx) now b t).table
        ≡ stored keccak pin sign checksum ttl provider now b json uri s t
    unfolding upload pin_and_sign
    first_table =
        let right : text_eq (to_lower (keccak json)) (to_lower b.context_digest) ≡ true =
          (text_eq_iff _ _).1 hashed in
        rw (fine, upload)
          (rw canonical (rw right (rw miss (rw (pinned, pin_and_sign) (rw signed refl)))))

    -- The acknowledgement that a row holds.
    abbrev Holds : TraceRow → Type 0
    Holds r =
        (r.trace_uri ≡ uri)
        × (r.context_digest ≡ to_lower b.context_digest)
        × (r.uri_hash ≡ to_lower (keccak uri))
        × (r.expires_at ≡ now + ttl)
        × (r.signature ≡ to_lower s.signature)
        × (r.signer ≡ to_lower s.signer)

    merged-Holds :
        (p : Provider) (row : TraceRow) (o : Option TraceRow)
        → Holds row
        → ((old : TraceRow) → o ≡ some old → old.context_digest ≡ row.context_digest)
        → Holds (upserted (trace_merge p row) row o)
    unfolding trace_merge
    merged-Holds p row none (u, d, h, e, g, i) same = (u, d, h, e, g, i)
    merged-Holds sqlite row (some old) (u, d, h, e, g, i) same = (u, same old refl ∙ d, h, e, g, i)
    merged-Holds supabase row (some old) (u, d, h, e, g, i) same = (u, d, h, e, g, i)

    hit :
        (r : TraceRow) × (get_trace_by_digest b'.context_digest
            (stored keccak pin sign checksum ttl provider now b json uri s t)
          ≡ some r)
        × Holds r
    unfolding trace_row
    hit = (
      _,
      get_trace-insert_trace provider now _ b'.context_digest t same_digest,
      merged-Holds provider _ (get_trace_by_digest b'.context_digest t)
          (refl, refl, refl, refl, refl, refl)
          (λ old e. get_trace-digest b'.context_digest t old e ∙ same_digest),
    )

    -- Of a trace that was signed for one request, a later request about it, of any agent and owner,
    -- gets the signature of the first before it expires, under its own agent and owner, and the
    -- table stays as it is.
    pub upload_again : uploaded (ok ctx) later b' (uploaded (ok ctx) now b t).table ≡ record {
      table = (uploaded (ok ctx) now b t).table;
      answer = ok (record {
        trace_uri = uri;
        context_digest = to_lower b.context_digest;
        uri_hash = to_lower (keccak uri);
        expires_at = now + ttl;
        signature = to_lower s.signature;
        signer = to_lower s.signer;
        guarded_executor = ctx.guarded_executor;
        chain_id = ctx.chain_id;
        agent_id = b'.agent_id;
        owner = b'.owner;
      });
    }
    upload_again =
        let (r, found, (u, d, h, e, g, i)) = hit in
        let fresh : unexpired later (some r) ≡ some r =
          rw (lt→ltb later r.expires_at (rw e in_time)) in
        let T = stored keccak pin sign checksum ttl provider now b json uri s t in
        let cached : uploaded (ok ctx) later b' T
            ≡ record { table = T; answer = ok (answer_cached ctx b' r) } =
          upload_hit ctx later b' json T r fine' same_trace (hashed ∙ sym same_digest)
            (ap (unexpired later) found ∙ fresh) in
        subst
          (λ T'. uploaded (ok ctx) later b' T' ≡ record {
            table = T';
            answer = ok (record {
              trace_uri = uri;
              context_digest = to_lower b.context_digest;
              uri_hash = to_lower (keccak uri);
              expires_at = now + ttl;
              signature = to_lower s.signature;
              signer = to_lower s.signer;
              guarded_executor = ctx.guarded_executor;
              chain_id = ctx.chain_id;
              agent_id = b'.agent_id;
              owner = b'.owner;
            });
          })
          (sym first_table)
          (cached ∙ (λ j. record {
            table = T;
            answer = ok (record {
              trace_uri = u j;
              context_digest = d j;
              uri_hash = h j;
              expires_at = e j;
              signature = g j;
              signer = i j;
              guarded_executor = ctx.guarded_executor;
              chain_id = ctx.chain_id;
              agent_id = b'.agent_id;
              owner = b'.owner;
            });
          }))
