-- ===== src/Api/Executions/Laws.antt =====
-- About services/infra/src/api/executions.ts: preflight against submission, and what a submission
-- leaves in the table and the event stream.
use inspect_element.Prelude.{
  ℕ, ◌≡◌, refl, sym, ap, ◌∙◌, true, not, ◌||◌, Option, none, some, List, [], ◌∷◌, ◌++◌,
  if◌then◌else◌, Bool-cases, inl, inr,
}
use inspect_element.Prelude.Texts.{Text, to_lower, text_eq_refl}
use inspect_element.Prelude.Results.{Result, ok, err, ◌>>=◌, Failure, Result-cases}
use inspect_element.Prelude.Tables.{find-update_self, find-append_last, map_option}
use inspect_element.Store.Provider.{Provider, sqlite}
use inspect_element.Store.Manifests.{ManifestRow}
use inspect_element.Store.Executions.{
  ExecutionRow, ExecutionStatus, ExecutionUpdates, allowed, blocked, pending, no_updates,
  insert_execution, update_execution, updated_execution, get_execution, has_execution_id,
}
use inspect_element.Api.Executions.{
  ExecutionBody, ScreenOutput, HardMode, ExecutionResponse, BlockedEvent, Executions, Reply,
  accepts, to_canonical_json, run_deterministic_checks, hard_mode_block, hard_reason, preflight,
  settle, submit, inserted, join_reasons, is_passed,
}

ok_inj : {A : Type 0} {a b : A} → ok a ≡ ok b → a ≡ b
ok_inj h = cc

append_nil : {A : Type 0} (xs : List A) → xs ++ [] ≡ xs
append_nil [] = refl
append_nil (x ∷ xs) = cc (append_nil xs)

-- What an answer decides, and of which trace.
abbrev pub verdict : ExecutionResponse → Result (ExecutionStatus × Text)
verdict r = ok (r.status, r.context_digest)

-- The two calls ask the model apart: `screen_trace` answers the submission, `rehearsed` the preflight.
module _ (keccak : Text → Text) (screen_trace rehearsed : ExecutionBody → ScreenOutput)
    (show_score : ℕ → Text) (screen_json : ScreenOutput → Text) (hard : HardMode)
    (manifests : List ManifestRow) (now : ℕ) (provider : Provider) where
  abbrev submission : Text → ExecutionBody → Executions → Reply
  submission = submit keccak screen_trace show_score screen_json hard manifests now provider

  abbrev rehearsal : ExecutionBody → Result ExecutionResponse
  rehearsal = preflight keccak rehearsed show_score screen_json hard manifests now provider

  settled : Text → Text → ExecutionBody → List Text → Executions → Reply
  settled = settle keccak screen_trace show_score screen_json hard manifests now provider

  settle-verdict :
      (id digest : Text) (b : ExecutionBody) (reasons : List Text) (s : Executions)
      → hard_mode_block hard (screen_trace b) ≡ hard_mode_block hard (rehearsed b)
      → ((settled id digest b reasons s).answer >>= verdict)
        ≡ ok (
          if not (is_passed reasons) || hard_mode_block hard (rehearsed b)
              then blocked
              else allowed,
          digest,
        )
  unfolding settled settle
  settle-verdict id digest b (r ∷ rs) s alike = refl
  settle-verdict id digest b [] s alike =
      elim (Bool-cases (hard_mode_block hard (screen_trace b))) [
        | inl high ↦ rw (sym alike) (rw high refl)
        | inr low ↦ rw (sym alike) (rw low refl)
      ]

  -- A submission answers with the status and the digest of the preflight at the same time and in the
  -- same state, and throws what the preflight throws, provided that the hard mode rates the two
  -- answers of the model alike, as it does where it is off.
  pub submit-preflight :
      (id : Text) (b : ExecutionBody) (s : Executions)
      → hard_mode_block hard (screen_trace b) ≡ hard_mode_block hard (rehearsed b)
      → ((submission id b s).answer >>= verdict) ≡ (rehearsal b >>= verdict)
  unfolding submit preflight settled
  submit-preflight id b s alike = elim (Bool-cases (accepts b)) [
    | inr bad ↦ rw bad refl
    | inl fine ↦ rw fine (elim (Result-cases (to_canonical_json b.trace)) [
      | inr (e, thrown) ↦ rw thrown refl
      | inl (json, canonical) ↦
          rw canonical (elim (Result-cases (run_deterministic_checks manifests now b)) [
            | inr (e, thrown) ↦ rw thrown refl
            | inl (reasons, checked) ↦
                rw checked (settle-verdict id (keccak json) b reasons _ alike)
          ])
    ])
  ]

module _ (keccak : Text → Text) (screen_trace : ExecutionBody → ScreenOutput)
    (show_score : ℕ → Text) (screen_json : ScreenOutput → Text) (hard : HardMode)
    (manifests : List ManifestRow) (now : ℕ) where
  abbrev recorded_submission : Text → ExecutionBody → Executions → Reply
  recorded_submission = submit keccak screen_trace show_score screen_json hard manifests now sqlite

  abbrev with_row : Text → Text → ExecutionBody → Executions → Executions
  with_row = inserted keccak screen_trace show_score screen_json hard manifests now sqlite

  recorded_settle : Text → Text → ExecutionBody → List Text → Executions → Reply
  recorded_settle = settle keccak screen_trace show_score screen_json hard manifests now sqlite

  abbrev pub event_of : ExecutionBody → ExecutionResponse → Text → List BlockedEvent
  event_of b r id = elim r.status [
    | blocked ↦
        record {
          execution_id = id;
          owner = b.owner;
          agent_id = b.agent_id;
          reasons = r.block_reasons;
          timestamp = now;
        }
        ∷ []
    | _ ↦ []
  ]

  abbrev pub reason_of : ExecutionResponse → Option Text
  reason_of r = elim r.status [ blocked ↦ some (join_reasons r.block_reasons) | _ ↦ none ]

  -- What the table and the event stream say of an answer.
  pub record IsRecorded (id : Text) (b : ExecutionBody) (before : List BlockedEvent)
      (after : Executions) (r : ExecutionResponse) : Type 0 where
    pub row : ExecutionRow
    pub stored : get_execution sqlite id after.rows ≡ some row
    pub same_status : row.status ≡ r.status
    pub same_digest : row.context_digest ≡ some (to_lower r.context_digest)
    pub same_reason : row.block_reason ≡ reason_of r
    pub emitted : after.events ≡ before ++ event_of b r id

  update_execution-found :
      (id : Text) (u : ExecutionUpdates) (rows : List ExecutionRow) (e : ExecutionRow)
      → get_execution sqlite id rows ≡ some e
      → get_execution sqlite id (update_execution sqlite now id u rows)
        ≡ some (updated_execution now u e)
  unfolding get_execution update_execution updated_execution
  update_execution-found id u rows e h =
      find-update_self (has_execution_id id) (has_execution_id id) (updated_execution now u)
        (λ x. refl) rows
      ∙ ap (map_option (updated_execution now u)) h

  abbrev blocking : List Text → ExecutionUpdates
  blocking reasons = record no_updates {
    status = some blocked;
    block_reason = some (join_reasons reasons);
  }

  settle-IsRecorded :
      (id json : Text) (b : ExecutionBody) (reasons : List Text) (s : Executions) (e : ExecutionRow)
      → get_execution sqlite id s.rows ≡ some e
      → e.context_digest ≡ some (to_lower (keccak json))
      → e.block_reason ≡ none
      → (r : ExecutionResponse) × ((recorded_settle id (keccak json) b reasons s).answer ≡ ok r)
        × IsRecorded id b s.events (recorded_settle id (keccak json) b reasons s).after r
  unfolding recorded_settle settle updated_execution
  settle-IsRecorded id json b (x ∷ xs) s e h d n = (
    _,
    refl,
    record {
      row = updated_execution now (blocking (x ∷ xs)) e;
      stored = update_execution-found id _ s.rows e h;
      same_status = refl;
      same_digest = d;
      same_reason = refl;
      emitted = refl;
    },
  )
  settle-IsRecorded id json b [] s e h d n =
      elim (Bool-cases (hard_mode_block hard (screen_trace b))) [
        | inl high ↦ rw high (
          _,
          refl,
          record {
            row =
                updated_execution now (blocking (hard_reason show_score hard (screen_trace b) ∷ []))
                  e;
            stored = update_execution-found id _ s.rows e h;
            same_status = refl;
            same_digest = d;
            same_reason = refl;
            emitted = refl;
          },
        )
        | inr low ↦ rw low (
          _,
          refl,
          record {
            row =
                updated_execution now
                  (record no_updates {
                    status = some allowed;
                    result_json = some (screen_json (screen_trace b));
                  })
                  e;
            stored = update_execution-found id _ s.rows e h;
            same_status = refl;
            same_digest = d;
            same_reason = n;
            emitted = sym (append_nil s.events);
          },
        )
      ]

  -- The row that the handler inserts before the checks.
  inserted-found :
      (id json : Text) (b : ExecutionBody) (s : Executions)
      → get_execution sqlite id s.rows ≡ none
      → (e : ExecutionRow) × (get_execution sqlite id (with_row id json b s).rows ≡ some e)
        × (e.context_digest ≡ some (to_lower (keccak json)))
        × (e.block_reason ≡ none)
        × (e.status ≡ pending)
  unfolding get_execution insert_execution
  inserted-found id json b s fresh =
      (_, find-append_last (has_execution_id id) _ s.rows (text_eq_refl id) fresh, refl, refl, refl)

  -- Under SQLite, when a submission under a fresh id is answered, the table has the execution with the status, the
  -- digest and the reason of the answer, and one event is emitted if it is blocked, none if not.
  pub submit-IsRecorded :
      (id : Text) (b : ExecutionBody) (s : Executions) (r : ExecutionResponse)
      → get_execution sqlite id s.rows ≡ none
      → (recorded_submission id b s).answer ≡ ok r
      → IsRecorded id b s.events (recorded_submission id b s).after r
  unfolding submit recorded_settle
  submit-IsRecorded id b s r fresh e = elim (Bool-cases (accepts b)) [
    | inr bad ↦ absurd (cc (rw (bad, submit) at e))
    | inl fine ↦ elim (Result-cases (to_canonical_json b.trace)) [
      | inr (f, thrown) ↦ absurd (cc (rw thrown at (rw (fine, submit) at e)))
      | inl (json, canonical) ↦ elim (Result-cases (run_deterministic_checks manifests now b)) [
        | inr (f, thrown) ↦ absurd (cc (rw thrown at (rw canonical at (rw (fine, submit) at e))))
        | inl (reasons, checked) ↦
            let (row, found, digest, no_reason, _) = inserted-found id json b s fresh in
            let (r', answered, recorded) =
              settle-IsRecorded id json b reasons (with_row id json b s) row found digest
                no_reason in
            let same : r' ≡ r =
              ok_inj (sym answered ∙ rw checked at (rw canonical at (rw (fine, submit) at e))) in
            rw (fine, submit) (rw canonical (rw checked (rw (sym same) recorded)))
      ]
    ]
  ]

  -- Under SQLite, where the checks throw, as on an amount that is no integer, the submission throws too, emits
  -- nothing, and leaves the row that it has inserted under the fresh id pending.
  pub submit_leaves_pending :
      (id json : Text) (b : ExecutionBody) (s : Executions) (f : Failure)
      → get_execution sqlite id s.rows ≡ none
      → accepts b ≡ true
      → to_canonical_json b.trace ≡ ok json
      → run_deterministic_checks manifests now b ≡ err f
      → ((recorded_submission id b s).answer ≡ err f)
        × ((e : ExecutionRow) × (get_execution sqlite id (recorded_submission id b s).after.rows
              ≡ some e)
            × (e.status ≡ pending))
        × ((recorded_submission id b s).after.events ≡ s.events)
  unfolding submit
  submit_leaves_pending id json b s f fresh fine canonical thrown =
      let (e, found, _, _, waits) = inserted-found id json b s fresh in
      rw (fine, submit) (rw canonical (rw thrown (refl, (e, found, waits), refl)))
