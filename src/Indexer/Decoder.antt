-- ===== src/Indexer/Decoder.antt =====
-- services/infra/src/indexer/decoder.ts: `handleLog`. The decoding of a raw log (viem) and the block
-- timestamps (RPC) are parameters.
use inspect_element.Prelude.{ℕ, Bool, true, false, Option, none, some, List, [], ◌∷◌}
use inspect_element.Prelude.Texts.{Text}
use inspect_element.Prelude.Results.{Result, ok, ◌>>=◌}
use inspect_element.Store.Provider.{Provider}
use inspect_element.Store.Receipts.{ReceiptRow, upsert_receipt, set_receipt_trace_uri}
use inspect_element.Store.Challenges.{ChallengeRow, upsert_challenge_filed, resolve_challenge}
use inspect_element.Store.Intents.{IntentRow, insert_intent_committed, mark_intent_revoked}
use inspect_element.Store.Agents.{
  AgentRow, DelegateRow, upsert_agent_registered, apply_stake_increase, insert_delegate,
}

-- The arguments of ActionReceipt.
pub record ReceiptArgs : Type 0 where
  pub receipt_id : Text
  pub owner : Text
  pub agent_id : Text
  pub intent_hash : Text
  pub target : Text
  pub token : Text
  pub amount : ℕ
  pub call_data_hash : Text
  pub context_digest : Text
  pub nonce : ℕ
  pub timestamp : ℕ

-- A decoded event by its name, the arguments in the order in which the handler reads them; `other`
-- is an event of the ABI that the switch does not name.
pub data Event : Type 0 where
  action_receipt : ReceiptArgs → Event
  receipt_stored : Event
  trace_uri_stored : Text → Text → Event
  agent_delegate_set : Text → Text → Text → Bool → Event
  challenge_filed : ℕ → Text → Text → Event
  challenge_resolved : ℕ → Bool → ℕ → Event
  intent_committed : Text → Text → Text → Event
  intent_revoked : Text → Event
  agent_registered : Text → Text → Text → Event
  agent_staked : Text → ℕ → Event
  other : Event

pub record Log (Raw : Type 0) : Type 0 where
  pub payload : Raw
  pub address : Option Text
  pub block_number : Option ℕ
  pub transaction_hash : Option Text
  pub log_index : Option ℕ

-- Where on the chain a log stands, once none of it is null.
pub record Provenance : Type 0 where
  pub block_number : ℕ
  pub tx_hash : Text
  pub log_index : ℕ

abbrev pub provenance : {Raw : Type 0} → Log Raw → Option Provenance
provenance l = elim l.block_number [
  | none ↦ none
  | some b ↦ elim l.transaction_hash [
    | none ↦ none
    | some h ↦ elim l.log_index [
      | none ↦ none
      | some i ↦ elim l.address [
        | none ↦ none
        | some _ ↦ some (record { block_number = b; tx_hash = h; log_index = i })
      ]
    ]
  ]
]

-- The live events that the handler emits (api/sse.ts).
pub data SseEvent : Type 0 where
  receipt_created : Text → Text → Text → ℕ → ℕ → SseEvent
  filed_event : ℕ → Text → Text → ℕ → SseEvent
  resolved_event : ℕ → Bool → ℕ → ℕ → SseEvent

-- The tables that the indexer writes.
pub record Db : Type 0 where
  pub receipts : List ReceiptRow
  pub challenges : List ChallengeRow
  pub intents : List IntentRow
  pub agents : List AgentRow
  pub delegates : List DelegateRow

-- The tables after the log, what was emitted, and whether the log was a known event.
pub record Handled : Type 0 where
  pub db : Db
  pub emitted : List SseEvent
  pub known : Bool

abbrev pub quiet : Db → Result Handled
quiet db = ok (record { db = db; emitted = []; known = true })

abbrev pub skipped : Db → Result Handled
skipped db = ok (record { db = db; emitted = []; known = false })

abbrev pub loud : Db → SseEvent → Result Handled
loud db e = ok (record { db = db; emitted = e ∷ []; known = true })

-- The switch of `handleLog`, at time `now` and with the timestamp `ts` of the block.
unfoldable pub apply_event : Provider → ℕ → ℕ → Provenance → Event → Db → Result Handled
apply_event provider now ts at (action_receipt a) db =
    upsert_receipt provider now
      (record {
        receipt_id = a.receipt_id;
        owner = a.owner;
        agent_id = a.agent_id;
        intent_hash = a.intent_hash;
        target = a.target;
        token = a.token;
        amount = a.amount;
        call_data_hash = a.call_data_hash;
        context_digest = a.context_digest;
        nonce = a.nonce;
        ts = a.timestamp;
        block_number = at.block_number;
        tx_hash = at.tx_hash;
        log_index = at.log_index;
      })
      db.receipts
    >>= λ t.
        loud (record db { receipts = t })
          (receipt_created a.receipt_id a.owner a.agent_id a.amount ts)
apply_event provider now ts at receipt_stored db = quiet db
apply_event provider now ts at (trace_uri_stored id uri) db =
    quiet (record db { receipts = set_receipt_trace_uri id uri db.receipts })
apply_event provider now ts at (agent_delegate_set owner agent delegate approved) db =
    quiet (record db {
      delegates =
          insert_delegate now
            (record {
              owner = owner;
              agent_id = agent;
              delegate = delegate;
              approved = approved;
              block_number = at.block_number;
              tx_hash = at.tx_hash;
              log_index = at.log_index;
            })
            db.delegates;
    })
apply_event provider now ts at (challenge_filed id receipt challenger) db =
    loud
      (record db {
        challenges =
            upsert_challenge_filed provider
              (record {
                challenge_id = id;
                receipt_id = receipt;
                challenger = challenger;
                block_number = at.block_number;
                tx_hash = at.tx_hash;
                block_timestamp = ts;
              })
              db.challenges;
      })
      (filed_event id receipt challenger ts)
apply_event provider now ts at (challenge_resolved id uphold payout) db =
    loud
      (record db {
        challenges =
            resolve_challenge
              (record {
                challenge_id = id;
                uphold = uphold;
                payout = payout;
                block_number = at.block_number;
                tx_hash = at.tx_hash;
                block_timestamp = ts;
              })
              db.challenges;
      })
      (resolved_event id uphold payout ts)
apply_event provider now ts at (intent_committed hash owner uri) db =
    insert_intent_committed provider now
      (record {
        intent_hash = hash;
        owner = owner;
        manifest_uri = uri;
        block_number = at.block_number;
        tx_hash = at.tx_hash;
        log_index = at.log_index;
      })
      db.intents
    >>= λ t. quiet (record db { intents = t })
apply_event provider now ts at (intent_revoked owner) db =
    quiet (record db { intents = mark_intent_revoked owner db.intents })
apply_event provider now ts at (agent_registered id operator uri) db = quiet (record db {
  agents =
      upsert_agent_registered provider now
        (record {
          agent_id = id;
          operator = operator;
          metadata_uri = uri;
          block_number = at.block_number;
          tx_hash = at.tx_hash;
        })
        db.agents;
})
apply_event provider now ts at (agent_staked id stake) db =
    quiet (record db { agents = apply_stake_increase id stake db.agents })
apply_event provider now ts at other db = skipped db

module _ {Raw : Type 0} (decode : Raw → Option Event) (block_timestamp : ℕ → Result ℕ)
    (provider : Provider) (now : ℕ) where
  abbrev handle_event : Event → Option Provenance → Db → Result Handled
  handle_event e none db = skipped db
  handle_event e (some at) db =
      block_timestamp at.block_number >>= λ ts. apply_event provider now ts at e db

  -- `decodeEventLog` throws on a log that is not of the ABI, which is skipped.
  unfoldable pub handle_log : Log Raw → Db → Result Handled
  handle_log l db = elim (decode l.payload) [
    | none ↦ skipped db
    | some e ↦ handle_event e (provenance l) db
  ]
