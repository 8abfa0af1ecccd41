-- ===== src/Web/Terminal.antt =====
-- apps/web/src/components/demo/demo-visualizer.ts: the outcome of a run and the last frame that it
-- gives.
use inspect_element.Prelude.{Bool, true, false, Option, none, some, ◌++◌, map, ◌==◌, if◌then◌else◌}
use inspect_element.Prelude.Texts.{Text, codes, to_lower, is_empty}
use inspect_element.Web.Phases.{DemoScenario, legit, blocked, overspend, Phase}

pub data BlockedReason : Type 0 where
  counterparty_not_allowed token_not_allowed intent_expired day_cap_exceeded : BlockedReason
  invalid_trace_ack delegate_not_approved : BlockedReason

-- `unstarted` is "idle".
pub data DemoRunStatus : Type 0 where
  unstarted running success failed : DemoRunStatus

pub record DemoStatus : Type 0 where
  pub scenario : DemoScenario
  pub status : DemoRunStatus
  pub tx_hash : Option Text
  pub reason_code : Option BlockedReason
  pub receipt_id : Option Text
  pub error : Option Text

-- `realResult !== null && realResult.status !== "running"`
unfoldable pub is_known : Option DemoStatus → Bool
is_known none = false
is_known (some r) = elim r.status [ running ↦ false | _ ↦ true ]

unfoldable pub can_leave_hold : Phase → Option DemoStatus → Bool
unfolding is_known
can_leave_hold phase result = if phase.holds_for_real_result then is_known result else true

pub data Ending : Type 0 where
  ends_success ends_blocked ends_overspend ends_failed : Ending

pub data Cta : Type 0 where
  open_receipt retry view_tx : Cta

pub record TerminalPresentation : Type 0 where
  pub ending : Ending
  pub title : Text
  pub detail : Text
  pub cta : Option Cta
  pub reason_code : Option BlockedReason

-- The code's text.
abbrev reason_text : BlockedReason → Text
reason_text counterparty_not_allowed = codes "COUNTERPARTY_NOT_ALLOWED"
reason_text token_not_allowed = codes "TOKEN_NOT_ALLOWED"
reason_text intent_expired = codes "INTENT_EXPIRED"
reason_text day_cap_exceeded = codes "DAY_CAP_EXCEEDED"
reason_text invalid_trace_ack = codes "INVALID_TRACE_ACK"
reason_text delegate_not_approved = codes "DELEGATE_NOT_APPROVED"

-- `.replace(/_/g, " ").toLowerCase()`
abbrev reason_words : BlockedReason → Text
reason_words r = to_lower (map (λ c. if c == b'_' then b' ' else c) (reason_text r))

abbrev pub has_receipt : Option Text → Bool
has_receipt none = false
has_receipt (some t) = if is_empty t then false else true

abbrev or_text : Option Text → Text → Text
or_text none d = d
or_text (some t) d = t

abbrev is_overspend : DemoScenario → Bool
is_overspend legit = false
is_overspend blocked = false
is_overspend overspend = true

-- Before the result is known.
abbrev pending_terminal : DemoScenario → TerminalPresentation
pending_terminal blocked = record {
  ending = ends_blocked;
  title = codes "Awaiting denial";
  detail = codes "Expected outcome pending confirmation.";
  cta = none;
  reason_code = none;
}
pending_terminal s = record {
  ending = if is_overspend s then ends_overspend else ends_success;
  title = codes "Awaiting confirmation";
  detail = codes "Expected outcome pending receipt.";
  cta = none;
  reason_code = none;
}

abbrev failed_terminal : DemoStatus → TerminalPresentation
failed_terminal r = record {
  ending = ends_failed;
  title = codes "Run failed";
  detail = or_text r.error (codes "Unknown error from runtime.");
  cta = some retry;
  reason_code = none;
}

abbrev success_terminal : DemoScenario → DemoStatus → TerminalPresentation
success_terminal scenario r = elim r.reason_code [
  | some code ↦ record {
    ending = ends_blocked;
    title = codes "Blocked at guard";
    detail = codes "Reason · " ++ reason_words code ++ codes ". The stablecoin never moved.";
    cta = none;
    reason_code = some code;
  }
  | none ↦
      if has_receipt r.receipt_id
      then (if is_overspend scenario
          then record {
            ending = ends_overspend;
            title = codes "Receipt · recourse open";
            detail = codes "Amount exceeded per-tx cap. File challenge from receipt.";
            cta = some open_receipt;
            reason_code = none;
          }
          else record {
            ending = ends_success;
            title = codes "Payment executed";
            detail = codes "Receipt minted · ledger updated.";
            cta = some open_receipt;
            reason_code = none;
          })
      else record {
        ending = ends_success;
        title = codes "Run complete";
        detail = codes "No receipt returned.";
        cta = none;
        reason_code = none;
      }
]

unfoldable pub resolve_terminal : DemoScenario → Option DemoStatus → TerminalPresentation
resolve_terminal scenario none = pending_terminal scenario
resolve_terminal scenario (some r) = elim r.status [
  | running ↦ pending_terminal scenario
  | failed ↦ failed_terminal r
  | _ ↦ success_terminal scenario r
]
