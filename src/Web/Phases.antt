-- ===== src/Web/Phases.antt =====
-- apps/web/src/components/demo/demo-visualizer.ts: the scripts of the three scenarios, and what the
-- last frame says.
use inspect_element.Prelude.{ℕ, ◌-◌, Bool, true, false, List, [], ◌∷◌, length}
use inspect_element.Prelude.Texts.{Text, codes}

pub data DemoScenario : Type 0 where
  legit blocked overspend : DemoScenario

pub data StageNode : Type 0 where
  owner_node agent_node guard_node target_node receipt_node : StageNode

pub data PhaseKind : Type 0 where
  normal guard_evaluating guard_deny guard_warn hold terminal : PhaseKind

pub record Phase : Type 0 where
  pub id : Text
  pub label : Text
  pub detail : Text
  pub node : StageNode
  pub duration_ms : ℕ
  pub kind : PhaseKind
  pub holds_for_real_result : Bool

unfoldable pub legit_phases : List Phase
legit_phases =
    record {
      id = codes "intent";
      label = codes "Intent matched";
      detail = codes "Owner's signed manifest loaded from vault.";
      node = owner_node;
      duration_ms = 500;
      kind = normal;
      holds_for_real_result = false;
    }
    ∷ record {
      id = codes "dispatch";
      label = codes "Agent dispatched";
      detail = codes "Runtime assembles tx · 2.0 USD → allowlisted merchant.";
      node = agent_node;
      duration_ms = 650;
      kind = normal;
      holds_for_real_result = false;
    }
    ∷ record {
      id = codes "guard-eval";
      label = codes "Guard evaluating";
      detail = codes "Policy check · allowlist · per-tx cap · daily cap.";
      node = guard_node;
      duration_ms = 700;
      kind = guard_evaluating;
      holds_for_real_result = false;
    }
    ∷ record {
      id = codes "guard-pass";
      label = codes "Policy OK";
      detail = codes "Guard signs · tx forwarded to target.";
      node = guard_node;
      duration_ms = 450;
      kind = normal;
      holds_for_real_result = false;
    }
    ∷ record {
      id = codes "exec";
      label = codes "Target executed";
      detail = codes "Stablecoin transferred on-chain.";
      node = target_node;
      duration_ms = 600;
      kind = normal;
      holds_for_real_result = false;
    }
    ∷ record {
      id = codes "await";
      label = codes "Awaiting receipt";
      detail = codes "Indexer catching the confirmed receipt…";
      node = receipt_node;
      duration_ms = 0;
      kind = hold;
      holds_for_real_result = true;
    }
    ∷ record {
      id = codes "terminal";
      label = codes "Receipt confirmed";
      detail = codes "Ledger updated.";
      node = receipt_node;
      duration_ms = 0;
      kind = terminal;
      holds_for_real_result = false;
    }
    ∷ []

unfoldable pub blocked_phases : List Phase
blocked_phases =
    record {
      id = codes "intent";
      label = codes "Intent matched";
      detail = codes "Owner's signed manifest loaded from vault.";
      node = owner_node;
      duration_ms = 500;
      kind = normal;
      holds_for_real_result = false;
    }
    ∷ record {
      id = codes "dispatch";
      label = codes "Agent dispatched";
      detail = codes "Runtime assembles tx · 20.0 USD → unknown target.";
      node = agent_node;
      duration_ms = 650;
      kind = normal;
      holds_for_real_result = false;
    }
    ∷ record {
      id = codes "guard-eval";
      label = codes "Guard evaluating";
      detail = codes "Counterparty not on owner's allowlist.";
      node = guard_node;
      duration_ms = 900;
      kind = guard_evaluating;
      holds_for_real_result = false;
    }
    ∷ record {
      id = codes "await";
      label = codes "Awaiting verdict";
      detail = codes "Confirming denial with indexer…";
      node = guard_node;
      duration_ms = 0;
      kind = hold;
      holds_for_real_result = true;
    }
    ∷ record {
      id = codes "terminal";
      label = codes "Blocked at guard";
      detail = codes "Stablecoin never moved. No receipt issued.";
      node = guard_node;
      duration_ms = 0;
      kind = terminal;
      holds_for_real_result = false;
    }
    ∷ []

unfoldable pub overspend_phases : List Phase
overspend_phases =
    record {
      id = codes "intent";
      label = codes "Intent matched";
      detail = codes "Owner's signed manifest loaded from vault.";
      node = owner_node;
      duration_ms = 500;
      kind = normal;
      holds_for_real_result = false;
    }
    ∷ record {
      id = codes "dispatch";
      label = codes "Agent dispatched";
      detail = codes "Runtime assembles tx · 15.0 USD → allowlisted merchant.";
      node = agent_node;
      duration_ms = 650;
      kind = normal;
      holds_for_real_result = false;
    }
    ∷ record {
      id = codes "guard-eval";
      label = codes "Guard evaluating";
      detail = codes "Counterparty OK · amount exceeds per-tx cap (10.0).";
      node = guard_node;
      duration_ms = 800;
      kind = guard_warn;
      holds_for_real_result = false;
    }
    ∷ record {
      id = codes "guard-pass-amber";
      label = codes "Forwarded · flagged";
      detail = codes "Executes under recourse window. Challengeable.";
      node = guard_node;
      duration_ms = 500;
      kind = guard_warn;
      holds_for_real_result = false;
    }
    ∷ record {
      id = codes "exec";
      label = codes "Target executed";
      detail = codes "Stablecoin transferred · receipt marked challengeable.";
      node = target_node;
      duration_ms = 600;
      kind = normal;
      holds_for_real_result = false;
    }
    ∷ record {
      id = codes "await";
      label = codes "Awaiting receipt";
      detail = codes "Indexer confirming challengeable receipt…";
      node = receipt_node;
      duration_ms = 0;
      kind = hold;
      holds_for_real_result = true;
    }
    ∷ record {
      id = codes "terminal";
      label = codes "Receipt · recourse open";
      detail = codes "File AmountViolation challenge from receipt page.";
      node = receipt_node;
      duration_ms = 0;
      kind = terminal;
      holds_for_real_result = false;
    }
    ∷ []

unfoldable pub get_phases : DemoScenario → List Phase
get_phases legit = legit_phases
get_phases blocked = blocked_phases
get_phases overspend = overspend_phases

unfoldable pub get_terminal_index : DemoScenario → ℕ
get_terminal_index scenario = length (get_phases scenario) - 1
