-- ===== src/Store/Traces.antt =====
-- services/infra/src/store/traces.ts: pinned decision traces with their signed acknowledgement,
-- keyed by context digest.
use inspect_element.Prelude.{ℕ, Bool, Option, none, some, List, if◌then◌else◌}
use inspect_element.Prelude.Texts.{Text, text_eq, to_lower, is_empty}
use inspect_element.Prelude.Tables.{find, upsert}
use inspect_element.Store.Provider.{Provider, sqlite, supabase}

pub record TraceRow : Type 0 where
  pub context_digest : Text
  pub trace_uri : Text
  pub uri_hash : Text
  pub agent_id : Option Text
  pub owner : Option Text
  pub trace_json : Text
  pub expires_at : ℕ
  pub signer : Text
  pub signature : Text
  pub created_at : ℕ

pub record InsertTraceInput : Type 0 where
  pub context_digest : Text
  pub trace_uri : Text
  pub uri_hash : Text
  pub agent_id : Option Text
  pub owner : Option Text
  pub trace_json : Text
  pub expires_at : ℕ
  pub signer : Text
  pub signature : Text

-- `x ? x.toLowerCase() : null`
abbrev pub lower_or_null : Option Text → Option Text
lower_or_null none = none
lower_or_null (some s) = if is_empty s then none else some (to_lower s)

unfoldable pub trace_row : ℕ → InsertTraceInput → TraceRow
trace_row now i = record {
  context_digest = to_lower i.context_digest;
  trace_uri = i.trace_uri;
  uri_hash = to_lower i.uri_hash;
  agent_id = lower_or_null i.agent_id;
  owner = lower_or_null i.owner;
  trace_json = i.trace_json;
  expires_at = i.expires_at;
  signer = to_lower i.signer;
  signature = to_lower i.signature;
  created_at = now;
}

unfoldable pub trace_merge : Provider → TraceRow → TraceRow → TraceRow
trace_merge sqlite row old = record old {
  trace_uri = row.trace_uri;
  uri_hash = row.uri_hash;
  expires_at = row.expires_at;
  signer = row.signer;
  signature = row.signature;
}
trace_merge supabase row old = row

abbrev pub has_digest : Text → TraceRow → Bool
has_digest key t = text_eq t.context_digest key

unfoldable pub insert_trace : Provider → ℕ → InsertTraceInput → List TraceRow → List TraceRow
insert_trace provider now i table =
    let row = trace_row now i in
    upsert (has_digest row.context_digest) (trace_merge provider row) row table

unfoldable pub get_trace_by_digest : Text → List TraceRow → Option TraceRow
get_trace_by_digest context_digest table = find (has_digest (to_lower context_digest)) table
