-- ===== src/Trace/Serialize.antt =====
-- packages/trace/src/serialize.ts: normalizeTrace and serializeCanonical.
use inspect_element.Prelude.{List, [], ◌∷◌}
use inspect_element.Prelude.Texts.{Text, codes}
use inspect_element.Prelude.Results.{Result, ◌>>=◌}
use inspect_element.Canonical.Value.{
  Json, array, object, Items, no_items, item, Entries, no_entries, entry,
}
use inspect_element.Canonical.Stringify.{stringify}
use inspect_element.Trace.Validation.{
  get, entries_of, prop, session_keys, prompt_keys, tool_call_keys, observation_keys, action_keys,
  validate_decision_trace,
}

-- An object literal that copies the fields of these names.
abbrev pub pick : List Text → Entries → Entries
pick [] es = no_entries
pick (k ∷ ks) es = entry k (get k es) (pick ks es)

abbrev pub copied : List Text → Json → Json
copied ks v = object (pick ks (entries_of v))

abbrev pub map_items : (Json → Json) → Items → Items
map_items f no_items = no_items
map_items f (item v vs) = item (f v) (map_items f vs)

-- `v.map(f)`
abbrev pub mapped : (Json → Json) → Json → Json
mapped f (array vs) = array (map_items f vs)
mapped f v = v

unfoldable pub normalize_trace : Json → Json
normalize_trace v = object (
    entry (codes "schemaVersion") (prop (codes "schemaVersion") v) (
      entry (codes "agentId") (prop (codes "agentId") v) (
        entry (codes "owner") (prop (codes "owner") v) (
          entry (codes "intentHash") (prop (codes "intentHash") v) (
            entry (codes "session") (copied session_keys (prop (codes "session") v)) (
              entry (codes "prompts") (mapped (copied prompt_keys) (prop (codes "prompts") v)) (
                entry (codes "toolCalls")
                  (mapped (copied tool_call_keys) (prop (codes "toolCalls") v))
                  (entry (codes "observations")
                    (mapped (copied observation_keys) (prop (codes "observations") v))
                    (entry (codes "proposedAction")
                      (copied action_keys (prop (codes "proposedAction") v))
                      (entry (codes "nonce") (prop (codes "nonce") v) no_entries))))))))))

unfoldable pub serialize_canonical : Json → Result Text
serialize_canonical v = validate_decision_trace v >>= λ _. stringify (normalize_trace v)
