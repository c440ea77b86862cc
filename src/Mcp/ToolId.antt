-- ===== src/Mcp/ToolId.antt =====
-- The ids of MCP tools, `mcp.<server>.<tool>`: toolIDPrefix of
-- internal/module/agent/infrastructure/mcp/provider.go and parseToolID of executor.go there.

use text.Mathlib.TextLemmas.{append_assoc}
use kubeflare.Prelude.Dots.{
  strip_prefix, strip_prefix-append, strip_prefix_sound, split_at_dot, has_dot, is_empty,
  split_at_dot-append, split_at_dot_sound,
}
use kubeflare.Prelude.{
  ◌≡◌, String, ◌<>◌, false, ◌||◌, Option, none, some, arith, if◌then◌else◌, inl, inr, Option-cases,
}

-- `index <= 0 || index >= len(rest)-1` is that one of the two texts is empty.
abbrev both_named : Option (String × String) → Option (String × String)
both_named none = none
both_named (some (server, tool)) =
    if is_empty server || is_empty tool then none else some (server, tool)

abbrev after_prefix : Option String → Option (String × String)
after_prefix none = none
after_prefix (some rest) = both_named (split_at_dot rest)

unfoldable pub parse_tool_id : String → Option (String × String)
unfolding strip_prefix split_at_dot
parse_tool_id tool_id = after_prefix (strip_prefix "mcp." tool_id)

unfoldable pub tool_id_prefix : String → String
tool_id_prefix server = ("mcp." <> server) <> "."

-- An id that can be read is the one made for the server and the name that were read: neither is
-- empty, and the server's name has no dot.
pub parse_tool_id_sound :
    (tool_id server tool : String)
    → parse_tool_id tool_id ≡ some (server, tool)
    → (tool_id ≡ tool_id_prefix server <> tool)
      × (has_dot server ≡ false)
      × (is_empty server ≡ false)
      × (is_empty tool ≡ false)
unfolding parse_tool_id tool_id_prefix
parse_tool_id_sound tool_id server tool h = elim (Option-cases (strip_prefix "mcp." tool_id)) [
  | inl e ↦ absurd (ground (arith, e))
  | inr (rest, e) ↦ elim (Option-cases (split_at_dot rest)) [
    | inl f ↦ absurd (ground (arith, e, f))
    | inr ((s, t), f) ↦
        let whole = strip_prefix_sound "mcp." tool_id rest e in
        let parts = split_at_dot_sound rest s t f in
        rw (append_assoc, append_assoc) (ground (arith, e, f, whole, parts))
  ]
]

-- The id that is made for a tool is read back as its server and its name, when the server's name has
-- no dot and neither name is empty.
pub parse_tool_id-prefix :
    (server tool : String)
    → has_dot server ≡ false
    → is_empty server ≡ false
    → is_empty tool ≡ false
    → parse_tool_id (tool_id_prefix server <> tool) ≡ some (server, tool)
unfolding parse_tool_id tool_id_prefix
parse_tool_id-prefix server tool plain named called =
    rw (append_assoc, append_assoc, strip_prefix-append)
      (ground (arith, split_at_dot-append server tool))
