-- ===== src/Mcp/Tools/Trust.antt =====
-- What a server's tools become: each can be found again by its id, and is read-only by trust alone.
use kubeflare.Prelude.{
  ◌≡◌, refl, String, ◌<>◌, false, some, List, [], ◌∷◌, All, Bool-cases, inl, inr,
}
use kubeflare.Prelude.Text.{trim_space}
use kubeflare.Mcp.ToolId.{parse_tool_id, parse_tool_id-prefix}
use kubeflare.Prelude.Dots.{is_empty, has_dot}
use kubeflare.Mcp.Tools.{
  ServerConfig, RemoteTool, ToolDefinition, contains, tool_definition, to_tool_definitions,
}

-- A definition is that of one of the server's tools, with this name: its id leads back to the server
-- and the name, and it is read-only exactly if the configuration trusts the name.
pub record Exposes (cfg : ServerConfig) (d : ToolDefinition) : Type 0 where
  pub name : String
  pub named : is_empty name ≡ false
  pub leads_back : parse_tool_id d.id ≡ some (cfg.name, name)
  pub trusted : d.read_only ≡ contains cfg.trusted_tools name
  pub sourced : d.source ≡ "mcp:" <> cfg.name

tool_definition-Exposes :
    (cfg : ServerConfig) (tool : RemoteTool) (name : String)
    → has_dot cfg.name ≡ false
    → is_empty cfg.name ≡ false
    → is_empty name ≡ false
    → Exposes cfg (tool_definition cfg tool name)
unfolding tool_definition
tool_definition-Exposes cfg tool name plain called named = record {
  name = name;
  named = named;
  leads_back = parse_tool_id-prefix cfg.name name plain called named;
  trusted = refl;
  sourced = refl;
}

-- For a server whose name is not empty and has no dot, every tool that is exposed has an id from which
-- the server and the tool's name are read back, belongs to the server's source, and is read-only
-- exactly if the configuration declares that name trusted.
pub to_tool_definitions-Exposes :
    (cfg : ServerConfig) (remote : List RemoteTool)
    → has_dot cfg.name ≡ false
    → is_empty cfg.name ≡ false
    → All (Exposes cfg) (to_tool_definitions cfg remote)
unfolding to_tool_definitions
to_tool_definitions-Exposes cfg [] plain called = tt
to_tool_definitions-Exposes cfg (tool ∷ tools) plain called =
    elim (Bool-cases (is_empty (trim_space tool.name))) [
      | inl blank ↦ rw blank (to_tool_definitions-Exposes cfg tools plain called)
      | inr named ↦ rw named (
        tool_definition-Exposes cfg tool (trim_space tool.name) plain called named,
        to_tool_definitions-Exposes cfg tools plain called,
      )
    ]
