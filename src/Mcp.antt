-- ===== src/Mcp.antt =====
-- internal/module/agent/infrastructure/mcp: the connections to external MCP servers.
pub mod Breaker
pub mod ToolId
pub mod Manager
pub mod Supervise
pub mod Tools
