-- ===== src/Mcp.antt =====
-- src/mcp.rs: the MCP mock over Streamable HTTP.
pub mod Scan
pub mod Json
pub mod Objects
pub mod Fragments
pub mod Dispatch
pub mod Sse
pub mod Service
mod Tests
