-- ===== src/Gateway.antt =====
-- internal/pkg/gateway: WebSocket connections, their manager, and the handler of messages.
pub mod Connection
pub mod Manager
pub mod Handler
pub mod Pumps
pub mod Wire
mod Examples
