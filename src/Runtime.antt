-- ===== src/Runtime.antt =====
-- app/runtime: what runs for each account.
pub mod Dedupe
pub mod WsClient
pub mod MessagePipeline
pub mod AccountRegistry
pub mod TokenRefresh
