-- ===== src/Services.antt =====
-- app/services: the rules that a seller sets, and the state of orders.
pub mod AutoConfirm
pub mod ReplyPolicy
pub mod LoginService
pub mod Shipping
pub mod AiReply
