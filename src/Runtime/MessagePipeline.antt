-- ===== src/Runtime/MessagePipeline.antt =====
-- app/runtime/message_pipeline.py: what an incoming event is parsed to, and how it is queued and
-- handled.
pub mod Values
pub mod Texts
pub mod Routes
pub mod Routing
pub mod Parse
pub mod Queue
mod Examples
use xianyu_manager.Prelude.{String, ℕ}
use Values.{Json, Fields}

pub data MessageRoute : Type 0 where
  chat order heartbeat system unknown invalid : MessageRoute

-- `QueuePriority`
abbrev pub priority_heartbeat : ℕ
priority_heartbeat = 0

abbrev pub priority_order : ℕ
priority_order = 1

abbrev pub priority_chat : ℕ
priority_chat = 2

abbrev pub priority_other : ℕ
priority_other = 3

pub record ParsedMessage : Type 0 where
  pub message_id : String
  pub route : MessageRoute
  pub sender_id : String
  pub item_id : String
  pub order_id : String
  pub content : String
  pub raw : Fields
  pub queue_priority : ℕ
