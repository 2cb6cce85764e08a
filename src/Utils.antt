-- ===== src/Utils.antt =====
-- utils: the helpers of the protocol.
pub mod MessagePack
