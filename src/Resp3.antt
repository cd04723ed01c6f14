-- ===== src/Resp3.antt =====
-- resp3/: the protocol's kinds, the input buffer, the raw tree, the parser and the message builder.
pub mod Kind
pub mod Buffer
pub mod Raw
pub mod Scan
pub mod Parser
pub mod Message
pub mod Builder
