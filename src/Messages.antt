-- ===== src/Messages.antt =====
-- The messages of messages/*.h: identifiers, payloads, and the message as a tagged payload.
mod Ids
mod Payloads
unfoldable pub use Ids.*
unfoldable pub use Payloads.*
