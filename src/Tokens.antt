-- ===== src/Tokens.antt =====
-- Signed tokens: packages/channels/src/jwt.ts. Texts are lists of UTF-16 code units, and bytes are
-- numbers. HMAC, and JSON with its encoding in UTF-8, are parameters.
pub mod Base64
pub mod Groups
pub mod Envelope
use chatbot_integration.Prelude.{ℕ}
