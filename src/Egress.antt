-- ===== src/Egress.antt =====
-- Restricted egress for every URL a tenant can type: packages/infra/src/egress.ts. `Address` reads
-- addresses; `Fetch` is the client that follows redirects by hand.
pub mod Address
pub mod Fetch
mod Tests
