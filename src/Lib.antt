-- ===== src/Lib.antt =====
-- A support desk that answers customers over several channels: an AI replies, hands over to
-- people, and people hand back. Each part of the program that is modelled here stands in a file
-- named for it; paths are from the repository's root.
--
-- How the parts interact. An inbound message or an action in the console is an event of the
-- conversation's state machine, which returns a patch and effects (Conversation). The worker
-- carries the effects out through ports (Effects), which store messages and handoffs and write
-- rows to the outbox in the transaction of the change (Ports); a relay hands the rows to the
-- queues (Outbox). The job of a turn asks the model and ends in a reply, a draft, a suggestion or
-- a handoff (AiTurn). A pass closes the conversations that the customer left (Idle). The job of
-- the outbound queue splits a reply (Text) and sends its parts through a channel adapter
-- (Delivery/Outbound); receipts raise the message's status later (Delivery/Receipts). Every
-- request to an address that a tenant configured goes through a restricted fetch (Egress). What
-- is stored or shown to a model is redacted first (Redaction); models are built once and have a
-- fallback (Models); documents are cut for the search (Chunking). Stored files are
-- fetched by signed links (Media, Tokens). People join a workspace by a link (Invitations),
-- and merge the records of customers that are one person (Customers).
--
-- Which file models what:
--   Prelude        the shared names, Boolean tests on ℕ, and list lemmas.
--   Conversation   packages/core/src/conversation/state-machine.ts: `transition` with
--                  `on_customer_message`; `step` and `emitted` apply its result. The enums are
--                  those of packages/shared/src/conversation.ts. A `Date` is a number; a patch is
--                  an option for each column, since a key that is present may hold null.
--                  Children: State (the data), Trace (histories), Silence, Invariant, Handoff,
--                  Timer.
--   Effects        packages/core/src/conversation/effects.ts: `apply_effects`, with the ports and
--                  the logger of packages/core/src/ports/index.ts as records over a world, and
--                  `process_waiting_human_timeout` of apps/worker/src/processors/waiting-human.ts.
--                  A port that throws answers with `some error`. Children: Order, Reach.
--   Outbox         packages/infra/src/outbox.ts: `enqueue`, `cancel`, `relay_once`, on the table
--                  of packages/db/src/schema/outbox.ts. A UUIDv7 is a number; the queues are a
--                  parameter (`Broker`). Children: Table, Relay, Drain, Cancel, Retaken, and Pump,
--                  which is `startRelay` with its flags and `pruneOutbox`.
--   Text           packages/channels/src/text.ts: `split_text`, on lists of UTF-16 code units.
--                  Children: Trim, Search, Split.
--   Delivery       the message row. Receipts: packages/infra/src/receipts.ts (`apply_receipt`).
--                  Outbound: apps/worker/src/processors/outbound.ts (`process_outbound`); the
--                  adapter and the reads of the database are parameters. Children: Types,
--                  Resume, Guards. RetryKey: `retryKeyFor` of the same file.
--   Egress         packages/infra/src/egress.ts. Address: `isPrivateV4`, `expandV6`,
--                  `isPrivateV6`, `isPrivateAddress`. Fetch: `assertAllowed` and the redirect loop
--                  of `createRestrictedFetch`, over a network that is a parameter (`Net`).
--   Inbound        apps/worker/src/processors/inbound.ts: `handle_event` is the transaction of one
--                  event, Inbound/Job the loop and the job round it. `resolveConversation`, the
--                  parser and `applyReceipt` are parameters of the job. Children: Once, Silence.
--   Models         packages/core/src/ai/registry.ts: `resolve_model` with its cache, and
--                  `run_with_fallback`. Children: Cache, Fallback.
--   Redaction      packages/core/src/redaction/redact.ts: the checksums, the issuer prefixes, the
--                  search for runs of digits and `redactText`. Children: Luhn, Runs, Short, Cards.
--   Ports          packages/infra/src/effect-ports.ts: every port, over the rows that it writes
--                  (Ports/Store: `storeMessage` of packages/infra/src/repo.ts and the unique
--                  indexes of packages/db/src/schema/app.ts). Ports/Jobs: the ids of jobs and the
--                  keys of messages. What the queries of other rows answer is a parameter (`Reads`).
--                  Children of proofs: Keys, Grows, Promised, Records, Ack, Step, Later, Again, Quiet.
--   AiTurn         apps/worker/src/processors/ai-turn.ts: `newer_turn_owed`, `suggest_instead` and
--                  the rows of a turn; AiTurn/HandOff `handOff`, AiTurn/Process `processAiTurn`, a
--                  function for each of its checks, last to first, and AiTurn/Writes
--                  `runPendingWrites` of packages/infra/src/tools.ts. The model's result, what a
--                  tool answers and what the turn learns of the customer are parameters (`Env`),
--                  and so is what other requests do at each `Moment` between two reads.
--                  `send_verification_link` is that of packages/infra/src/identity.ts, its text a
--                  parameter. Children of proofs: Steps, Newer, Handed, Ends, Replies, Withheld,
--                  Earned, Retry.
--   Idle           packages/infra/src/idle-resolve.ts: the search, the close of each candidate and
--                  the pass; `between` is what other requests do before each candidate's
--                  transaction. Children: Rows, Last, Left, Pass, Ties.
--   Invitations    packages/infra/src/invitations.ts, with the purposes of
--                  packages/shared/src/workspace.ts; Invitations/Accept is the accept route of
--                  apps/api/src/routes/invitations.ts. The hash, the lower case of an address and
--                  the authentication library are parameters. Children of proofs: Spent, Single,
--                  Race, Reach, Guards, Entry, Authority, Open, Entitled.
--   Json           JSON values. Text and Json are shared by the parts that read signed payloads.
--   Tokens         packages/channels/src/jwt.ts. Base64: `base64UrlEncode` and `base64UrlDecode`,
--                  Groups that one undoes the other; Envelope: `signPayload`, `verifyEnvelope` and
--                  `verifySignedPayload`, Envelope/Read what they read. HMAC and JSON with its
--                  UTF-8 are a parameter (`Platform`).
--   Media          packages/infra/src/media-serving.ts: keys and headers. Media/Links:
--                  packages/infra/src/media-links.ts and apps/api/src/routes/media.ts, where the
--                  store is a parameter; Media/Uri is `encodeURIComponent`. Children of proofs:
--                  Keys, Served, Let.
--   Customers      packages/infra/src/merge.ts, but for the merge of conversations: Match makes
--                  identifiers comparable (the lower case of an address is a parameter), Propose
--                  has candidates, proposals and rejections, and Customers/Merge is
--                  `mergeCustomers` with what a deletion cascades to, and `acceptMergeSuggestion`;
--                  History runs the operations one after another. `between` is what other requests
--                  do before the transaction of a merge. Children of proofs: Phone, Grounds, Fields,
--                  Kept, Settled, Rejected.
--   Chunking       packages/core/src/rag/chunk.ts: `chunkText` and `chunkQa`. Children: Break,
--                  Cover, Loop.
--
-- Bounds and fuel. `split_loop` runs on one unit more fuel than the text has code units: each
-- round cuts at least one, and so does `chunk_loop`. `relay_once` runs on fuel, since the code has
-- no bound; while the queues work, every full round relays a batch, so one unit more than there
-- are rows to claim is enough. `hops` counts the redirects that remain, as the code does. All
-- other loops are structural: `redact_from` counts the units that still belong to the last match.
--
-- Not modelled: SQL is read as what its clauses say on lists of rows, and a transaction as one
-- step; the text of log lines and realtime announcements; the console, the widget, most HTTP
-- routes, the channel adapters, the searches of retrieval, the loop of the agent and its tools,
-- what is loaded for a turn's prompt, the visitor tokens of host applications, the merge of
-- conversations, and the retention jobs.
pub mod AiTurn
pub mod Chunking
pub mod Conversation
pub mod Customers
pub mod Delivery
pub mod Effects
pub mod Egress
pub mod Idle
pub mod Inbound
pub mod Invitations
pub mod Json
pub mod Media
pub mod Models
pub mod Outbox
pub mod Ports
pub mod Prelude
pub mod Redaction
pub mod Text
pub mod Tokens
