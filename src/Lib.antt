-- ===== src/Lib.antt =====
-- NgenOrca is a personal assistant: a gateway takes messages from chat channels, finds out who wrote
-- them, keeps a session for each user and channel, asks a language model, and remembers. This library
-- models the parts of it whose logic stands on its own.
--
-- Base holds what the parts share: Boolean tests and lists on native numbers, results with `?`, maps
-- as association lists with their laws, wrapping addition, and texts as lists of bytes.
--
-- WaBinary models crates/ngenorca-whatsapp-web/src/binary.rs, the binary XML that the WhatsApp client
-- exchanges with the server. Tokens is the dictionary (`SINGLE_BYTE_TOKENS`), Node is `WaNode` and its
-- accessors, Encoder is `encode` with the `write_` functions, Decoder is `decode`, `decode_raw`, the
-- cursor and the `read_` functions. The functions of the source that call each other pass the call
-- they make as an argument here. The decoder runs on fuel, the number of bytes of its input and one:
-- every call in depth consumes a byte.
--
-- Memory.Working models crates/ngenorca-memory/src/working.rs: contexts with a token budget, where a
-- push evicts the oldest messages that are not system messages. The eviction loop runs on fuel, the
-- number of messages and one, and each turn removes a message.
--
-- Core models the errors of crates/ngenorca-core/src/error.rs and the session types of
-- crates/ngenorca-core/src/session.rs, which the gateway uses.
--
-- Gateway.Sessions models crates/ngenorca-gateway/src/sessions.rs: the sessions, the map from a user
-- and a channel to the current session, and all methods on them. Times, new UUIDs and the range of
-- times of chrono are arguments.
-- Owned states how the two maps fit together and Reached is the relation of states that the methods
-- lead to; Promoted lists the ways out of `promote_to_user`.
--
-- Gateway.RateLimit models crates/ngenorca-gateway/src/rate_limit.rs. Spec is a sliding window over the
-- log of all admitted requests; Refinement relates the queues of the limiter to it.
--
-- Gateway.Retry models crates/ngenorca-gateway/src/providers/retry.rs: the loop with doubled delays,
-- on fuel of one call more than there are retries. `Error::is_transient` decides what is repeated.
--
-- WaSignal models the ratchets of crates/ngenorca-whatsapp-web/src/signal.rs over the cryptographic
-- crates, which are parameters (hashing, AES, X25519), with what is relied on as hypotheses.
--
-- WaNoise models crates/ngenorca-whatsapp-web/src/noise.rs, the handshake and the transport under the
-- WhatsApp client, over the same kind of parameters. A method answers its result and the handler that it
-- leaves, also when it fails; counters wrap at 2 ^ 32.
--
-- Identity.Candidates and Identity.Device model crates/ngenorca-identity/src/resolver.rs.
-- Candidates is `channel_handle_candidates` with the `push_` and `strip_` functions; Texts holds the
-- methods of `str` that they call, on code points, where stripping a prefix repeatedly has the length
-- of the text as fuel. Device is `resolve_from_device`, over the store, base64 and Ed25519 as
-- parameters. Identity.Store models the tables of crates/ngenorca-identity/src/store.rs with their
-- keys and references, and Identity.Manager the `IdentityManager` of
-- crates/ngenorca-identity/src/lib.rs on them: linking channels, pairing and challenges. The types
-- are those of Core.Identity.
--
-- Gateway.Auth models crates/ngenorca-gateway/src/auth.rs: the middleware as a function of the
-- configuration and the request, and the test of an address against a CIDR block on bits. Shown says
-- what each mode asks for.
--
-- Gateway.Routing models how crates/ngenorca-gateway/src/orchestration/orchestrator.rs picks the agent
-- of a task (`route_with_learned` and the functions that it calls) and `find_escalation_target`. The
-- types are those of Core.Orchestration. Fit says which agents are fit for a task; what the learned router answers is an argument, and the
-- prompt and the reason of a decision are left out.
--
-- Gateway.Quality models the heuristic gate of crates/ngenorca-gateway/src/orchestration/quality.rs
-- over the arithmetic of `f64` and the table of lower case as arguments. Good says which answers it
-- means to accept.
--
-- Gateway.Workspace models the paths and the policy of crates/ngenorca-gateway/src/tools.rs: a path is
-- its components, and a request is resolved against the workspace by name, without the file system.
--
-- Bus models crates/ngenorca-bus/src/event_log.rs and lib.rs: the log is a table ordered by id when
-- read, which a bus is opened on with the rows that are stored, and publishing writes to it before it
-- broadcasts. Resume is a subscriber that replays and catches up. Bus.Subscriber is
-- crates/ngenorca-bus/src/subscriber.rs; draining a channel runs on fuel of one call more than the
-- channel holds items.
--
-- Not modelled are the encoding of SQL columns, HTTP, sockets, the calls of models, and the crates
-- of others. Locks are not modelled: each method holds them as a whole or, where it takes them in
-- turn, is run alone.
pub mod Base
pub mod Bus
pub mod Core
pub mod WaBinary
pub mod Memory
pub mod Gateway
pub mod WaSignal
pub mod Identity
pub mod WaNoise
