-- ===== src/Lib.antt =====
-- loxwebsocketclient-rs: a client of the Loxone Miniserver's WebSocket.
--
-- A connection begins with a handshake, in which the keys of the session and a token are
-- exchanged. Then a writer encrypts commands with a salt sequence and sends them, a reader takes
-- the Miniserver's frames apart (a header frame, then the payload it announces) and hands events to
-- a handler, answers to the queue of waiting commands. A supervisor runs session after session and
-- decides after each whether and when to reconnect.
--
-- Which file models what (paths from the root of the repository):
--   * Prelude: shared names, tests into Bool, lists and slices over the native numbers, integers.
--   * Error: src/error.rs, the variants without their texts.
--   * Str: the methods of `str` that the code uses, on the bytes of a text.
--   * Policy: src/client/reconnect.rs and src/client/keepalive.rs.
--   * Uuid: src/uuid.rs. Hex has the digits, RoundTrip and Accepts the laws of the parser.
--   * Proto: src/proto/. Header, Value, Text, Daytimer and Weather model the files of that name; Elems,
--     Fields and Loop what they share. A walk returns the list of what it hands to its callback.
--   * Session: src/crypto/session.rs. Salt and Chain follow the salt sequence.
--   * Pending: src/client/pending.rs. Fifo, Expiry, Echo and Label have its laws;
--     Scan is the search for the `control` field of an answer; Mask, Word and Find are
--     about its search by words, Occurrence, Key and Field about the field.
--   * Liveness: the type of that name in src/client/state.rs, and the writer's keepalive tick.
--   * Metrics: src/metrics.rs.
--   * Handler: the events and the guard of src/client/handler.rs; Handler/Channel: its ChannelHandler.
--   * Reader: src/client/reader.rs, the loop and the alternation of headers and payloads; what a
--     message does is a parameter. Framing has the law of the frames.
--   * Dispatch: the same file, what a message does: events to the handler, answers to the queue, a salt
--     answer to the secured commands. Order composes it with the reader's loop,
--     Secured is about the secured commands.
--   * Writer: src/client/writer.rs and src/client/visu.rs, the decisions of
--     the loop. Deadlines has the law of the queue's order. Writer/Close: the loop itself, the graceful
--     close and the end of a session, with Calm and Kept for their law, and Owed, Balance and Answered for
--     what its callers are answered.
--   * Supervisor: src/client/io.rs. A round of its loop takes a Session, the record of what the
--     network, the Miniserver, the clock and the `stopped` flag answer. Whether the URL and the TLS configuration can be used is an argument
--     too. Closing and Budget have its laws; Sleep is its wait, with a
--     clock in milliseconds.
--   * Hash and Token: src/crypto/hash.rs and src/auth/token.rs. Flow: src/auth/flow.rs.
--   * Store: src/auth/store.rs. Record has the round trip of the file's text, Refine the contract that
--     the file keeps. Shared: the token in src/client/state.rs, over any store with the laws of
--     Shared.Mirror, which Store.Refine fills.
--   * Handshake: src/client/handshake.rs. Payload has the law of its reading loop over the frames of
--     Script, Auth and Rejection what it does to the token. Refresh: src/client/refresh.rs, and in Attempts its laws.
--   * Tls: src/client/tls.rs, with Pin. Http: src/client/http.rs, with Probe; Http.Pem is
--     src/crypto/rsa_key.rs. Connect: src/client/connect.rs; Connect/Net how a WebSocket is opened and
--     how src/client/http.rs sends a request, as the list of what it does to the network, with Secured;
--     Connect/Abort the read half.
--   * Facade: the methods of src/client/mod.rs, with Queue; Facade/Config its
--     configuration, Facade/Life how a client comes to be and ends. Collect: src/collect.rs, with Last;
--     Collect/Hasher its hasher, with Distinct.
--   * Bits: the digits of the bitwise operations, for the search by words and the hasher.
--   * Json and Samples: the JSON crate as a record, and concrete parameters for the tests.
--
-- Numbers are natural numbers; a machine integer's wrap-around is written out. A loop that the
-- structure of a list does not bound takes fuel: one round more than the payload has bytes, which is
-- enough since each round takes a byte at least. AES, Base64 and
-- percent-decoding belong to other crates and are fields of a record that the definitions take; so
-- are the clock and the random generator. The answers that the reader gets while the writer writes are placed
-- behind the expiry of that round. A oneshot channel is a number, and what is sent into it is a
-- reply that the operation returns. Whether the user's handler panics at an event is a parameter.
--
-- The handshake's reading loop has the source's own budget of 64 header frames; the scan for
-- `control` has a round for each byte of its window, and each round goes on behind a quote.
-- The wait between two connections has one look at the stop flag for each slice of it and one more.
-- The digests, certificates, RSA, the JSON and the URL parser, the file system, the network and the
-- answer to an HTTP request are such parameters too.
--
-- Tasks run on a machine that keeps the order of each task's loads and stores.
--
-- Not modelled: the snapshot of the metrics, the insides of sockets, of the WebSocket upgrade and of TLS handshakes, which answer
-- as a parameter says, the insides of RSA, file modes, the spawning and joining of tasks, logging.
pub mod Bits
pub mod Collect
pub mod Connect
pub mod Dispatch
pub mod Error
pub mod Facade
pub mod Flow
pub mod Handler
pub mod Handshake
pub mod Hash
pub mod Http
pub mod Json
pub mod Liveness
pub mod Metrics
pub mod Pending
pub mod Policy
pub mod Prelude
pub mod Proto
pub mod Reader
pub mod Refresh
pub mod Samples
pub mod Session
pub mod Shared
pub mod Store
pub mod Str
pub mod Supervisor
pub mod Tls
pub mod Token
pub mod Uuid
pub mod Writer
