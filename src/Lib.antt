-- ===== src/Lib.antt =====
-- The IBC attestor: a service that attests, with a signature, to the state of a chain and to the
-- packet commitments that are stored on it.
--
-- How the parts interact. A gRPC request reaches `AttestorService`, which asks its adapter for the
-- finalized height of the chain, compares the requested height with it, asks the adapter for what is
-- attested, a timestamp or one commitment for each packet, and has its signer sign the ABI encoding
-- of that. The adapter is one of three, for EVM, Solana and Cosmos chains, and calls its chain client
-- through a common retry policy. The signer is a local key or a remote service. The server command
-- loads the configuration, which says which adapter and signer there are, sets up the metrics, and
-- runs a gRPC and a health server until a signal comes; the key commands make and show local keys.
--
-- The files, with the code that each models (paths from the root of the repository,
-- or else from apps/ibc-attestor/src):
--   Common and Common/*   lists, results, integers and texts
--   World     what is asked of the outside, from the adapters and proto/signer, and the metrics
--             calls of metrics.rs
--   Future    asynchronous code, Future/Runs its runs, Future/Among interleaved ones, Future/Collect
--             the interleaved collection, Future/Emitted the metrics of a future
--   Crates    the third-party crates, as a parameter with their documented laws
--   Error     apps/ibc-attestor/src/error.rs, with the errors of adapter/mod.rs and signer/mod.rs
--   Adapter   the trait of adapter/mod.rs; Adapter/Dispatch its enum; Adapter/Retry retry.rs;
--             Adapter/Evm evm.rs; Adapter/Solana solana.rs; Adapter/Cosmos cosmos.rs
--   Process   files, environment variables and standard output, as a state
--   Keys      libs/ethereum/keys/src/signature.rs and recover.rs; Keys/Keystore signer_local.rs
--   Signer    the trait of signer/mod.rs; Signer/Dispatch its enum; Signer/Local local.rs;
--             Signer/Remote remote.rs
--   Attestation   attestation_payload.rs and attestation.rs
--   Metrics   the labels and the tracking of requests, of metrics.rs; Metrics/Registry its registry
--   Config    config.rs; Logging the traces of logging.rs; Cli bin/ibc_attestor/cli.rs
--   Commands  the key commands of bin/ibc_attestor/main.rs; Servers its server command, with the end
--             of rpc/server.rs
--   Packets   the batch of packets of lib.rs
--   Rpc       the messages of proto/ibc_attestor; Rpc/Attestor rpc/attestor.rs; Rpc/Middleware
--             rpc/middleware.rs; Rpc/Health rpc/health.rs; Rpc/Interceptor rpc/interceptor.rs, and the
--             interceptor of signer/remote.rs
--   Tests     toy crates, and runs at concrete inputs; Tests/Attestor the tests of rpc/attestor.rs,
--             Tests/Labels those of attestation_payload.rs and of the labels of metrics.rs,
--             Tests/Signed those of attestation.rs and error.rs
-- Definitions have the names of the functions that they model. A Rust function that returns a
-- `Result` is one that returns a `Result` here; an `async` one returns a `Future` of it, and `?` is
-- the arrow of a do block. Where a function is long, its end stands in a definition of its own.
--
-- A future is a tree: it is ready, or awaits the answer to a request, or records a metric. `Run t h a`
-- says that `t` ends with `a` when the answers and metrics in `h` come, in this order. No answer is
-- assumed: an adapter's client may answer anything, and differently each time. There is no fuel: a
-- future is well-founded, and `run` runs it to its end against every environment.
--
-- Numbers. `u64` values are natural numbers, without a bound, as nothing in the service adds to them;
-- saturating subtraction of unsigned numbers is that of the natural numbers, and the conversions to
-- `i64` are written out. The counter of attempts wraps at 256. An `f64` is a sign and a multiple of
-- the smallest positive double, or not finite.
--
-- The key commands and the loading of a configuration are functions on the state of a process: what
-- is at each path of its disk, its environment variables and its output. Two paths are the same
-- place only where they are the same bytes. The server command is a step relation: `main` and the two
-- tasks that it spawns take their steps in any order, and a server may fail at any time. A graceful
-- server stops on the message of the broadcast channel.
--
-- Not modelled. Log lines and spans are left out, as they do not change what is returned. The sockets
-- of the servers, the contexts of spans and the subscriber of the logs are those of third-party crates.
-- Hashes, signatures, ABI and protobuf encodings, derived accounts, the chain clients, retries,
-- `FuturesOrdered`, keystores, TOML, the filters of warp and prometheus belong to such crates: what the
-- theorems need of them is a law beside their functions, and the toy crates of Tests meet the laws.
-- That the handlers of the signals can be registered is taken for granted: `main` panics where they
-- cannot. Paths are taken to be UTF-8, as every path of a TOML file is.
pub mod Common
pub mod World
pub mod Future
pub mod Crates
pub mod Error
pub mod Adapter
pub mod Metrics
pub mod Process
pub mod Keys
pub mod Signer
pub mod Commands
pub mod Config
pub mod Logging
pub mod Cli
pub mod Attestation
pub mod Packets
pub mod Rpc
pub mod Servers
mod Tests
