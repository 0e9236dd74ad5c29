-- ===== src/Servers.antt =====
-- The server command of apps/ibc-attestor/src/bin/ibc_attestor/main.rs: the main task and the two
-- tasks that it spawns, with the channel by which it shuts them down. The servers that the tasks run
-- are of the tonic and warp crates; a task's server may end by itself, and panics end it too.
pub mod Phases
pub mod Ending
pub mod Served
pub mod Counted
pub mod Proved
use ibc_attestor.Common.{
  ℕ, zero, suc, String, ◌<>◌, ◌≡◌, Bool, true, false, Option, none, some, Result, ok, err, map_err,
}
use ibc_attestor.Adapter.Dispatch.{adapter_name, adapter_enum}
use ibc_attestor.Config.{ConfigError, RuntimeConfig}
use ibc_attestor.Crates.{Crates}
use ibc_attestor.Metrics.Registry.{Prometheus, Metrics, init}
use ibc_attestor.Rpc.Attestor.{AttestorService}
use ibc_attestor.Rpc.Middleware
use ibc_attestor.Rpc.Middleware.{LoggingMiddleware}
use ibc_attestor.Signer.Dispatch.{signer_name, signer_enum}

-- An error of tonic's transport, as its text.
pub data RpcError : Type 0 where
  tonic_error : String → RpcError

unfoldable pub rpc_error_text : RpcError → String
rpc_error_text (tonic_error e) = "TonicError: " <> e

-- What `main` fails with: a `JoinError` is that a task has panicked.
pub data Failure : Type 0 where
  config : ConfigError → Failure
  rpc : RpcError → Failure
  join_error : Failure

-- A receiver of the broadcast channel: a message reaches those that have subscribed before it.
pub data Receiver : Type 0 where
  absent subscribed notified : Receiver

abbrev pub sent : Receiver → Receiver
sent absent = absent
sent subscribed = notified
sent notified = notified

pub data Task (A : Type 0) : Type 0 where
  unspawned running panicked : Task A
  finished : A → Task A

-- Where `main` is.
pub data Main (c : Crates) : Type 0 where
  configured : RuntimeConfig c → Main c
  awaiting_signal awaiting_grpc awaiting_health : Main c
  returned : Result Failure (Unit {0}) → Main c

pub record System (x : Prometheus) (c : Crates) : Type 0 where
  pub main : Main c
  pub metrics : Option (Metrics x)
  -- what the gRPC server serves
  pub service : Option (AttestorService c)
  pub grpc : Task (Result RpcError (Unit {0}))
  pub health : Task (Unit {0})
  pub grpc_shutdown_rx : Receiver
  pub health_shutdown_rx : Receiver

-- The match at the end of `server::start`, on what `serve_with_shutdown` ended with.
unfoldable pub serve_result : Result String (Unit {0}) → Result RpcError (Unit {0})
serve_result (ok u) = ok u
serve_result (err e) = err (tonic_error e)

module _ (x : Prometheus) (c : Crates) where
  abbrev at : Main c → System x c
  at main = record {
    main = main;
    metrics = none;
    service = none;
    grpc = unspawned;
    health = unspawned;
    grpc_shutdown_rx = absent;
    health_shutdown_rx = absent;
  }

  -- The start of the command, with what `from_file` returned.
  abbrev pub started : Result ConfigError (RuntimeConfig c) → System x c
  started (err e) = at (returned (err (config e)))
  started (ok loaded) = at (configured loaded)

  -- The service that `server::start` makes.
  abbrev pub service_of : RuntimeConfig c → AttestorService c
  service_of loaded = record {
    adapter = adapter_enum c loaded.adapter;
    adapter_name = adapter_name loaded.adapter;
    signer = signer_enum c loaded.signer;
    signer_name = signer_name c loaded.signer;
  }

  -- What `server::start` serves: the service behind the logging.
  abbrev pub logging_service : RuntimeConfig c → LoggingMiddleware c
  logging_service loaded = Middleware.new c (service_of loaded)

  -- The tasks have the receivers that are subscribed before they are spawned.
  unfoldable pub run_servers : RuntimeConfig c → System x c → System x c
  unfolding init
  run_servers loaded s = record s {
    main = awaiting_signal;
    metrics = init x (adapter_name loaded.adapter) (signer_name c loaded.signer) s.metrics;
    service = some (service_of loaded);
    grpc = running;
    health = running;
    grpc_shutdown_rx = subscribed;
    health_shutdown_rx = subscribed;
  }

  -- `wait_for_shutdown_signal` is over, and `shutdown_tx.send(())` is next.
  unfoldable pub shut_down : System x c → System x c
  shut_down s = record s {
    main = awaiting_grpc;
    grpc_shutdown_rx = sent s.grpc_shutdown_rx;
    health_shutdown_rx = sent s.health_shutdown_rx;
  }

  -- `grpc_handle.await??`, of a task that is over.
  unfoldable pub join_grpc : Task (Result RpcError (Unit {0})) → Option (Main c)
  join_grpc unspawned = none
  join_grpc running = none
  join_grpc panicked = some (returned (err join_error))
  join_grpc (finished (err e)) = some (returned (err (rpc e)))
  join_grpc (finished (ok u)) = some awaiting_health

  -- `health_handle.await?`
  unfoldable pub join_health : Task (Unit {0}) → Option (Main c)
  join_health unspawned = none
  join_health running = none
  join_health panicked = some (returned (err join_error))
  join_health (finished u) = some (returned (ok tt))

  -- The tasks of a `main` that has returned are dropped.
  abbrev pub is_running : Main c → Bool
  is_running (returned r) = false
  is_running _ = true

-- The signals that end the wait. A process that cannot register their handlers panics before it
-- waits, which is left out.
pub data Signal : Type 0 where
  terminate interrupt : Signal

-- One step of one of the tasks. A server that shuts down gracefully does so on the message.
pub data Step (x : Prometheus) (c : Crates) (s : System x c) : System x c → Type 0 where
  launch :
      (loaded : RuntimeConfig c)
      → s.main ≡ configured loaded
      → Step x c s (run_servers x c loaded s)
  signalled : Signal → s.main ≡ awaiting_signal → Step x c s (shut_down x c s)
  grpc_stops :
      is_running x c s.main ≡ true
      → s.grpc ≡ running
      → s.grpc_shutdown_rx ≡ notified
      → Step x c s (record s { grpc = finished (serve_result (ok tt)) })
  grpc_fails :
      (e : String)
      → is_running x c s.main ≡ true
      → s.grpc ≡ running
      → Step x c s (record s { grpc = finished (serve_result (err e)) })
  grpc_panics :
      is_running x c s.main ≡ true → s.grpc ≡ running → Step x c s (record s { grpc = panicked })
  health_stops :
      is_running x c s.main ≡ true
      → s.health ≡ running
      → s.health_shutdown_rx ≡ notified
      → Step x c s (record s { health = finished tt })
  health_panics :
      is_running x c s.main ≡ true
      → s.health ≡ running
      → Step x c s (record s { health = panicked })
  joins_grpc :
      (main : Main c)
      → s.main ≡ awaiting_grpc
      → join_grpc x c s.grpc ≡ some main
      → Step x c s (record s { main = main })
  joins_health :
      (main : Main c)
      → s.main ≡ awaiting_health
      → join_health x c s.health ≡ some main
      → Step x c s (record s { main = main })

-- The states after some number of steps.
pub data Reaches (x : Prometheus) (c : Crates) (start : System x c) : ℕ → System x c → Type 0 where
  here : Reaches x c start zero start
  next :
      (n : ℕ) (s s' : System x c)
      → Reaches x c start n s
      → Step x c s s'
      → Reaches x c start (suc n) s'
