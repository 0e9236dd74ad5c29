-- ===== src/Servers/Phases.antt =====
-- What holds of the tasks while `main` is where it is.
use ibc_attestor.Common.{
  ℕ, ◌≡◌, refl, sym, ap, Bool, true, false, Bool-cases, ◌⊎◌, inl, inr, none, some, Result, ok, err,
  some_injective,
}
use ibc_attestor.Adapter.Dispatch.{adapter_name}
use ibc_attestor.Config.{RuntimeConfig}
use ibc_attestor.Crates.{Crates}
use ibc_attestor.Metrics.Registry.{Prometheus, new, init}
use ibc_attestor.Servers.{
  RpcError, Failure, config, rpc, join_error, subscribed, notified, sent, Task, unspawned, running,
  panicked, finished, Main, configured, awaiting_signal, awaiting_grpc, awaiting_health, returned,
  System, serve_result, at, started, service_of, run_servers, shut_down, join_grpc, join_health,
  is_running, Step, launch, signalled, grpc_stops, grpc_fails, grpc_panics, health_stops,
  health_panics, joins_grpc, joins_health, Reaches, here, next,
}
use ibc_attestor.Signer.Dispatch.{signer_name}

abbrev pub is_spawned : {A : Type 0} → Task A → Bool
is_spawned unspawned = false
is_spawned running = true
is_spawned panicked = true
is_spawned (finished a) = true

-- The server has stopped without an error.
abbrev pub grpc_stopped : Task (Result RpcError (Unit {0})) → Bool
grpc_stopped (finished (ok u)) = true
grpc_stopped _ = false

abbrev pub health_stopped : Task (Unit {0}) → Bool
health_stopped (finished u) = true
health_stopped _ = false

module _ (x : Prometheus) (c : Crates) (loaded : RuntimeConfig c) where
  -- Both servers are set up for the configuration, and so is the registry.
  abbrev pub Launched : System x c → Type 0
  Launched s =
      (s.metrics ≡ some (new x (adapter_name loaded.adapter) (signer_name c loaded.signer)))
      × (s.service ≡ some (service_of x c loaded))

  abbrev pub Notified : System x c → Type 0
  Notified s = (s.grpc_shutdown_rx ≡ notified) × (s.health_shutdown_rx ≡ notified)

  -- Which task an error comes from.
  abbrev pub FailedWith : Failure → System x c → Type 0
  FailedWith (config e) s = ⊥
  FailedWith (rpc e) s = s.grpc ≡ finished (err e)
  FailedWith join_error s = (s.grpc ≡ panicked) ⊎ (s.health ≡ panicked)

  abbrev pub Phase : Main c → System x c → Type 0
  Phase (configured l) s = (l ≡ loaded) × (s ≡ at x c (configured loaded))
  Phase awaiting_signal s =
      Launched s
      × (s.grpc_shutdown_rx ≡ subscribed)
      × (s.health_shutdown_rx ≡ subscribed)
      × (is_spawned s.grpc ≡ true)
      × (is_spawned s.health ≡ true)
      × (grpc_stopped s.grpc ≡ false)
      × (health_stopped s.health ≡ false)
  Phase awaiting_grpc s =
      Launched s × Notified s × (is_spawned s.grpc ≡ true) × (is_spawned s.health ≡ true)
  Phase awaiting_health s =
      Launched s × Notified s × (s.grpc ≡ finished (ok tt)) × (is_spawned s.health ≡ true)
  Phase (returned (ok u)) s =
      Launched s × Notified s × (s.grpc ≡ finished (ok tt)) × (s.health ≡ finished tt)
  Phase (returned (err e)) s = Launched s × Notified s × FailedWith e s

  -- A change of one of the servers' tasks.
  grpc_changes :
      (main : Main c) (s : System x c) (t : Task (Result RpcError (Unit {0})))
      → Phase main s
      → is_running x c main ≡ true
      → s.grpc ≡ running
      → is_spawned t ≡ true
      → (grpc_stopped t ≡ true → s.grpc_shutdown_rx ≡ notified)
      → Phase main (record s { grpc = t })
  grpc_changes (configured l) s t (e, at_start) live up spawned notice =
      let idle : s.grpc ≡ unspawned = ap (λ v. v.grpc) at_start in cc
  grpc_changes awaiting_signal s t (l, grpc_rx, health_rx, g, h, g', h') live up spawned notice =
      elim (Bool-cases (grpc_stopped t)) [
        | inl stopped ↦ let n = notice stopped in cc
        | inr other ↦ (l, grpc_rx, health_rx, spawned, h, other, h')
      ]
  grpc_changes awaiting_grpc s t (l, n, g, h) live up spawned notice = (l, n, spawned, h)
  grpc_changes awaiting_health s t (l, n, g, h) live up spawned notice = cc
  grpc_changes (returned r) s t phase live up spawned notice = cc

  health_changes :
      (main : Main c) (s : System x c) (t : Task (Unit {0}))
      → Phase main s
      → is_running x c main ≡ true
      → s.health ≡ running
      → is_spawned t ≡ true
      → (health_stopped t ≡ true → s.health_shutdown_rx ≡ notified)
      → Phase main (record s { health = t })
  health_changes (configured l) s t (e, at_start) live up spawned notice =
      let idle : s.health ≡ unspawned = ap (λ v. v.health) at_start in cc
  health_changes awaiting_signal s t (l, grpc_rx, health_rx, g, h, g', h') live up spawned notice =
      elim (Bool-cases (health_stopped t)) [
        | inl stopped ↦ let n = notice stopped in cc
        | inr other ↦ (l, grpc_rx, health_rx, g, spawned, g', other)
      ]
  health_changes awaiting_grpc s t (l, n, g, h) live up spawned notice = (l, n, g, spawned)
  health_changes awaiting_health s t (l, n, g, h) live up spawned notice = (l, n, g, spawned)
  health_changes (returned r) s t phase live up spawned notice = cc

  join_grpc-Phase :
      (s : System x c) (t : Task (Result RpcError (Unit {0}))) (main : Main c)
      → s.grpc ≡ t
      → Phase awaiting_grpc s
      → join_grpc x c t ≡ some main
      → Phase main (record s { main = main })
  unfolding join_grpc
  join_grpc-Phase s unspawned main e p h = cc
  join_grpc-Phase s running main e p h = cc
  join_grpc-Phase s panicked main e (l, n, g, k) h =
      let same : returned (err join_error) ≡ main = some_injective h in rw (sym same) (l, n, inl e)
  join_grpc-Phase s (finished (err f)) main e (l, n, g, k) h =
      let same : returned (err (rpc f)) ≡ main = some_injective h in rw (sym same) (l, n, e)
  join_grpc-Phase s (finished (ok u)) main e (l, n, g, k) h =
      let same : awaiting_health ≡ main = some_injective h in rw (sym same) (l, n, e, k)

  join_health-Phase :
      (s : System x c) (t : Task (Unit {0})) (main : Main c)
      → s.health ≡ t
      → Phase awaiting_health s
      → join_health x c t ≡ some main
      → Phase main (record s { main = main })
  unfolding join_health
  join_health-Phase s unspawned main e p h = cc
  join_health-Phase s running main e p h = cc
  join_health-Phase s panicked main e (l, n, g, k) h =
      let same : returned (err join_error) ≡ main = some_injective h in rw (sym same) (l, n, inr e)
  join_health-Phase s (finished u) main e (l, n, g, k) h =
      let same : returned (ok tt) ≡ main = some_injective h in rw (sym same) (l, n, g, e)

  Phase-of_eq : (s : System x c) (m main : Main c) → m ≡ main → Phase m s → Phase main s
  Phase-of_eq s m main e p = rw (sym e) p

  Step-Phase : (s s' : System x c) → Step x c s s' → Phase s.main s → Phase s'.main s'
  unfolding run_servers shut_down init serve_result
  Step-Phase s s' (launch l e) p =
      let p' = Phase-of_eq s s.main (configured l) e p in
      let (same, at_start) = p' in
      let unset : s.metrics ≡ none = ap (λ v. v.metrics) at_start in
      ((rw (unset, same) refl, rw same refl), refl, refl, refl, refl, refl, refl)
  Step-Phase s s' (signalled k e) p =
      let p' = Phase-of_eq s s.main awaiting_signal e p in
      let (l, grpc_rx, health_rx, g, h, g', h') = p' in
      (l, (ap sent grpc_rx, ap sent health_rx), g, h)
  Step-Phase s s' (grpc_stops live up n) p =
      grpc_changes s.main s (finished (ok tt)) p live up refl (λ stopped. n)
  Step-Phase s s' (grpc_fails e live up) p =
      grpc_changes s.main s (finished (serve_result (err e))) p live up refl (λ stopped. cc)
  Step-Phase s s' (grpc_panics live up) p =
      grpc_changes s.main s panicked p live up refl (λ stopped. cc)
  Step-Phase s s' (health_stops live up n) p =
      health_changes s.main s (finished tt) p live up refl (λ stopped. n)
  Step-Phase s s' (health_panics live up) p =
      health_changes s.main s panicked p live up refl (λ stopped. cc)
  Step-Phase s s' (joins_grpc main e h) p =
      let p' = Phase-of_eq s s.main awaiting_grpc e p in join_grpc-Phase s s.grpc main refl p' h
  Step-Phase s s' (joins_health main e h) p =
      let p' = Phase-of_eq s s.main awaiting_health e p in
      join_health-Phase s s.health main refl p' h

  -- What holds of the system while `main` is where it is, after any steps of the command with a
  -- configuration that was loaded. Before the launch nothing has happened. From the launch on, the
  -- service and the registry are those of the configuration. Until `main` has received a signal, no
  -- server was told to stop, none has stopped by itself, and `main` does not end, even if one of them
  -- has failed. After it, both are notified. `main` returns without an error only when the gRPC
  -- server and then the health server have stopped without one, and with an error only when that
  -- error ended one of the two tasks.
  pub Reaches-Phase :
      (n : ℕ) (s : System x c) → Reaches x c (started x c (ok loaded)) n s → Phase s.main s
  Reaches-Phase n s here = (refl, refl)
  Reaches-Phase n s (next m t t' r step) = Step-Phase t t' step (Reaches-Phase m t r)
