-- ===== src/Servers/Ending.antt =====
-- The command ends.
use ibc_attestor.Common.{
  ℕ, suc, ◌+◌, ◌≤◌, ◌≡◌, refl, sym, ap, ◌⊎◌, inl, inr, some, Result, ok, err, arith, some_injective,
}
use ibc_attestor.Config.{RuntimeConfig, ConfigError}
use ibc_attestor.Crates.{Crates}
use ibc_attestor.Metrics.Registry.{Prometheus}
use ibc_attestor.Servers.{
  RpcError, Failure, Task, unspawned, running, panicked, finished, Main, configured,
  awaiting_signal, awaiting_grpc, awaiting_health, returned, System, started, run_servers,
  shut_down, join_grpc, join_health, Step, launch, signalled, terminate, grpc_stops, grpc_fails,
  grpc_panics, health_stops, health_panics, joins_grpc, joins_health, Reaches, here, next,
}
use ibc_attestor.Servers.Phases.{Phase, Reaches-Phase}

-- How many steps are left at most.
abbrev task_left : {A : Type 0} → Task A → ℕ
task_left running = 1
task_left _ = 0

module _ (x : Prometheus) (c : Crates) where
  abbrev main_left : Main c → ℕ
  main_left (configured loaded) = 6
  main_left awaiting_signal = 3
  main_left awaiting_grpc = 2
  main_left awaiting_health = 1
  main_left (returned r) = 0

  abbrev steps_left : System x c → ℕ
  steps_left s = main_left s.main + task_left s.grpc + task_left s.health

  join_grpc-left :
      (t : Task (Result RpcError (Unit {0}))) (main : Main c)
      → join_grpc x c t ≡ some main
      → main_left main ≤ 1
  unfolding join_grpc
  join_grpc-left unspawned main h = cc
  join_grpc-left running main h = cc
  join_grpc-left panicked main h = rw (sym (some_injective h)) (omega arith)
  join_grpc-left (finished (err e)) main h = rw (sym (some_injective h)) (omega arith)
  join_grpc-left (finished (ok u)) main h = rw (sym (some_injective h)) (omega arith)

  join_health-left :
      (t : Task (Unit {0})) (main : Main c) → join_health x c t ≡ some main → main_left main ≤ 0
  unfolding join_health
  join_health-left unspawned main h = cc
  join_health-left running main h = cc
  join_health-left panicked main h = rw (sym (some_injective h)) (omega arith)
  join_health-left (finished u) main h = rw (sym (some_injective h)) (omega arith)

  -- Each step uses one up. The launch makes two tasks, which is why it is worth more.
  Step-left : (s s' : System x c) → Step x c s s' → suc (steps_left s') ≤ steps_left s
  unfolding run_servers shut_down
  Step-left s s' (launch l e) = let left = ap main_left e in omega arith
  Step-left s s' (signalled k e) = let left = ap main_left e in omega arith
  Step-left s s' (grpc_stops live up n) = let left = ap task_left up in omega arith
  Step-left s s' (grpc_fails e live up) = let left = ap task_left up in omega arith
  Step-left s s' (grpc_panics live up) = let left = ap task_left up in omega arith
  Step-left s s' (health_stops live up n) = let left = ap task_left up in omega arith
  Step-left s s' (health_panics live up) = let left = ap task_left up in omega arith
  Step-left s s' (joins_grpc main e h) =
      let left = ap main_left e in let after = join_grpc-left s.grpc main h in omega arith
  Step-left s s' (joins_health main e h) =
      let left = ap main_left e in let after = join_health-left s.health main h in omega arith

  Reaches-left :
      (start : System x c) (n : ℕ) (s : System x c)
      → Reaches x c start n s
      → n + steps_left s ≤ steps_left start
  Reaches-left start n s here = omega arith
  Reaches-left start n s (next m t t' r step) =
      let before = Reaches-left start m t r in let less = Step-left t t' step in omega arith

  -- The steps of a shutdown in good order: no server fails or panics.
  abbrev pub IsGraceful : (s s' : System x c) → Step x c s s' → Type 0
  IsGraceful s s' (launch l e) = Unit
  IsGraceful s s' (signalled k e) = Unit
  IsGraceful s s' (grpc_stops live up n) = Unit
  IsGraceful s s' (grpc_fails e live up) = ⊥
  IsGraceful s s' (grpc_panics live up) = ⊥
  IsGraceful s s' (health_stops live up n) = Unit
  IsGraceful s s' (health_panics live up) = ⊥
  IsGraceful s s' (joins_grpc main e h) = Unit
  IsGraceful s s' (joins_health main e h) = Unit

  -- The command can go on without a failure or a panic of a server.
  abbrev pub CanStep : System x c → Type 0
  CanStep s = (s' : System x c) × (step : Step x c s s') × IsGraceful s s' step

  abbrev pub HasReturned : System x c → Type 0
  HasReturned s = (r : Result Failure (Unit {0})) × (s.main ≡ returned r)

  grpc_awaited :
      (loaded : RuntimeConfig c) (s : System x c) (t : Task (Result RpcError (Unit {0})))
      → s.main ≡ awaiting_grpc
      → s.grpc ≡ t
      → Phase x c loaded awaiting_grpc s
      → CanStep s
  unfolding join_grpc
  grpc_awaited loaded s unspawned m e (l, n, g, h) = let g' = rw e at g in cc
  grpc_awaited loaded s running m e (l, n, g, h) = (_, grpc_stops (rw m refl) e n.0, tt)
  grpc_awaited loaded s panicked m e p = (_, joins_grpc _ m (ap (join_grpc x c) e), tt)
  grpc_awaited loaded s (finished (err f)) m e p = (_, joins_grpc _ m (ap (join_grpc x c) e), tt)
  grpc_awaited loaded s (finished (ok u)) m e p = (_, joins_grpc _ m (ap (join_grpc x c) e), tt)

  health_awaited :
      (loaded : RuntimeConfig c) (s : System x c) (t : Task (Unit {0}))
      → s.main ≡ awaiting_health
      → s.health ≡ t
      → Phase x c loaded awaiting_health s
      → CanStep s
  unfolding join_health
  health_awaited loaded s unspawned m e (l, n, g, h) = let h' = rw e at h in cc
  health_awaited loaded s running m e (l, n, g, h) = (_, health_stops (rw m refl) e n.1, tt)
  health_awaited loaded s panicked m e p = (_, joins_health _ m (ap (join_health x c) e), tt)
  health_awaited loaded s (finished u) m e p = (_, joins_health _ m (ap (join_health x c) e), tt)

  can_go_on :
      (loaded : RuntimeConfig c) (s : System x c) (main : Main c)
      → s.main ≡ main
      → Phase x c loaded main s
      → CanStep s ⊎ HasReturned s
  can_go_on loaded s (configured l) m p = inl (_, launch l m, tt)
  can_go_on loaded s awaiting_signal m p = inl (_, signalled terminate m, tt)
  can_go_on loaded s awaiting_grpc m p = inl (grpc_awaited loaded s s.grpc m refl p)
  can_go_on loaded s awaiting_health m p = inl (health_awaited loaded s s.health m refl p)
  can_go_on loaded s (returned r) m p = inr (r, m)

  none_left :
      (main : Main c) → main_left main ≤ 0 → (r : Result Failure (Unit {0})) × (main ≡ returned r)
  none_left (configured l) h = let no : ⊥ = omega arith in elim no [ ]
  none_left awaiting_signal h = let no : ⊥ = omega arith in elim no [ ]
  none_left awaiting_grpc h = let no : ⊥ = omega arith in elim no [ ]
  none_left awaiting_health h = let no : ⊥ = omega arith in elim no [ ]
  none_left (returned r) h = (r, refl)

  -- Whether its configuration was loaded or not, the command takes at most six steps, in whatever
  -- order its tasks run, failures and panics of the servers included; and from every state that it
  -- gets to, unless `main` has returned, there is a further step that is no failure or panic of a
  -- server: the launch, the signal that `main` waits for, the stop of a server that was notified, or
  -- the join of a task that is over.
  pub Reaches-ends :
      (loaded : Result ConfigError (RuntimeConfig c)) (n : ℕ) (s : System x c)
      → Reaches x c (started x c loaded) n s
      → (n ≤ 6) × (CanStep s ⊎ HasReturned s)
  Reaches-ends (ok loaded) n s r = (
    let left = Reaches-left (started x c (ok loaded)) n s r in omega arith,
    can_go_on loaded s s.main refl (Reaches-Phase x c loaded n s r),
  )
  Reaches-ends (err e) n s r =
      let left = Reaches-left (started x c (err e)) n s r in
      (omega arith, inr (none_left s.main (omega arith)))
