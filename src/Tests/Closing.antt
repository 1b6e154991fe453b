-- ===== src/Tests/Closing.antt =====
-- The end of a service: a clock that only joins move, a process that is alive or not, and a host
-- with one lease.
use linux_tcp_cc.Base.{
  ℕ, ◌+◌, ◌≡◌, refl, Bool, true, false, Option, none, some, List, [], ◌∷◌, ok, raised, ok-injective,
  operation_error, runtime_error, arith,
}
use linux_tcp_cc.Base.Int.{ℤ, pos}
use linux_tcp_cc.Service.Runtime.{Hosted, Running, minus_etimedout}
use linux_tcp_cc.Service.Drain.{Closing, drain_bridges}
use linux_tcp_cc.Service.Drain.Clock
use linux_tcp_cc.Service.Drain.Clock.{now}
use linux_tcp_cc.Service.Drain.Laws.{IsSettled, drain_bridges-IsSettled}
use linux_tcp_cc.Service.Shutdown.{Child, Lifecycle, shutdown}
use linux_tcp_cc.Service.Shutdown.Laws
use linux_tcp_cc.Service.Shutdown.Laws.{IsStopped, Forgets, shutdown_settles}
use linux_tcp_cc.Service.Run.{Lease, Service, run_service}

-- Every call is answered by -ETIMEDOUT after a millisecond.
abbrev slow : Hosted ℕ
slow = record {
  transact = λ op _ _ _ _ _ time. (raised (operation_error op minus_etimedout), time + 1000);
  event = λ _ time. (ok tt, time);
  diagnostic = λ _ time. (ok tt, time);
  poll = λ time. (ok none, time);
}

abbrev three_ms : Closing ℕ
three_ms = record { clock = λ time. time; emit = λ _ time. (ok tt, time); grace = 3000 }

slow-Contract : Clock.Contract slow three_ms
slow-Contract = record {
  transact_forward = λ _ _ s. omega arith;
  timed_out = λ _ _ _ s _ _. omega arith;
  event_forward = λ _ s. omega arith;
  diagnostic_forward = λ _ s. omega arith;
  emit_forward = λ _ s. omega arith;
}

abbrev one_bridge : Running ℕ
one_bridge = (record { listener_handle = some (pos 4); active_bridges = pos 5 ∷ [] }, 0)

drained : (drain_bridges slow three_ms 3002 one_bridge).0 ≡ ok true
unfolding drain_bridges linux_tcp_cc.Service.Bridges.join_bridge_result
    linux_tcp_cc.Service.Bridges.join_failed
drained = refl

drain_bridges-IsSettled_example :
    IsSettled slow three_ms slow-Contract
      (now three_ms one_bridge)
      (drain_bridges slow three_ms 3002 one_bridge)
drain_bridges-IsSettled_example =
    drain_bridges-IsSettled slow three_ms slow-Contract 3002 one_bridge (omega arith)

-- The state says whether the process is alive.
abbrev status_of : Bool → Option ℤ
status_of true = none
status_of false = some (pos 0)

abbrev kernel : Hosted Bool
kernel = record {
  transact = λ op _ _ _ _ _ s. (raised (operation_error op minus_etimedout), s);
  event = λ _ s. (ok tt, s);
  diagnostic = λ _ s. (ok tt, s);
  poll = λ s. (ok (status_of s), s);
}

abbrev child : Child Bool
child = record {
  wait = λ _ _. (ok (pos 0), false);
  terminate = λ s. (ok tt, s);
  kill = λ s. (ok tt, s);
  close_stdin = λ s. (ok tt, s);
  close_stdout = λ s. (ok tt, s);
  shutdown_timeout = 5000;
}

abbrev at_once : Closing Bool
at_once = record { clock = λ _. 0; emit = λ _ s. (ok tt, s); grace = 0 }

abbrev alive : Bool → Bool
alive s = s

polled : (s : Bool) (status : ℤ) → status_of s ≡ some status → s ≡ false
polled true status h = cc
polled false status h = refl

child-Contract : Laws.Contract alive kernel child
child-Contract = record {
  polled = λ s status h. polled s status (ok-injective h);
  waited = λ _ _ _ _. refl;
  stdin_keeps = λ _ h. h;
  stdout_keeps = λ _ h. h;
}

abbrev attached : Lifecycle
attached = record {
  started = true;
  connected = true;
  attached = true;
  ifindex = some (pos 2);
  closed = false;
}

abbrev serving : Running Bool
serving = (record { listener_handle = some (pos 4); active_bridges = pos 5 ∷ [] }, true)

shutdown_settles_example :
    let r = shutdown kernel at_once child 10 (attached, serving) in
    IsStopped alive kernel at_once child child-Contract r.0 r.1.1.1
    × Forgets alive kernel at_once child child-Contract (kernel.poll serving.1).0 true r.1.1.0
    × (shutdown kernel at_once child 10 r.1 ≡ (ok tt, r.1))
shutdown_settles_example =
    shutdown_settles alive kernel at_once child child-Contract 10 10 attached serving refl refl

-- A host with the held resources, and whether the hosted process runs.
abbrev Host : Type 0
Host = List ℕ × Bool

abbrev drop_newest : List ℕ → List ℕ
drop_newest [] = []
drop_newest (_ ∷ rest) = rest

abbrev lease : Lease Host
lease = record { tun_fd = 3; close = λ s. (ok tt, (drop_newest s.0, s.1)) }

abbrev service : Service Host
service = record {
  enter = λ s. (ok tt, s);
  exit = λ s. (ok tt, s);
  requested = λ _. false;
  requested_signal = λ _. none;
  network_acquirer = λ s. (ok lease, (3 ∷ s.0, s.1));
  start = λ _ s. (ok tt, (s.0, true));
  announce_ready = λ _ s. (ok tt, s);
  serve = λ s. (raised (runtime_error "serve"), s);
  shutdown = λ s. (ok tt, (s.0, false));
  announce_stopped = λ _ s. (ok tt, s);
}

-- `serve` raises: the process is stopped, the lease is closed, and the error is passed on.
served : run_service service (7 ∷ [], false) ≡ (raised (runtime_error "serve"), (7 ∷ [], false))
unfolding run_service
served = refl
