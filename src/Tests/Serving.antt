-- ===== src/Tests/Serving.antt =====
-- A hosted side of which only the sockets are kept: each accept hands out the socket 5.
use linux_tcp_cc.Base.{
  ℕ, zero, suc, ◌<◌, ◌≤◌, ◌≡◌, refl, ap, true, false, none, some, List, [], ◌∷◌, length, text_eq,
  lit, ◌+◌, Outcome, ok, raised, Action, operation_error, ◌==◌, if◌then◌else◌, arith,
}
use linux_tcp_cc.Base.Int.{ℤ, pos, leb_ℤ}
use linux_tcp_cc.Host.Address.{v4}
use linux_tcp_cc.Control.Request.{ControlResponse}
use linux_tcp_cc.Service.Runtime.{
  Hosted, Running, RuntimeConfig, op_accept_nonblock, op_get_cc, verify_cc, minus_eagain,
}
use linux_tcp_cc.Service.Accept.{
  accept_nonblock, start_bridge, request_bridge, announce, serve_accepted, accept_loop,
}
use linux_tcp_cc.Service.Accept.Capacity.{accept_loop_limited}
use linux_tcp_cc.Service.Accept.Sockets.{Observed, Contract, IsLeft, serve_accepted-IsLeft}
use linux_tcp_cc.Service.Accept.Loop.{Settled, accept_loop-Settled}

abbrev response : ℤ → ControlResponse
response handle = record { operation = 0; status = pos 0; handle = handle; bytes = lit "bbr" }

abbrev without_newest : List ℤ → List ℤ
without_newest [] = []
without_newest (_ ∷ rest) = rest

abbrev accept_next : ℕ → List ℤ → Outcome ControlResponse × Observed
accept_next zero waiting = (
  raised (operation_error op_accept_nonblock minus_eagain),
  record { waiting = waiting; pending = 0 },
)
accept_next (suc n) waiting =
    (ok (response (pos 5)), record { waiting = pos 5 ∷ waiting; pending = n })

-- A bridge start and a close take the newest socket away.
abbrev answer : ℕ → Action Observed ControlResponse
answer op s =
    if op == op_accept_nonblock
    then accept_next s.pending s.waiting
    else if op == op_get_cc
    then (ok (response (pos 0)), s)
    else (ok (response (pos (9 + s.pending))), record s { waiting = without_newest s.waiting })

abbrev host : Hosted Observed
host = record {
  transact = λ op _ _ _ _ _ s. answer op s;
  event = λ _ s. (ok tt, s);
  diagnostic = λ _ s. (ok tt, s);
  poll = λ s. (ok none, s);
}

abbrev observe : Observed → Observed
observe s = s

accept_next-ok :
    (n : ℕ) (waiting : List ℤ) (t : Observed) (r : ControlResponse)
    → accept_next n waiting ≡ (ok r, t)
    → (leb_ℤ r.handle (pos 0) ≡ false) × (t.waiting ≡ r.handle ∷ waiting) × (t.pending < n)
accept_next-ok zero waiting t r h = absurd (ground arith)
accept_next-ok (suc n) waiting t r h = (ground arith, ground arith, ground arith)

accept_next-raised :
    (n : ℕ) (waiting : List ℤ) (t : Observed) {e : _}
    → accept_next n waiting ≡ (raised e, t)
    → t ≡ (record { waiting = waiting; pending = n })
accept_next-raised zero waiting t h = ground arith
accept_next-raised (suc n) waiting t h = absurd (ground arith)

host-Contract : Contract observe host
host-Contract = record {
  event_keeps = λ _ _. refl;
  diagnostic_keeps = λ _ _. refl;
  get_cc_keeps = λ _ _. refl;
  accepted = λ _ s t r h. accept_next-ok s.pending s.waiting t r h;
  not_accepted = λ _ s t e h. accept_next-raised s.pending s.waiting t h;
  bridge_taken = λ handle _ _ rest s t r h held. (ground arith, ground arith, ground arith);
  bridge_refused = λ _ _ _ s t e h. absurd (ground arith);
  close_asked = λ handle rest s held. (ap without_newest held, refl);
}

abbrev config : RuntimeConfig
config = record {
  listen = record { address = lit "192.0.2.1"; port = 443; family = v4 };
  backend = record { address = lit "127.0.0.1"; port = 8080; family = v4 };
  backend_ipv4 = 2130706433;
  cc = lit "bbr";
  backlog = 128;
  max_connections = 2;
}

abbrev started : ℕ → List ℤ → Running Observed
started pending waiting = (
  record { listener_handle = some (pos 4); active_bridges = [] },
  record { waiting = waiting; pending = pending },
)

-- One socket is served, and then nothing is left to accept.
all_bridged : (accept_loop host config (pos 4) 2 (started 1 [])).0 ≡ ok true
unfolding accept_loop lit accept_nonblock serve_accepted start_bridge verify_cc text_eq
    request_bridge announce
all_bridged = refl

accept_loop-Settled_example :
    Settled observe host host-Contract config
      (started 3 [])
      (accept_loop host config (pos 4) 4 (started 3 []))
accept_loop-Settled_example =
    accept_loop-Settled observe host host-Contract config (pos 4) 4 (started 3 []) (omega arith)

accept_loop_limited_example :
    length (accept_loop host config (pos 4) 9 (started 3 [])).1.0.active_bridges
    ≤ config.max_connections
accept_loop_limited_example =
    accept_loop_limited host config (pos 4) 9 (started 3 []) (ground arith) (omega arith)

serve_accepted-IsLeft_example :
    IsLeft observe host host-Contract config [] 3
      (serve_accepted host config (pos 5) (started 3 (pos 5 ∷ []))).1.1
serve_accepted-IsLeft_example =
    serve_accepted-IsLeft observe host host-Contract config (pos 5) [] 3 (started 3 (pos 5 ∷ []))
      refl (refl, refl)
