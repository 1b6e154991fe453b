-- ===== src/Tests/Starting.antt =====
-- The start of the hosted side against one that answers every request, and `serve` until a stop is
-- requested.
use linux_tcp_cc.Base.{
  ℕ, suc, ◌≡◌, ◌∙◌, ◌==◌, refl, sym, ap, Option, Text, replicate, ◌∷◌, ◌++◌, if◌then◌else◌, arith,
  true, false, none, some, [], lit, ok, text_eq,
}
use linux_tcp_cc.Base.Int.{ℤ, pos, pos_part, leb_ℤ}
use linux_tcp_cc.Host.Address.{v4, IpAddress, IpModule, max_prefixlen}
use linux_tcp_cc.Control.Payloads.{encode_l3_config, encode_ip_endpoint}
use linux_tcp_cc.Service.Runtime.{op_set_cc, op_listen, Hosted, RuntimeConfig}
use linux_tcp_cc.Service.Start.{
  op_l3_attach_ip, op_bind_ip, Launch, Hosting, StopRequest, start, serve,
}
use linux_tcp_cc.Service.Start.Steps.{is_positive, Socket, Obeys}
use linux_tcp_cc.Service.Start.Laws.{start_listens}

-- A hosted side with one socket; it counts the requests, and each gets a handle of its own.
record Side : Type 0 where
  pub count : ℕ
  pub queue : Option (ℕ × Text)
  pub socket : Socket

abbrev obey : ℕ → ℤ → ℕ → Text → Side → Side
obey op handle arg0 payload s =
    if op == op_l3_attach_ip
    then record s { queue = some (pos_part handle, payload) }
    else if op == op_set_cc
    then record s { socket = record s.socket { cc = payload } }
    else if op == op_bind_ip
    then record s { socket = record s.socket { address = some payload } }
    else if op == op_listen
    then record s { socket = record s.socket { backlog = some arg0 } }
    else s

abbrev counted : Side → Side
counted s = record s { count = suc s.count }

abbrev answering : Hosted Side
answering = record {
  transact = λ op handle arg0 _ payload _ s. (
    ok (record { operation = op; status = pos 0; handle = pos (suc s.count); bytes = lit "bbr" }),
    counted (obey op handle arg0 payload s),
  );
  event = λ _ n. (ok tt, n);
  diagnostic = λ _ n. (ok tt, n);
  poll = λ n. (ok none, n);
}

abbrev queue_of : Side → Option (ℕ × Text)
queue_of s = s.queue

abbrev socket_of : Side → ℤ → Socket
socket_of s _ = s.socket

obey-queue :
    (op : ℕ) (handle : ℤ) (arg0 : ℕ) (payload : Text) (s : Side)
    → (op == op_l3_attach_ip) ≡ false
    → (obey op handle arg0 payload s).queue ≡ s.queue
obey-queue op handle arg0 payload s h = ground arith

answering-Obeys : Obeys queue_of socket_of answering
answering-Obeys = record {
  attaches = λ fd payload s t r h. ap queue_of (sym (ap (λ x. x.1) h));
  queue_keeps = λ op handle arg0 arg1 payload s t r other h.
      ap queue_of (sym (ap (λ x. x.1) h)) ∙ obey-queue op handle arg0 payload s other;
  cc_set = λ handle name s t r h. ap (λ x. socket_of x handle) (sym (ap (λ x. x.1) h));
  get_cc_keeps = λ handle s t r h. ap (λ x. socket_of x handle) (sym (ap (λ x. x.1) h));
  bound = λ handle endpoint s t r h. ap (λ x. socket_of x handle) (sym (ap (λ x. x.1) h));
  listens = λ handle length s t r h. ap (λ x. socket_of x handle) (sym (ap (λ x. x.1) h));
}

abbrev guest_ip : IpModule
guest_ip = record {
  parse = λ _. some (record { family = v4; value = 3221225986; scope = [] });
  print = λ _. lit "192.0.2.2";
  is_unspecified = λ _. false;
  is_multicast = λ _. false;
}

abbrev launching : Launch Side
launching = record { spawn = λ _ n. (ok true, n); guest_address = some (lit "192.0.2.2") }

abbrev settings : RuntimeConfig
settings = record {
  listen = record { address = lit "192.0.2.1"; port = 443; family = v4 };
  backend = record { address = lit "127.0.0.1"; port = 8080; family = v4 };
  backend_ipv4 = 2130706433;
  cc = lit "bbr";
  backlog = 128;
  max_connections = 2;
}

abbrev before_start : Hosting Side
before_start = (
  record { started = false; connected = false; attached = false; ifindex = none; closed = false },
  (
    record { listener_handle = none; active_bridges = [] },
    record { count = 0; queue = none; socket = record { cc = []; address = none; backlog = none } },
  ),
)

-- The configuration of the link and the endpoint, as they go over the channel.
abbrev link_payload : Text
link_payload = 4 ∷ 0 ∷ 0 ∷ 0 ∷ 192 ∷ 0 ∷ 2 ∷ 2 ∷ replicate 12 0 ++ (32 ∷ 0 ∷ 0 ∷ 0 ∷ [])

abbrev endpoint_payload : Text
endpoint_payload = 4 ∷ 0 ∷ 0 ∷ 0 ∷ 192 ∷ 0 ∷ 2 ∷ 2 ∷ replicate 12 0 ++ (187 ∷ 1 ∷ 0 ∷ 0 ∷ [])

-- Six requests: attach, socket, the congestion control and its check, bind, listen.
abbrev after_start : Hosting Side
after_start = (
  record {
    started = true;
    connected = true;
    attached = true;
    ifindex = some (pos 1);
    closed = false;
  },
  (
    record { listener_handle = some (pos 2); active_bridges = [] },
    record {
      count = 6;
      queue = some (3, link_payload);
      socket = record { cc = lit "bbr"; address = some endpoint_payload; backlog = some 128 };
    },
  ),
)

start_run : start answering launching guest_ip settings 3 before_start ≡ (ok tt, after_start)
unfolding start lit text_eq linux_tcp_cc.Service.Start.launch_process
    linux_tcp_cc.Service.Start.attach_queue linux_tcp_cc.Service.Start.open_listener
    linux_tcp_cc.Control.Wire.pack_le
start_run = refl

start_listens_example :
    (guest : Text) × (payload : Text) × (a : IpAddress) × (handle : ℤ) × (address : Text)
    × (launching.guest_address ≡ some guest)
    × (guest_ip.parse guest ≡ some a)
    × (encode_l3_config guest_ip guest (pos (max_prefixlen a.family)) ≡ ok payload)
    × (after_start.1.1.queue ≡ some (3, payload))
    × (after_start.1.0.listener_handle ≡ some handle)
    × (leb_ℤ handle (pos 0) ≡ false)
    × (encode_ip_endpoint guest_ip guest (pos settings.listen.port) ≡ ok address)
    × (after_start.1.1.socket
        ≡ (record { cc = lit "bbr"; address = some address; backlog = some 128 }))
    × (after_start.0.started ≡ true)
    × (after_start.0.connected ≡ true)
    × (after_start.0.attached ≡ true)
    × (is_positive after_start.0.ifindex ≡ true)
start_listens_example =
    start_listens answering launching guest_ip settings queue_of socket_of answering-Obeys 3
      before_start after_start start_run

-- A stop is requested from the start: nothing is done.
abbrev stopped : StopRequest Side
stopped = record { requested = λ _. true; wait = λ n. (ok tt, n) }

serve_stopped :
    serve answering launching guest_ip settings stopped 2 1 after_start.1 ≡ (ok true, after_start.1)
unfolding serve
serve_stopped = refl
