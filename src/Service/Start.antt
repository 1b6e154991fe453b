-- ===== src/Service/Start.antt =====
-- `start` of `HostedKernelRuntime`, and the loop of `serve`.
pub mod Steps
pub mod Laws
use linux_tcp_cc.Base.{
  ℕ, zero, suc, Bool, true, false, not, Option, none, some, [], ◌∷◌, Text, ⊤, protocol_error,
  runtime_error, value_error, Outcome, ok, raised, Action, pure, throw, lift, ◌>>=◌, ◌>>◌, raise_if,
  ltb,
}
use linux_tcp_cc.Base.Int.{ℤ, pos, leb_ℤ}
use linux_tcp_cc.Host.Address.{IpAddress, IpModule, version, max_prefixlen}
use linux_tcp_cc.Control.Request.{ControlResponse}
use linux_tcp_cc.Control.Payloads.{encode_l3_config, encode_ip_endpoint}
use linux_tcp_cc.Service.Runtime.{
  Hosted, Runtime, Running, RuntimeConfig, verify_cc, op_listen, op_set_cc,
}
use linux_tcp_cc.Service.Accept.{poll_once}
use linux_tcp_cc.Service.Shutdown.{Lifecycle}

abbrev pub op_socket_ip : ℕ
op_socket_ip = 27

abbrev pub op_bind_ip : ℕ
op_bind_ip = 28

abbrev pub op_l3_attach_ip : ℕ
op_l3_attach_ip = 29

-- The process factory, handed the inherited descriptor; it says whether both pipes are there.
-- `guest_address` is `tun_guest_address` of the configuration.
pub record Launch (S : Type 0) : Type 0 where
  pub spawn : ℕ → Action S Bool
  pub guest_address : Option Text

-- `stop.requested` and `stop.wait`.
pub record StopRequest (S : Type 0) : Type 0 where
  pub requested : S → Bool
  pub wait : Action S ⊤

abbrev pub Hosting : Type 0 → Type 0
Hosting S = Lifecycle × Running S

abbrev pub known_address : Option Text → Outcome Text
known_address none = raised (runtime_error "hosted TUN address was not resolved")
known_address (some address) = ok address

abbrev pub parsed : Option IpAddress → Outcome IpAddress
parsed none = raised (value_error "ip_address")
parsed (some address) = ok address

module _ {S : Type 0} (host : Hosted S) (launch : Launch S) (ip : IpModule)
    (config : RuntimeConfig) where
  -- A call that leaves the attributes alone, and an assignment.
  abbrev pub beside : {A : Type 0} → Action S A → Action (Hosting S) A
  beside m (l, (run, s)) = let (r, t) = m s in (r, (l, (run, t)))

  abbrev pub assign : (Lifecycle → Lifecycle) → Action (Hosting S) ⊤
  assign f (l, js) = (ok tt, (f l, js))

  abbrev pub assign_listener : ℤ → Action (Hosting S) ⊤
  assign_listener handle (l, (run, s)) =
      (ok tt, (l, (record run { listener_handle = some handle }, s)))

  abbrev pub already_started : Action (Hosting S) Bool
  already_started (l, js) = (ok l.started, (l, js))

  -- Up to the control channel.
  unfoldable pub launch_process : ℕ → Action (Hosting S) ⊤
  launch_process tun_fd = do
    started ← already_started
    raise_if started (runtime_error "hosted runtime is already started")
    raise_if (ltb tun_fd 3) (value_error "TUN fd")
    pipes ← beside (launch.spawn tun_fd)
    assign (λ l. record l { started = true })
    raise_if (not pipes) (runtime_error "hosted process did not expose control pipes")
    assign (λ l. record l { connected = true })

  -- The TUN queue is handed over.
  unfoldable pub attach_queue : ℕ → Text → Action (Hosting S) ⊤
  unfolding encode_l3_config
  attach_queue tun_fd guest = do
    address ← lift (parsed (ip.parse guest))
    payload ← lift (encode_l3_config ip guest (pos (max_prefixlen address.family)))
    response ← beside (host.transact op_l3_attach_ip (pos tun_fd) 0 0 payload (pos 0 ∷ []))
    raise_if (leb_ℤ response.handle (pos 0)) (protocol_error "hosted L3 attach ifindex")
    assign (λ l. record l { ifindex = some response.handle; attached = true })

  -- The listener.
  unfoldable pub open_listener : Text → Action (Hosting S) ⊤
  unfolding verify_cc encode_ip_endpoint
  open_listener guest = do
    response ←
        beside (host.transact op_socket_ip (pos 0) (version config.listen.family) 0 [] (pos 0 ∷ []))
    raise_if (leb_ℤ response.handle (pos 0)) (protocol_error "hosted socket handle")
    assign_listener response.handle
    _ ← beside (host.transact op_set_cc response.handle 0 0 config.cc (pos 0 ∷ []))
    beside (verify_cc host config.cc response.handle)
    payload ← lift (encode_ip_endpoint ip guest (pos config.listen.port))
    _ ← beside (host.transact op_bind_ip response.handle 0 0 payload (pos 0 ∷ []))
    _ ← beside (host.transact op_listen response.handle config.backlog 0 [] (pos 0 ∷ []))
    pure tt

  -- `start`
  unfoldable pub start : ℕ → Action (Hosting S) ⊤
  unfolding launch_process attach_queue open_listener
  start tun_fd = do
    launch_process tun_fd
    guest ← lift (known_address launch.guest_address)
    attach_queue tun_fd guest
    open_listener guest

  -- `serve`: each round may accept as often as `accepts` counts. The result is false if the rounds
  -- ran out.
  unfoldable pub serve : StopRequest S → ℕ → ℕ → Action (Running S) Bool
  unfolding poll_once
  serve stop accepts zero js = (ok false, js)
  serve stop accepts (suc rounds) js =
      let again = serve stop accepts rounds in
      elim (stop.requested js.1) [
        | true ↦ (ok true, js)
        | false ↦
            (poll_once host config accepts >>= λ _ ks.
            let (r, t) = stop.wait ks.1 in
            elim r [ ok _ ↦ again (ks.0, t) | raised e ↦ (raised e, (ks.0, t)) ])
              js
      ]
