-- ===== src/Service/Start/Steps.antt =====
-- What each part of a start that returns has done to the hosted side.
use linux_tcp_cc.Base.{
  ℕ, ◌==◌, Option-cases, [], ◌∷◌, refl, sym, ◌≡◌, ◌∙◌, ap, Bool, true, false, not, Option, none,
  some, Text, ok, Bool-cases, Action-cases, Outcome-cases, inl, inr, ◌≤◌, arith,
}
use linux_tcp_cc.Base.Int.{ℤ, pos, leb_ℤ}
use linux_tcp_cc.Host.Address.{IpAddress, IpModule, version, max_prefixlen}
use linux_tcp_cc.Service.Runtime.{Hosted, RuntimeConfig, verify_cc, op_get_cc, op_set_cc, op_listen}
use mathlib.Core.Path.{subst}
use linux_tcp_cc.Control.Request.{ControlResponse}
use linux_tcp_cc.Control.Payloads.{encode_l3_config, encode_ip_endpoint}
use linux_tcp_cc.Service.Start.{
  Launch, Hosting, launch_process, attach_queue, open_listener, known_address, op_l3_attach_ip,
  op_socket_ip, op_bind_ip,
}

-- A positive handle.
abbrev pub is_positive : Option ℤ → Bool
is_positive none = false
is_positive (some handle) = not (leb_ℤ handle (pos 0))

-- A socket of the hosted side: its congestion control, the endpoint that it is bound to, and the
-- backlog if it listens.
pub record Socket : Type 0 where
  pub cc : Text
  pub address : Option Text
  pub backlog : Option ℕ

-- What the operations of the control channel do when they succeed: OP_L3_ATTACH_IP attaches the
-- TUN queue of an inherited descriptor with a configuration, and nothing else does; OP_SET_CC,
-- OP_BIND_IP and OP_LISTEN change the socket of their handle, and OP_GET_CC does not.
pub record Obeys {S : Type 0} (queue : S → Option (ℕ × Text)) (socket : S → ℤ → Socket)
    (host : Hosted S) : Type 0 where
  pub attaches :
      (fd : ℕ) (payload : Text) (s t : S) (r : ControlResponse)
      → host.transact op_l3_attach_ip (pos fd) 0 0 payload (pos 0 ∷ []) s ≡ (ok r, t)
      → queue t ≡ some (fd, payload)
  pub queue_keeps :
      (op : ℕ) (handle : ℤ) (arg0 arg1 : ℕ) (payload : Text) (s t : S) (r : ControlResponse)
      → (op == op_l3_attach_ip) ≡ false
      → host.transact op handle arg0 arg1 payload (pos 0 ∷ []) s ≡ (ok r, t)
      → queue t ≡ queue s
  pub cc_set :
      (handle : ℤ) (name : Text) (s t : S) (r : ControlResponse)
      → host.transact op_set_cc handle 0 0 name (pos 0 ∷ []) s ≡ (ok r, t)
      → socket t handle ≡ (record (socket s handle) { cc = name })
  pub get_cc_keeps :
      (handle : ℤ) (s t : S) (r : ControlResponse)
      → host.transact op_get_cc handle 0 0 [] (pos 0 ∷ []) s ≡ (ok r, t)
      → socket t handle ≡ socket s handle
  pub bound :
      (handle : ℤ) (endpoint : Text) (s t : S) (r : ControlResponse)
      → host.transact op_bind_ip handle 0 0 endpoint (pos 0 ∷ []) s ≡ (ok r, t)
      → socket t handle ≡ (record (socket s handle) { address = some endpoint })
  pub listens :
      (handle : ℤ) (length : ℕ) (s t : S) (r : ControlResponse)
      → host.transact op_listen handle length 0 [] (pos 0 ∷ []) s ≡ (ok r, t)
      → socket t handle ≡ (record (socket s handle) { backlog = some length })

pub known_address-some :
    (known : Option Text) (guest : Text) → known_address known ≡ ok guest → known ≡ some guest
known_address-some none guest h = absurd (ground arith)
known_address-some (some address) guest h = ground arith

abbrev with_address : Text → Socket → Socket
with_address address x = record x { address = some address }

abbrev with_backlog : ℕ → Socket → Socket
with_backlog length x = record x { backlog = some length }

module _ {S : Type 0} (host : Hosted S) (launch : Launch S) (ip : IpModule)
    (config : RuntimeConfig) where
  pub launched :
      (tun_fd : ℕ) (hs ks : Hosting S)
      → launch_process host launch ip config tun_fd hs ≡ (ok tt, ks)
      → (3 ≤ tun_fd) × (ks.0.started ≡ true) × (ks.0.connected ≡ true) × (ks.0.closed ≡ hs.0.closed)
  unfolding launch_process
  launched tun_fd (l, (run, s)) ks h = ground arith

  pub attached_lem :
      (tun_fd : ℕ) (guest : Text) (hs ks : Hosting S)
      → attach_queue host launch ip config tun_fd guest hs ≡ (ok tt, ks)
      → (is_positive ks.0.ifindex ≡ true)
        × (ks.0.attached ≡ true)
        × (ks.0.started ≡ hs.0.started)
        × (ks.0.connected ≡ hs.0.connected)
  unfolding attach_queue
  attached_lem tun_fd guest (l, (run, s)) ks h = ground arith

  module _ (queue : S → Option (ℕ × Text)) (socket : S → ℤ → Socket)
      (obeys : Obeys queue socket host) where
    verify_cc-keeps :
        (handle : ℤ) (s t : S)
        → verify_cc host config.cc handle s ≡ (ok tt, t)
        → (queue t ≡ queue s) × (socket t handle ≡ socket s handle)
    unfolding verify_cc
    verify_cc-keeps handle s t h =
        elim (Action-cases (host.transact op_get_cc handle 0 0 [] (pos 0 ∷ []) s)) [
          | inr (e, u, bad) ↦ absurd (ground arith)
          | inl (r, u, got) ↦
              let same : u ≡ t = ground arith in
              (
                ap queue (sym same) ∙ obeys.queue_keeps _ _ _ _ _ s u r refl got,
                ap (λ x. socket x handle) (sym same) ∙ obeys.get_cc_keeps handle s u r got,
              )
        ]

    -- What `open_listener` leaves when it returns.
    abbrev pub IsListening : Text → Hosting S → Hosting S → Type 0
    IsListening guest hs ks =
        (handle : ℤ) × (address : Text) × (ks.1.0.listener_handle ≡ some handle)
        × (leb_ℤ handle (pos 0) ≡ false)
        × (encode_ip_endpoint ip guest (pos config.listen.port) ≡ ok address)
        × (socket ks.1.1 handle
            ≡ (record { cc = config.cc; address = some address; backlog = some config.backlog }))
        × (queue ks.1.1 ≡ queue hs.1.1)
        × (ks.0 ≡ hs.0)

    pub listening :
        (guest : Text) (hs ks : Hosting S)
        → open_listener host launch ip config guest hs ≡ (ok tt, ks)
        → IsListening guest hs ks
    unfolding open_listener
    listening guest (l, (run, s)) ks h =
        elim (Action-cases
          (host.transact op_socket_ip (pos 0) (version config.listen.family) 0 [] (pos 0 ∷ []) s)) [
            | inr (e, u, bad) ↦ absurd (ground arith)
            | inl (r, s1, e1) ↦ elim (Bool-cases (leb_ℤ r.handle (pos 0))) [
              | inl bad ↦ absurd (ground arith)
              | inr good ↦
                  elim (Action-cases
                    (host.transact op_set_cc r.handle 0 0 config.cc (pos 0 ∷ []) s1)) [
                      | inr (e, u, bad) ↦ absurd (ground arith)
                      | inl (r2, s2, e2) ↦
                          elim (Action-cases (verify_cc host config.cc r.handle s2)) [
                            | inr (e, u, bad) ↦ absurd (ground arith)
                            | inl (_, s3, e3) ↦
                                elim (Outcome-cases
                                  (encode_ip_endpoint ip guest (pos config.listen.port))) [
                                    | inr (e, bad) ↦ absurd (ground arith)
                                    | inl (address, e4) ↦
                                        elim (Action-cases (
                                          host.transact op_bind_ip r.handle 0 0 address (pos 0 ∷ [])
                                            s3)) [
                                              | inr (e, u, bad) ↦ absurd (ground arith)
                                              | inl (r5, s5, e5) ↦
                                                  elim (Action-cases (
                                                    host.transact op_listen r.handle config.backlog
                                                      0 [] (pos 0 ∷ []) s5)) [
                                                        | inr (e, u, bad) ↦ absurd (ground arith)
                                                        | inl (r6, s6, e6) ↦
                                                            let end : (
                                                            l,
                                                            (
                                                            (record run {
                                                            listener_handle = some r.handle;
                                                            }),
                                                            s6,
                                                            ),
                                                            )
                                                            ≡ ks =
                                                            ground arith in
                                                            let (q3, k3) =
                                                            verify_cc-keeps r.handle s2 s3 e3 in
                                                            let q : queue s6 ≡ queue s =
                                                            obeys.queue_keeps _ _ _ _ _ s5 s6 r6
                                                            refl e6
                                                            ∙ obeys.queue_keeps _ _ _ _ _ s3 s5 r5
                                                            refl e5
                                                            ∙ q3
                                                            ∙ obeys.queue_keeps _ _ _ _ _ s1 s2 r2
                                                            refl e2
                                                            ∙ obeys.queue_keeps _ _ _ _ _ s s1 r
                                                            refl e1 in
                                                            let set =
                                                            obeys.cc_set r.handle config.cc s1 s2 r2
                                                            e2 in
                                                            let bound =
                                                            obeys.bound r.handle address s3 s5 r5
                                                            e5 in
                                                            let listens =
                                                            obeys.listens r.handle config.backlog s5
                                                            s6 r6 e6 in
                                                            subst (IsListening guest (l, (run, s)))
                                                            end
                                                            (
                                                            r.handle,
                                                            address,
                                                            refl,
                                                            good,
                                                            e4,
                                                            listens
                                                            ∙ ap (with_backlog config.backlog) (
                                                            bound
                                                            ∙ ap (with_address address) (k3 ∙ set)),
                                                            q,
                                                            refl,
                                                            )
                                                      ]
                                            ]
                                  ]
                          ]
                    ]
            ]
          ]

    pub attaching :
        (tun_fd : ℕ) (guest : Text) (hs ks : Hosting S)
        → attach_queue host launch ip config tun_fd guest hs ≡ (ok tt, ks)
        → (payload : Text) × (a : IpAddress) × (ip.parse guest ≡ some a)
          × (encode_l3_config ip guest (pos (max_prefixlen a.family)) ≡ ok payload)
          × (queue ks.1.1 ≡ some (tun_fd, payload))
    unfolding attach_queue
    attaching tun_fd guest (l, (run, s)) ks h = elim (Option-cases (ip.parse guest)) [
      | inl nowhere ↦ absurd (ground arith)
      | inr (a, read) ↦
          elim (Outcome-cases (encode_l3_config ip guest (pos (max_prefixlen a.family)))) [
            | inr (e, bad) ↦ absurd (ground arith)
            | inl (payload, made) ↦
                elim (Action-cases
                  (host.transact op_l3_attach_ip (pos tun_fd) 0 0 payload (pos 0 ∷ []) s)) [
                    | inr (e, u, bad) ↦ absurd (ground arith)
                    | inl (r, u, got) ↦
                        let same : u ≡ ks.1.1 = ground arith in
                        (
                          payload,
                          a,
                          read,
                          made,
                          ap queue (sym same) ∙ obeys.attaches tun_fd payload s u r got,
                        )
                  ]
          ]
    ]
