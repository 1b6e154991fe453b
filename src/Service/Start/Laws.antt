-- ===== src/Service/Start/Laws.antt =====
-- What a start that returns has done.
use linux_tcp_cc.Base.{
  ℕ, ◌≡◌, ◌∙◌, ap, true, false, Option, some, Text, ok, Action-cases, Outcome-cases, inl, inr,
  arith,
}
use linux_tcp_cc.Base.Int.{ℤ, pos, leb_ℤ}
use linux_tcp_cc.Host.Address.{IpAddress, IpModule, max_prefixlen}
use linux_tcp_cc.Service.Runtime.{Hosted, RuntimeConfig}
use linux_tcp_cc.Control.Payloads.{encode_l3_config, encode_ip_endpoint}
use linux_tcp_cc.Service.Shutdown.{Lifecycle}
use linux_tcp_cc.Service.Start.{
  Launch, Hosting, launch_process, attach_queue, open_listener, start, known_address,
}
use linux_tcp_cc.Service.Start.Steps.{
  is_positive, Socket, Obeys, known_address-some, launched, attached_lem, listening, attaching,
}

module _ {S : Type 0} (host : Hosted S) (launch : Launch S) (ip : IpModule) (config : RuntimeConfig)
    (queue : S → Option (ℕ × Text)) (socket : S → ℤ → Socket)
    (obeys : Obeys queue socket host) where
  -- For a hosted side that does what the operations of the control channel ask: if `start`
  -- returns, then the TUN queue of the descriptor that it was handed is attached, with the
  -- configuration for the guest address and its full prefix; the listener is a socket with a
  -- positive handle, the congestion control of the configuration, bound to the guest address at
  -- the port of the configuration, and listening with its backlog; and the process, the channel
  -- and the attachment under a positive interface index are noted for the shutdown.
  pub start_listens :
      (tun_fd : ℕ) (hs ks : Hosting S)
      → start host launch ip config tun_fd hs ≡ (ok tt, ks)
      → (guest : Text) × (payload : Text) × (a : IpAddress) × (handle : ℤ) × (address : Text)
        × (launch.guest_address ≡ some guest)
        × (ip.parse guest ≡ some a)
        × (encode_l3_config ip guest (pos (max_prefixlen a.family)) ≡ ok payload)
        × (queue ks.1.1 ≡ some (tun_fd, payload))
        × (ks.1.0.listener_handle ≡ some handle)
        × (leb_ℤ handle (pos 0) ≡ false)
        × (encode_ip_endpoint ip guest (pos config.listen.port) ≡ ok address)
        × (socket ks.1.1 handle
            ≡ (record { cc = config.cc; address = some address; backlog = some config.backlog }))
        × (ks.0.started ≡ true)
        × (ks.0.connected ≡ true)
        × (ks.0.attached ≡ true)
        × (is_positive ks.0.ifindex ≡ true)
  unfolding start
  start_listens tun_fd hs ks h =
      elim (Action-cases (launch_process host launch ip config tun_fd hs)) [
        | inr (e, js, bad) ↦ absurd (ground arith)
        | inl (_, js, up) ↦ elim (Outcome-cases (known_address launch.guest_address)) [
          | inr (e, bad) ↦ absurd (ground arith)
          | inl (guest, known) ↦
              elim (Action-cases (attach_queue host launch ip config tun_fd guest js)) [
                | inr (e, ls, bad) ↦ absurd (ground arith)
                | inl (_, ls, got) ↦
                    let last : open_listener host launch ip config guest ls ≡ (ok tt, ks) =
                      ground arith in
                    let (_, started, connected, _) =
                      launched host launch ip config tun_fd hs js up in
                    let (index, taken, kept, wired) =
                      attached_lem host launch ip config tun_fd guest js ls got in
                    let (payload, a, read, made, queued) =
                      attaching host launch ip config queue socket obeys tun_fd guest js ls got in
                    let (handle, address, is, good, packed, ready, quiet, same) =
                      listening host launch ip config queue socket obeys guest ls ks last in
                    (
                      guest,
                      payload,
                      a,
                      handle,
                      address,
                      known_address-some launch.guest_address guest known,
                      read,
                      made,
                      quiet ∙ queued,
                      is,
                      good,
                      packed,
                      ready,
                      ap (λ (l : Lifecycle). l.started) same ∙ kept ∙ started,
                      ap (λ (l : Lifecycle). l.connected) same ∙ wired ∙ connected,
                      ap (λ (l : Lifecycle). l.attached) same ∙ taken,
                      ap (λ (l : Lifecycle). is_positive l.ifindex) same ∙ index,
                    )
              ]
        ]
      ]
