-- ===== src/Host/Firewall/Identity.antt =====
-- The identity that an instance records is recognised by both scans while the instance runs.
use linux_tcp_cc.Base.{
  ◌≡◌, refl, ap, ◌<◌, true, some, Text, lit, ℕ, [], ◌∷◌, Outcome, ok, Outcome-cases, inl, inr,
  arith, ==_iff,
}
use linux_tcp_cc.Host.Names.{is_tun_name, is_tun_pattern, is_nft_table_name, is_iptables_chain_name}
use linux_tcp_cc.Host.Config.{NftOwnership, nft_ownership}
use linux_tcp_cc.Host.Marker.{marker}
use linux_tcp_cc.Host.Marker.Laws.{parse_marker-marker}
use linux_tcp_cc.Host.Process.{process_start_time}
use linux_tcp_cc.Host.Reports.{active, Observation, is_active}
use linux_tcp_cc.Host.Ownership
use linux_tcp_cc.Host.Ownership.{str, owner_status}
use linux_tcp_cc.Host.Firewall.{Platform, current_nft_ownership}
use linux_tcp_cc.Host.Firewall.Iptables.Scan
use linux_tcp_cc.Host.Firewall.Iptables.Scan.{classify_chain}

abbrev alive_detail : Text
alive_detail = lit "owner pid and process start time match"

owner_status-alive :
    (o : NftOwnership) (start : Outcome ℕ)
    → start ≡ ok o.start_time
    → owner_status o.start_time start ≡ ok (active, alive_detail)
unfolding owner_status
owner_status-alive o start h = ground (arith, ==_iff o.start_time o.start_time)

module _ {S : Type 0} (platform : Platform S) (tun_name : Text) (s : S) where
  -- What an identity that was returned is made of.
  identity_parts :
      (o : NftOwnership)
      → (current_nft_ownership platform tun_name s).0 ≡ ok o
      → (process_start_time (platform.proc s) o.pid ≡ ok o.start_time)
        × (0 < o.pid)
        × (0 < o.start_time)
        × (is_tun_pattern o.tun_name ≡ true)
        × (o.tun_name ≡ tun_name)
        × (o.pid ≡ platform.getpid)
  unfolding current_nft_ownership nft_ownership is_tun_name
  identity_parts o h = elim (Outcome-cases (process_start_time (platform.proc s) platform.getpid)) [
    | inr (e, bad) ↦ absurd (ground arith)
    | inl (start, read) ↦
        (ground arith, ground arith, ground arith, ground arith, ground arith, ground arith)
  ]

  -- An instance does not block itself: for an identity that `current_nft_ownership` returned, a
  -- rule that carries its marker, in a table or a chain with a valid name, is classified as active
  -- by either scan of the same /proc, under the process of the instance and its interface.
  pub classify-current_nft_ownership :
      (o : NftOwnership) (family table iptables_path chain_name : Text)
      → (current_nft_ownership platform tun_name s).0 ≡ ok o
      → is_nft_table_name table ≡ true
      → is_iptables_chain_name chain_name ≡ true
      → ((found : Observation) × (Ownership.classify family (platform.proc s) (str table) (marker o)
            ≡ ok found)
          × (is_active found ≡ true)
          × (found.owner_pid ≡ some platform.getpid)
          × (found.tun_name ≡ some tun_name))
        × ((found : Observation) × (classify_chain iptables_path
                (platform.proc s)
                chain_name
                (marker o ∷ [])
              ≡ ok found)
            × (is_active found ≡ true)
            × (found.owner_pid ≡ some platform.getpid)
            × (found.tun_name ≡ some tun_name))
  unfolding classify_chain Ownership.classify
  classify-current_nft_ownership o family table iptables_path chain_name h valid valid_chain =
      let (alive, pid, start, pattern, named, own) = identity_parts o h in
      let parsed = parse_marker-marker o pid start pattern in
      let status = owner_status-alive o (process_start_time (platform.proc s) o.pid) alive in
      (
        (
          Ownership.observation family (platform.proc s) table o (active, alive_detail),
          ground arith,
          refl,
          ap some own,
          ap some named,
        ),
        (
          Scan.observation iptables_path (platform.proc s) chain_name o (active, alive_detail),
          ground arith,
          refl,
          ap some own,
          ap some named,
        ),
      )
