-- ===== src/Host/Network/Contract.antt =====
-- What the transaction relies on: resources are acquired and released as the collaborators say.
use linux_tcp_cc.Base.{
  ◌≡◌, Bool, true, false, List, ◌∷◌, Text, Error, ok, raised, tun_setup_cleanup, install_rollback,
  startup_rollback,
}
use linux_tcp_cc.Host.Journal.{is_empty}
use linux_tcp_cc.Host.Config.{TunConfig, NftDnatConfig, NftOwnership}
use linux_tcp_cc.Host.Network.{TunHandle, FirewallDnatLease, Collaborators}

-- The error reports failed cleanup next to the error that made it necessary.
abbrev pub is_rollback : Error → Bool
is_rollback (startup_rollback startup failures) = true
is_rollback (tun_setup_cleanup setup cleanup) = true
is_rollback (install_rollback install failures) = true
is_rollback _ = false

-- What the collaborators promise about the resources that the host holds, `live`, newest first.
-- `tun_of` and `dnat_of` name the resource of a queue and of a lease. A close that does not raise,
-- of the newest resource, releases that resource; an error that does not report failed cleanup
-- leaves nothing behind.
pub record Contract {S R : Type 0} (tun_of : TunHandle S → R) (dnat_of : FirewallDnatLease S → R)
    (live : S → List R) (c : Collaborators S) : Type 0 where
  pub preflight_keeps : (cc : Text) (s : S) → live (c.preflight_collector cc s).1 ≡ live s
  pub ownership_keeps : (s : S) → live (c.ownership_collector s).1 ≡ live s
  pub compatibility_keeps :
      (config : NftDnatConfig) (s : S) → live (c.compatibility_checker config s).1 ≡ live s
  pub identity_keeps : (name : Text) (s : S) → live (c.identity_factory name s).1 ≡ live s
  pub tun_refused :
      (config : TunConfig) (s : S) (e : Error)
      → (c.tun_acquirer config s).0 ≡ raised e
      → is_rollback e ≡ false
      → live (c.tun_acquirer config s).1 ≡ live s
  pub tun_acquired :
      (config : TunConfig) (s : S) (tun : TunHandle S)
      → (c.tun_acquirer config s).0 ≡ ok tun
      → live (c.tun_acquirer config s).1 ≡ tun_of tun ∷ live s
  pub tun_closed :
      (config : TunConfig) (s : S) (tun : TunHandle S) (u : S) (rest : List R)
      → (c.tun_acquirer config s).0 ≡ ok tun
      → live u ≡ tun_of tun ∷ rest
      → (tun.close u).0 ≡ ok tt
      → live (tun.close u).1 ≡ rest
  pub dnat_refused :
      (config : NftDnatConfig) (owner : NftOwnership) (s : S) (e : Error)
      → (c.dnat_acquirer config owner s).0 ≡ raised e
      → is_rollback e ≡ false
      → live (c.dnat_acquirer config owner s).1 ≡ live s
  pub dnat_acquired :
      (config : NftDnatConfig) (owner : NftOwnership) (s : S) (dnat : FirewallDnatLease S)
      → (c.dnat_acquirer config owner s).0 ≡ ok dnat
      → live (c.dnat_acquirer config owner s).1 ≡ dnat_of dnat ∷ live s
  pub dnat_closed :
      (config : NftDnatConfig) (owner : NftOwnership) (s : S) (dnat : FirewallDnatLease S) (u : S)
      (rest : List R)
      → (c.dnat_acquirer config owner s).0 ≡ ok dnat
      → live u ≡ dnat_of dnat ∷ rest
      → (dnat.close u).0 ≡ ok tt
      → live (dnat.close u).1 ≡ rest
  pub dnat_named :
      (config : NftDnatConfig) (owner : NftOwnership) (s : S) (dnat : FirewallDnatLease S)
      → (c.dnat_acquirer config owner s).0 ≡ ok dnat
      → is_empty dnat.resource_name ≡ false
