-- ===== src/Host/Firewall/Nft.antt =====
-- The nftables backend: `_dnat_batch`, the dry run, `NftDnatLease`, `install_nft_dnat` and
-- `NftFirewallBackend`, over a transport that submits the commands.
pub mod Batch
pub mod Laws
use linux_tcp_cc.Base.{
  Bool, true, false, not, ◌||◌, Option, none, some, List, [], ◌∷◌, ◌++◌, Text, lit, ⊤, Error,
  value_error, command_failed, nft_incompatible, Outcome, ok, raised, Action, pure, throw, lift,
  catch, ◌>>=◌, ◌>>◌, raise_if, text_eq, if◌then◌else◌,
}
use linux_tcp_cc.Base.Decimal.{decimal}
use linux_tcp_cc.Host.Names.{is_nft_table_name}
use linux_tcp_cc.Host.Config.{NftDnatConfig, NftOwnership, table_family, dnat_destination}
use linux_tcp_cc.Host.Marker.{marker}
use linux_tcp_cc.Host.Ownership.{inspect_nft_ownership}
use linux_tcp_cc.Host.Reports.{OwnershipReport}
use linux_tcp_cc.Host.Network.{FirewallDnatLease}
use linux_tcp_cc.Host.Tun.{is_path}
use linux_tcp_cc.Host.Firewall.{
  FirewallBackend, Platform, Runner, concat, newline, quote, chosen_name, once,
  current_nft_ownership,
}

-- The protocol `NftTransport`.
pub record NftTransport (S : Type 0) : Type 0 where
  pub backend_id : Text
  pub command_name : Text
  pub run : List Text → Option Text → Action S ⊤
  pub read : List Text → Action S Text

-- `NftDnatLease`, whose runner is the transport's.
pub record NftDnatLease : Type 0 where
  pub table_name : Text
  pub backend_id : Text
  pub nft_path : Text
  pub table_family : Text
  pub closed : Bool

abbrev pub owner_comment : Option NftOwnership → Text
owner_comment none = []
owner_comment (some owner) = concat (lit " comment " ∷ quote ∷ marker owner ∷ quote ∷ [])

-- `_dnat_batch`
unfoldable pub dnat_batch : NftDnatConfig → Text → Option NftOwnership → Text
unfolding concat dnat_destination
dnat_batch config table_name ownership =
    let table : Text = concat (table_family config.family ∷ lit " " ∷ table_name ∷ []) in
    concat (
      lit "create table "
      ∷ table
      ∷ newline
      ∷ lit "add chain "
      ∷ table
      ∷ lit " prerouting { type nat hook prerouting priority dstnat; policy accept; }"
      ∷ newline
      ∷ lit "add rule "
      ∷ table
      ∷ lit " prerouting "
      ∷ table_family config.family
      ∷ lit " daddr "
      ∷ config.listen_address
      ∷ lit " tcp dport "
      ∷ decimal config.listen_port
      ∷ lit " counter dnat to "
      ∷ dnat_destination config
      ∷ owner_comment ownership
      ∷ newline
      ∷ [])

-- `_new_nft_table_name`
unfoldable pub new_nft_table_name : {S : Type 0} → Platform S → Action S Text
new_nft_table_name platform = do token ← platform.token_hex; pure (lit "tcpcc_" ++ token)

-- The three commands that change something or try to, and the one that lists.
abbrev pub file_command : Text → List Text
file_command nft_path = nft_path ∷ lit "--file" ∷ lit "-" ∷ []

abbrev pub check_command : Text → List Text
check_command nft_path = nft_path ∷ lit "--check" ∷ lit "--file" ∷ lit "-" ∷ []

abbrev pub delete_command : Text → Text → Text → List Text
delete_command nft_path family name = nft_path ∷ lit "delete" ∷ lit "table" ∷ family ∷ name ∷ []

abbrev pub list_command : Text → Text → List Text
list_command nft_path family = nft_path ∷ lit "--json" ∷ lit "list" ∷ lit "ruleset" ∷ family ∷ []

-- `except subprocess.CalledProcessError as error: raise NftCompatibilityError(error)`
abbrev pub incompatible : Error → Error
incompatible (command_failed status) = nft_incompatible (command_failed status)
incompatible e = e

-- `table_family in {"ip", "ip6"}`
unfoldable pub is_table_family : Text → Bool
is_table_family family = text_eq family (lit "ip") || text_eq family (lit "ip6")

module _ {S : Type 0} (platform : Platform S) (transport : NftTransport S) where
  -- `check_nft_dnat_compatibility`
  unfoldable pub check_nft_dnat_compatibility : NftDnatConfig → NftOwnership → Action S ⊤
  unfolding chosen_name dnat_batch new_nft_table_name
  check_nft_dnat_compatibility config ownership = do
    raise_if (not (is_path transport.command_name)) (value_error "nft_path")
    name ←
        chosen_name is_nft_table_name (value_error "nftables table name") none
          (new_nft_table_name platform)
    catch
        (transport.run (check_command transport.command_name)
          (some (dnat_batch config name (some ownership))))
        (λ e. throw (incompatible e))

  -- `NftDnatLease.close`
  unfoldable pub close : Action (NftDnatLease × S) ⊤
  close (lease, s) = elim lease.closed [
    | true ↦ (ok tt, (lease, s))
    | false ↦
        let (r, t) =
          transport.run (delete_command lease.nft_path lease.table_family lease.table_name) none
            s in
        (r, (record lease { closed = true }, t))
  ]

  -- `install_nft_dnat`
  unfoldable pub install_nft_dnat : NftDnatConfig → Option NftOwnership → Action S NftDnatLease
  unfolding chosen_name dnat_batch new_nft_table_name
  install_nft_dnat config ownership = do
    raise_if (not (is_path transport.command_name)) (value_error "nft_path")
    name ←
        chosen_name is_nft_table_name (value_error "nftables table name") config.table_name
          (new_nft_table_name platform)
    transport.run (file_command transport.command_name) (some (dnat_batch config name ownership))
    pure (record {
      table_name = name;
      backend_id = transport.backend_id;
      nft_path = transport.command_name;
      table_family = table_family config.family;
      closed = false;
    })

  -- The properties of a lease that the transaction reads.
  abbrev pub lease_of : NftDnatLease → FirewallDnatLease S
  lease_of lease = record {
    backend_id = lease.backend_id;
    resource_name = lease.table_name;
    close = once close lease;
  }

  -- `inspect_nft_ownership` with its checks and its command.
  unfoldable pub inspect_ruleset : Text → Action S OwnershipReport
  unfolding is_table_family inspect_nft_ownership
  inspect_ruleset family = do
    raise_if (not (is_path transport.command_name)) (value_error "nft_path")
    raise_if (not (is_table_family family)) (value_error "table_family")
    raw ← transport.read (list_command transport.command_name family)
    λ s. (inspect_nft_ownership platform.loads family (platform.proc s) raw, s)

  -- The methods of `NftFirewallBackend`.
  abbrev pub same_family : NftDnatConfig → Text → Bool
  same_family config family = text_eq (table_family config.family) family

  unfoldable pub check_compatibility : Text → NftDnatConfig → Action S ⊤
  unfolding check_nft_dnat_compatibility current_nft_ownership
  check_compatibility family config = do
    raise_if (not (same_family config family)) (value_error "nftables backend address family")
    ownership ← current_nft_ownership platform (lit "tcpcc-probe")
    check_nft_dnat_compatibility config ownership

  unfoldable pub install : Text → NftDnatConfig → NftOwnership → Action S (FirewallDnatLease S)
  unfolding install_nft_dnat
  install family config ownership = do
    raise_if (not (same_family config family)) (value_error "nftables backend address family")
    lease ← install_nft_dnat config (some ownership)
    pure (lease_of lease)
