-- ===== src/Host/Firewall.antt =====
-- The firewall of tools/tcpcc_host.py behind its protocol: what `acquire_host_network` calls, and
-- what both backends share. Commands act on a state `S`.
pub mod Contract
pub mod Nft
pub mod Iptables
pub mod Choice
pub mod Identity
use linux_tcp_cc.Base.{
  ℕ, Bool, true, false, not, Option, none, some, List, [], ◌∷◌, ◌++◌, Text, lit, ⊤, Error,
  value_error, Outcome, Action, pure, lift, ◌>>=◌, ◌>>◌, raise_if,
}
use linux_tcp_cc.Base.Int.{pos}
use linux_tcp_cc.Host.Config.{NftDnatConfig, NftOwnership, nft_ownership}
use linux_tcp_cc.Host.Process.{Reader, process_start_time}
use linux_tcp_cc.Host.Ownership.{Json}
use linux_tcp_cc.Host.Reports.{OwnershipReport}
use linux_tcp_cc.Host.Network.{FirewallDnatLease}

-- `FirewallCommandRunner`: the arguments and the text for stdin; what the command printed.
abbrev pub Runner : Type 0 → Type 0
Runner S = List Text → Option Text → Action S Text

-- The protocol `FirewallBackend`.
pub record FirewallBackend (S : Type 0) : Type 0 where
  pub backend_id : Text
  pub inspect_ownership : Action S OwnershipReport
  pub check_compatibility : NftDnatConfig → Action S ⊤
  pub install : NftDnatConfig → NftOwnership → Action S (FirewallDnatLease S)

-- What the defaults of the arguments look up: `json.loads`, the files of /proc, `os.getpid` and
-- `secrets.token_hex(6)`.
pub record Platform (S : Type 0) : Type 0 where
  pub loads : Text → Option Json
  pub proc : S → Reader
  pub getpid : ℕ
  pub token_hex : Action S Text

-- `nft_path`, `iptables_path`, `iptables_restore_path` and `iptables_save_path`.
pub record ToolPaths : Type 0 where
  pub nft_path : Text
  pub iptables_path : Text
  pub iptables_restore_path : Text
  pub iptables_save_path : Text

-- `"".join(texts)`
unfoldable pub concat : List Text → Text
concat [] = []
concat (text ∷ texts) = text ++ concat texts

abbrev pub newline : Text
newline = 10 ∷ []

abbrev pub quote : Text
quote = 34 ∷ []

-- The name in the configuration, or else a new one, which must fit the pattern.
unfoldable pub chosen_name :
    {S : Type 0} → (Text → Bool) → Error → Option Text → Action S Text → Action S Text
chosen_name valid error wanted factory = do
  name ← elim wanted [ none ↦ factory | some name ↦ pure name ]
  raise_if (not (valid name)) error
  pure name

-- A lease object as its owner sees it: the journal calls `close` at most once.
abbrev pub once : {S L : Type 0} → Action (L × S) ⊤ → L → Action S ⊤
once close lease s = let (r, (_, t)) = close (lease, s) in (r, t)

-- `current_nft_ownership`
unfoldable pub current_nft_ownership : {S : Type 0} → Platform S → Text → Action S NftOwnership
unfolding nft_ownership
current_nft_ownership platform tun_name = do
  start_time ← λ s. (process_start_time (platform.proc s) platform.getpid, s)
  lift (nft_ownership (pos platform.getpid) (pos start_time) tun_name)
