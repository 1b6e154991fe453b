-- ===== src/Host/Marker.antt =====
-- The ownership marker of a rule: `NftOwnership.marker` and the pattern `NFT_OWNER_MARKER` with
-- the `int` of its two groups, as `_classify` and `inspect_nft_ownership` read them.
pub mod Laws
use linux_tcp_cc.Base.{
  ℕ, Bool, true, false, ◌&&◌, Option, none, some, ◌++◌, Text, lit, if◌then◌else◌,
}
use linux_tcp_cc.Base.Decimal.{decimal, int_of, digit_span, is_positive_numeral}
use linux_tcp_cc.Host.Names.{strip_prefix, is_tun_pattern}
use linux_tcp_cc.Host.Config.{NftOwnership}

-- `NftOwnership.marker`
unfoldable pub marker : NftOwnership → Text
marker o =
    lit "tcpcc.owner.v1 pid="
    ++ (decimal o.pid ++ (lit " start=" ++ (decimal o.start_time ++ (lit " tun=" ++ o.tun_name))))

-- A literal, then `([1-9][0-9]*)`; the number and what follows it.
unfoldable pub numbered : Text → Text → Option (ℕ × Text)
numbered prefix text = elim (strip_prefix prefix text) [
  | none ↦ none
  | some rest ↦
      let (digits, tail) = digit_span rest in
      if is_positive_numeral digits then some (int_of digits, tail) else none
]

-- ` tun=([A-Za-z0-9_.-]{1,15})\Z`
unfoldable pub tun_of : Text → Option Text
tun_of text = elim (strip_prefix (lit " tun=") text) [
  | none ↦ none
  | some name ↦ if is_tun_pattern name then some name else none
]

abbrev with_tun : ℕ → ℕ → Option Text → Option NftOwnership
with_tun pid start none = none
with_tun pid start (some name) = some (record { pid = pid; start_time = start; tun_name = name })

-- `NFT_OWNER_MARKER.fullmatch(comment)`
unfoldable pub parse_marker : Text → Option NftOwnership
unfolding numbered tun_of
parse_marker comment = elim (numbered (lit "tcpcc.owner.v1 pid=") comment) [
  | none ↦ none
  | some (pid, rest) ↦ elim (numbered (lit " start=") rest) [
    | none ↦ none
    | some (start, tail) ↦ with_tun pid start (tun_of tail)
  ]
]
