-- ===== src/Host/Marker/Laws.antt =====
-- A marker that was written is read back.
use linux_tcp_cc.Base.{ℕ, ◌<◌, ◌≡◌, refl, true, false, some, [], ◌∷◌, ◌++◌, Text, lit, arith, codes}
use linux_tcp_cc.Base.Decimal.{is_digit, decimal}
use linux_tcp_cc.Base.Decimal.Laws.{
  int_of-decimal, all_digits-decimal, is_positive_numeral-decimal, digit_span-append,
}
use linux_tcp_cc.Host.Names.{strip_prefix, is_tun_pattern}
use linux_tcp_cc.Host.Config.{NftOwnership}
use linux_tcp_cc.Host.Marker.{marker, numbered, tun_of, parse_marker}

pub strip_prefix-append : (prefix text : Text) → strip_prefix prefix (prefix ++ text) ≡ some text
unfolding strip_prefix
strip_prefix-append [] text = refl
strip_prefix-append (c ∷ prefix) text = ground (arith, strip_prefix-append prefix text)

-- A number that is printed between a literal and a character that is no digit.
numbered-decimal :
    (prefix : Text) (n c : ℕ) (rest : Text)
    → 0 < n
    → is_digit c ≡ false
    → numbered prefix (prefix ++ (decimal n ++ (c ∷ rest))) ≡ some (n, c ∷ rest)
unfolding numbered
numbered-decimal prefix n c rest p h = ground (
  arith,
  strip_prefix-append prefix (decimal n ++ (c ∷ rest)),
  digit_span-append (decimal n) c rest (all_digits-decimal n) h,
  is_positive_numeral-decimal n p,
  int_of-decimal n,
)

tun_of-name : (name : Text) → is_tun_pattern name ≡ true → tun_of (lit " tun=" ++ name) ≡ some name
unfolding tun_of
tun_of-name name h = ground (arith, strip_prefix-append (lit " tun=") name)

-- The marker of an identity with positive numbers and a name that fits the pattern is matched,
-- and its groups are the pid, the start time and the TUN name of the identity.
pub parse_marker-marker :
    (o : NftOwnership)
    → 0 < o.pid
    → 0 < o.start_time
    → is_tun_pattern o.tun_name ≡ true
    → parse_marker (marker o) ≡ some o
unfolding marker parse_marker lit
parse_marker-marker o p q h = ground (
  arith,
  numbered-decimal (lit "tcpcc.owner.v1 pid=") o.pid b' '
      (codes "start=" ++ (decimal o.start_time ++ (lit " tun=" ++ o.tun_name))) p refl,
  numbered-decimal (lit " start=") o.start_time b' ' (codes "tun=" ++ o.tun_name) q refl,
  tun_of-name o.tun_name h,
)
