-- ===== src/Host/Tun/Request.antt =====
-- The interface request and the name that is read back from it.
use linux_tcp_cc.Base.{
  ◌/◌, ◌%◌, append_assoc, ℕ, zero, suc, ◌≤◌, ◌<◌, ◌≡◌, refl, ◌∙◌, ap, true, [], ◌∷◌, ◌++◌, Text,
  length, length-append, length-take, length-replicate, take, replicate, take-take,
  take-append_exact, ok, arith,
}
use linux_tcp_cc.Host.Names.{all_in, is_tun_char, is_tun_name}
use linux_tcp_cc.Host.Tun.{
  padded, ifreq, until_nul, is_ascii, attached_name, tun_iff_flags, ifnamsiz, ifreq_size,
}

until_nul-padding :
    (name : Text) (n m : ℕ)
    → all_in is_tun_char name ≡ true
    → length name < n
    → 0 < m
    → until_nul (take n (name ++ replicate m 0)) ≡ name
unfolding until_nul all_in
until_nul-padding name zero m h l p = elim l [ ]
until_nul-padding name (suc n) zero h l p = elim p [ ]
until_nul-padding [] (suc n) (suc m) h l p = refl
until_nul-padding (c ∷ name) (suc n) (suc m) h l p =
    ground (arith, until_nul-padding name n (suc m))

is_ascii-name : (name : Text) → all_in is_tun_char name ≡ true → is_ascii name ≡ true
unfolding is_ascii all_in
is_ascii-name [] h = refl
is_ascii-name (c ∷ name) h = ground (arith, is_ascii-name name)

pattern_parts :
    (name : Text) → is_tun_name name ≡ true → (all_in is_tun_char name ≡ true) × (length name ≤ 15)
unfolding is_tun_name
pattern_parts [] h = absurd (ground arith)
pattern_parts (c ∷ name) h = (ground arith, ground arith)

length-padded : (width : ℕ) (bytes : Text) → length (padded width bytes) ≡ width
length-padded width bytes = omega (
  arith,
  length-take width (bytes ++ replicate width 0),
  length-append bytes (replicate width 0),
  length-replicate {A = ℕ} width 0,
)

take-ifreq : (name : Text) → take ifnamsiz (ifreq name) ≡ padded ifnamsiz name
unfolding ifreq
take-ifreq name =
    let flags : Text = (tun_iff_flags % 256) ∷ (tun_iff_flags / 256) ∷ [] in
    let zeros : Text = replicate ifreq_size 0 in
    take-take ifnamsiz ifreq_size ((padded ifnamsiz name ++ flags) ++ zeros) (omega arith)
    ∙ ap (take ifnamsiz) (append_assoc (padded ifnamsiz name) flags zeros)
    ∙ take-append_exact ifnamsiz (padded ifnamsiz name) (flags ++ zeros)
        (length-padded ifnamsiz name)

-- If the kernel leaves the request as it was for a valid name, which has at most 15 characters,
-- then the name that is read back from it is the name that was asked for.
pub attached_name-ifreq :
    (name : Text) → is_tun_name name ≡ true → attached_name (ifreq name) ≡ ok name
unfolding attached_name
attached_name-ifreq name h =
    let parts = pattern_parts name h in
    let read : until_nul (take ifnamsiz (ifreq name)) ≡ name =
      ap until_nul (take-ifreq name)
      ∙ until_nul-padding name ifnamsiz ifnamsiz parts.0 (omega arith) (omega arith) in
    rw read (rw (is_ascii-name name parts.0) refl)
