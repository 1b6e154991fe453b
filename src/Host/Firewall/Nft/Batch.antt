-- ===== src/Host/Firewall/Nft/Batch.antt =====
-- The batch of `_dnat_batch` is a table, a chain and a rule of one line each.
use linux_tcp_cc.Base.{
  ℕ, Bool, ◌&&◌, ◌++◌, append_assoc, lit, ◌⊎◌, ◌∙◌, ◌≡◌, refl, [], true, ap, sym, Option, some,
  List, ◌∷◌, Text, inl, inr, arith,
}
use linux_tcp_cc.Base.Decimal.{decimal}
use linux_tcp_cc.Base.Decimal.Laws.{all_digits-decimal}
use linux_tcp_cc.Service.Endpoint.{lacks}
use linux_tcp_cc.Service.Endpoint.Laws.{lacks-append, digits-lack}
use linux_tcp_cc.Host.Address.{Family, v4, v6}
use linux_tcp_cc.Host.Marker.{marker}
use linux_tcp_cc.Host.Config.{dnat_destination, NftDnatConfig, NftOwnership, table_family}
use linux_tcp_cc.Host.Names.{all_in}
use linux_tcp_cc.Host.Firewall.{concat, newline, quote}
use linux_tcp_cc.Host.Firewall.Nft.{owner_comment, dnat_batch}

-- Three lines for nft: a table, a chain in it, and a rule in this chain, which is one line.
abbrev pub nft_batch : Text → Text → Text → Text
nft_batch family name rule =
    let table = concat (family ∷ lit " " ∷ name ∷ []) in
    concat (
      lit "create table "
      ∷ table
      ∷ newline
      ∷ lit "add chain "
      ∷ table
      ∷ lit " prerouting { type nat hook prerouting priority dstnat; policy accept; }"
      ∷ newline
      ∷ lit "add rule "
      ∷ table
      ∷ lit " prerouting "
      ∷ rule
      ∷ newline
      ∷ [])

concat-line :
    (texts : List Text) → concat (texts ++ (newline ∷ [])) ≡ concat texts ++ (newline ++ [])
unfolding concat
concat-line [] = refl
concat-line (text ∷ texts) =
    ap (λ x. text ++ x) (concat-line texts) ∙ sym (append_assoc text (concat texts) (newline ++ []))

-- No text has a newline.
abbrev all_lack : List Text → Bool
all_lack [] = true
all_lack (text ∷ texts) = lacks 10 text && all_lack texts

concat-lacks : (texts : List Text) → all_lack texts ≡ true → lacks 10 (concat texts) ≡ true
unfolding concat all_in
concat-lacks [] h = refl
concat-lacks (text ∷ texts) h =
    lacks-append 10 text (concat texts) (ground arith) (concat-lacks texts (ground arith))

decimal-lacks : (n : ℕ) → lacks 10 (decimal n) ≡ true
decimal-lacks n = digits-lack 10 (decimal n) (all_digits-decimal n) refl

-- The addresses and the name of the interface are one line each, as `ipaddress` prints addresses
-- and the pattern of names wants it.
abbrev pub is_one_line : NftDnatConfig → NftOwnership → Bool
is_one_line config owner =
    lacks 10 config.listen_address && lacks 10 config.target_address && lacks 10 owner.tun_name

-- The rule of `_dnat_batch`.
abbrev pub rule_parts : NftDnatConfig → Option NftOwnership → List Text
rule_parts config owner =
    table_family config.family
    ∷ lit " daddr "
    ∷ config.listen_address
    ∷ lit " tcp dport "
    ∷ decimal config.listen_port
    ∷ lit " counter dnat to "
    ∷ dnat_destination config
    ∷ owner_comment owner
    ∷ []

pub dnat_batch-nft_batch :
    (config : NftDnatConfig) (name : Text) (owner : Option NftOwnership)
    → dnat_batch config name owner
      ≡ nft_batch (table_family config.family) name (concat (rule_parts config owner))
unfolding dnat_batch concat
dnat_batch-nft_batch config name owner =
    let table = concat (table_family config.family ∷ lit " " ∷ name ∷ []) in
    ap
      (λ x.
        lit "create table "
        ++ (table
            ++ (newline
                ++ (lit "add chain "
                    ++ (table
                        ++ (lit
                              " prerouting { type nat hook prerouting priority dstnat; policy accept; }"
                            ++ (newline
                                ++ (lit "add rule " ++ (table ++ (lit " prerouting " ++ x))))))))))
      (concat-line (rule_parts config owner))

Family-cases : (f : Family) → (f ≡ v4) ⊎ (f ≡ v6)
Family-cases v4 = inl refl
Family-cases v6 = inr refl

family_lacks : (family : Family) → lacks 10 (table_family family) ≡ true
unfolding lit all_in
family_lacks v4 = refl
family_lacks v6 = refl

destination_lacks :
    (config : NftDnatConfig)
    → lacks 10 config.target_address ≡ true
    → lacks 10 (dnat_destination config) ≡ true
unfolding dnat_destination lit all_in
destination_lacks config h =
    let port = decimal-lacks config.target_port in
    elim (Family-cases config.family) [
      | inl is4 ↦ rw is4 (
          lacks-append 10 config.target_address (b':' ∷ decimal config.target_port) h
            (ground arith))
      | inr is6 ↦ rw is6 (
          lacks-append 10 config.target_address (b']' ∷ b':' ∷ decimal config.target_port) h
            (ground arith))
    ]

marker-lacks :
    (owner : NftOwnership) → lacks 10 owner.tun_name ≡ true → lacks 10 (marker owner) ≡ true
unfolding marker lit all_in
marker-lacks owner h =
    let start =
      lacks-append 10 (decimal owner.start_time) (lit " tun=" ++ owner.tun_name)
        (decimal-lacks owner.start_time) h in
    lacks-append 10 (decimal owner.pid)
      (lit " start=" ++ (decimal owner.start_time ++ (lit " tun=" ++ owner.tun_name)))
      (decimal-lacks owner.pid) start

comment_lacks :
    (owner : NftOwnership)
    → lacks 10 owner.tun_name ≡ true
    → lacks 10 (owner_comment (some owner)) ≡ true
unfolding lit all_in
comment_lacks owner h =
    concat-lacks (lit " comment " ∷ quote ∷ marker owner ∷ quote ∷ [])
      (ground (arith, marker-lacks owner h))

pub rule-lacks :
    (config : NftDnatConfig) (owner : NftOwnership)
    → is_one_line config owner ≡ true
    → lacks 10 (concat (rule_parts config (some owner))) ≡ true
unfolding lit all_in
rule-lacks config owner h =
    let listen : lacks 10 config.listen_address ≡ true = ground arith in
    let target : lacks 10 config.target_address ≡ true = ground arith in
    let named : lacks 10 owner.tun_name ≡ true = ground arith in
    concat-lacks (rule_parts config (some owner)) (
      rw
        (
          family_lacks config.family,
          listen,
          decimal-lacks config.listen_port,
          destination_lacks config target,
          comment_lacks owner named,
        )
        refl)
