-- ===== src/Host/Firewall/Iptables/Lines.antt =====
-- The lines for iptables-restore are read back as they were meant, with the words of `shlex`.
use linux_tcp_cc.Base.{
  ◌≡◌, refl, ap, ◌∙◌, Bool, true, false, ◌&&◌, some, List, [], ◌∷◌, ◌++◌, Text, lit, ok, Bool-cases,
  Outcome-cases, inl, inr, append_assoc, arith,
}
use linux_tcp_cc.Host.Names.{all_in}
use linux_tcp_cc.Host.Process.{is_space}
use linux_tcp_cc.Host.Shlex.{word, between, tokens_from, split}
use linux_tcp_cc.Host.Shlex.Laws.{
  is_unquoted, is_plain, between_append, between-quotation, word-nil, word-blank,
}
use linux_tcp_cc.Host.Firewall.Iptables.{any_in, render, render_all, iptables_restore_line}

-- Not empty, with no quotation mark and no backslash.
abbrev pub is_quotable : Text → Bool
is_quotable [] = false
is_quotable (c ∷ text) = all_in is_unquoted (c ∷ text)

abbrev pub all_quotable : List Text → Bool
all_quotable [] = true
all_quotable (argument ∷ arguments) = is_quotable argument && all_quotable arguments

-- A blank is white space, so an argument without white space is plain.
all_in-plain :
    (text : Text)
    → all_in is_unquoted text ≡ true
    → any_in is_space text ≡ false
    → all_in is_plain text ≡ true
unfolding all_in any_in
all_in-plain [] h k = refl
all_in-plain (c ∷ text) h k = ground (arith, all_in-plain text)

between-render :
    (argument text rest : Text) (tokens : List Text)
    → render argument ≡ ok text
    → is_quotable argument ≡ true
    → tokens_from word rest ≡ some ([] ∷ tokens)
    → tokens_from between (text ++ rest) ≡ some (argument ∷ tokens)
unfolding render
between-render [] text rest tokens h q k = absurd (ground arith)
between-render (c ∷ argument) text rest tokens h q k =
    elim (Bool-cases (any_in is_space (c ∷ argument))) [
      | inl spaced ↦
          let is : text ≡ 34 ∷ ((c ∷ argument) ++ (34 ∷ [])) = ground arith in
          let shape : text ++ rest ≡ 34 ∷ ((c ∷ argument) ++ (34 ∷ rest)) =
            ap (λ t. t ++ rest) is
            ∙ ap (λ t. 34 ∷ t) (append_assoc (c ∷ argument) (34 ∷ []) rest) in
          ap (tokens_from between) shape ∙ between-quotation (c ∷ argument) rest tokens q k
      | inr solid ↦
          let is : text ≡ c ∷ argument = ground arith in
          ap (λ t. tokens_from between (t ++ rest)) is
          ∙ between_append c argument rest tokens (all_in-plain (c ∷ argument) q solid) k
    ]

word-render_all :
    (arguments : List Text) (rest : Text)
    → render_all arguments ≡ ok rest
    → all_quotable arguments ≡ true
    → tokens_from word rest ≡ some ([] ∷ arguments)
unfolding render_all
word-render_all [] rest h q =
    let is : rest ≡ [] = ground arith in ap (tokens_from word) is ∙ word-nil
word-render_all (argument ∷ arguments) rest h q = elim (Outcome-cases (render argument)) [
  | inr (e, bad) ↦ absurd (ground arith)
  | inl (text, shown) ↦ elim (Outcome-cases (render_all arguments)) [
    | inr (e, bad) ↦ absurd (ground arith)
    | inl (more, rendered) ↦
        let is : rest ≡ 32 ∷ (text ++ more) = ground arith in
        let tail = word-render_all arguments more rendered (ground arith) in
        ap (tokens_from word) is
        ∙ word-blank (text ++ more) (argument ∷ arguments)
            (between-render argument text more arguments shown (ground arith) tail)
  ]
]

-- A line that `_iptables_restore_line` returns, for a chain name that is not empty and has no
-- white space, and arguments that are not empty, all without quotation marks and backslashes, is
-- split by `shlex.split` into `-A`, the chain and exactly these arguments, also where an argument
-- holds spaces.
pub split-iptables_restore_line :
    (chain : Text) (arguments : List Text) (line : Text)
    → iptables_restore_line chain arguments ≡ ok line
    → is_quotable chain ≡ true
    → any_in is_space chain ≡ false
    → all_quotable arguments ≡ true
    → split line ≡ some (lit "-A" ∷ chain ∷ arguments)
unfolding iptables_restore_line split lit all_in
split-iptables_restore_line [] arguments line h q solid k = absurd (ground arith)
split-iptables_restore_line (c ∷ chain) arguments line h q solid k =
    elim (Outcome-cases (render_all arguments)) [
      | inr (e, bad) ↦ absurd (ground arith)
      | inl (rest, rendered) ↦
          let is : line ≡ lit "-A" ++ (32 ∷ ((c ∷ chain) ++ rest)) = ground arith in
          let tail = word-render_all arguments rest rendered k in
          let named =
            between_append c chain rest arguments (all_in-plain (c ∷ chain) q solid) tail in
          ap split is
          ∙ between_append b'-' (b'A' ∷ []) (32 ∷ ((c ∷ chain) ++ rest)) ((c ∷ chain) ∷ arguments)
              refl (word-blank ((c ∷ chain) ++ rest) ((c ∷ chain) ∷ arguments) named)
    ]
