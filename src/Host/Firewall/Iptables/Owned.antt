-- ===== src/Host/Firewall/Iptables/Owned.antt =====
-- What the lines of iptables-save say of a chain.
use linux_tcp_cc.Base.{
  ◌≡◌, refl, sym, ap, ◌∙◌, Bool, true, false, ◌||◌, some, List, [], ◌∷◌, ◌++◌, Text, lit, text_eq,
  text_eq_iff, ok, Option-cases, Bool-cases, inl, inr, ◌⊎◌, ◌==◌, arith,
}
use linux_tcp_cc.Host.Marker.Laws.{strip_prefix-append}
use linux_tcp_cc.Host.Names.{strip_prefix, starts_with, is_owned_chain}
use linux_tcp_cc.Host.Process.{Reader}
use linux_tcp_cc.Host.Process as Words
use linux_tcp_cc.Host.Shlex
use linux_tcp_cc.Host.Shlex.{splitlines}
use linux_tcp_cc.Host.Firewall.Iptables.Scan.{
  reserved, rule, after_comment, rule_marker, line_entry,
}

List-cases : {A : Type 0} (xs : List A) → (xs ≡ []) ⊎ ((x : A) × (rest : List A) × (xs ≡ x ∷ rest))
List-cases [] = inl refl
List-cases (x ∷ rest) = inr (x, rest, refl)

abbrev pub has_word : Text → List Text → Bool
has_word word [] = false
has_word word (token ∷ tokens) = text_eq token word || has_word word tokens

-- The line appends a rule to the chain, and the word behind its first --comment is this comment,
-- which begins with "tcpcc.owner.".
pub record IsMarked (line chain comment : Text) : Type 0 where
  pub rest : Text
  pub suffix : Text
  pub tokens : List Text
  pub before : List Text
  pub after : List Text
  pub line_is : line ≡ lit "-A " ++ rest
  pub split_is : Shlex.split line ≡ some (lit "-A" ∷ chain ∷ tokens)
  pub comment_at : lit "-A" ∷ chain ∷ tokens ≡ before ++ (lit "--comment" ∷ comment ∷ after)
  pub first : has_word (lit "--comment") before ≡ false
  pub comment_is : comment ≡ lit "tcpcc.owner." ++ suffix

-- The line declares a chain under a name that is reserved for tcpcc.
pub record IsDeclared (line chain : Text) : Type 0 where
  pub rest : Text
  pub words : List Text
  pub line_is : line ≡ b':' ∷ rest
  pub words_are : Words.split rest ≡ chain ∷ words
  pub is_owned : is_owned_chain chain ≡ true

-- The comments of all lines that mark the chain, in their order.
pub data Markers (chain : Text) : List Text → List Text → Type 0 where
  end : Markers chain [] []
  marked :
      {line comment : Text} {lines comments : List Text}
      → IsMarked line chain comment
      → Markers chain lines comments
      → Markers chain (line ∷ lines) (comment ∷ comments)
  unmarked :
      {line : Text} {lines comments : List Text}
      → ¬ ((comment : Text) × IsMarked line chain comment)
      → Markers chain lines comments
      → Markers chain (line ∷ lines) comments

abbrev pub IsLine : Text → List Text → Type 0
IsLine line [] = ⊥
IsLine line (other ∷ lines) = (line ≡ other) ⊎ IsLine line lines

strip_prefix-some :
    (prefix text rest : Text) → strip_prefix prefix text ≡ some rest → text ≡ prefix ++ rest
unfolding strip_prefix
strip_prefix-some [] text rest h = ground arith
strip_prefix-some (p ∷ prefix) [] rest h = absurd (ground arith)
strip_prefix-some (p ∷ prefix) (c ∷ text) rest h = elim (Bool-cases (p == c)) [
  | inr differ ↦ absurd (ground arith)
  | inl same ↦ ground (arith, strip_prefix-some prefix text rest)
]

starts_with-append :
    (text prefix : Text) → starts_with text prefix ≡ true → (rest : Text) × (text ≡ prefix ++ rest)
starts_with-append text prefix h = elim (Option-cases (strip_prefix prefix text)) [
  | inl nowhere ↦ absurd (ground arith)
  | inr (rest, found) ↦ (rest, strip_prefix-some prefix text rest found)
]

-- The word behind the first --comment.
abbrev CommentAt : List Text → Text → Type 0
CommentAt tokens comment =
    (before : List Text) × (after : List Text) × (tokens
      ≡ before ++ (lit "--comment" ∷ comment ∷ after))
    × (has_word (lit "--comment") before ≡ false)

after_comment_sound :
    (tokens : List Text) (comment : Text)
    → after_comment tokens ≡ some comment
    → CommentAt tokens comment
unfolding after_comment
after_comment_sound [] comment h = absurd (ground arith)
after_comment_sound (token ∷ []) comment h = absurd (ground arith)
after_comment_sound (token ∷ next ∷ tokens) comment h =
    elim (Bool-cases (text_eq token (lit "--comment"))) [
      | inl here ↦
          let word = (text_eq_iff token (lit "--comment")).0 here in
          let is : next ≡ comment = ground arith in
          (
            [],
            tokens,
            ap (λ t. t ∷ next ∷ tokens) word ∙ ap (λ n. lit "--comment" ∷ n ∷ tokens) is,
            refl,
          )
      | inr other ↦
          let (before, after, is, first) =
            after_comment_sound (next ∷ tokens) comment (ground arith) in
          (token ∷ before, after, ap (λ ts. token ∷ ts) is, ground arith)
    ]

after_comment_complete :
    (before after : List Text) (comment : Text)
    → has_word (lit "--comment") before ≡ false
    → after_comment (before ++ (lit "--comment" ∷ comment ∷ after)) ≡ some comment
unfolding after_comment
after_comment_complete [] after comment h =
    ground (arith, text_eq_iff (lit "--comment") (lit "--comment"))
after_comment_complete (b ∷ []) after comment h =
    ground (arith, after_comment_complete [] after comment)
after_comment_complete (b ∷ c ∷ before) after comment h =
    ground (arith, after_comment_complete (c ∷ before) after comment)

rule_marker_sound :
    (tokens : List Text) (chain comment : Text)
    → rule_marker tokens ≡ some (chain, comment)
    → (rest : List Text) × (suffix : Text) × (tokens ≡ lit "-A" ∷ chain ∷ rest)
      × (comment ≡ lit "tcpcc.owner." ++ suffix)
      × (after_comment tokens ≡ some comment)
unfolding rule_marker
rule_marker_sound [] chain comment h = absurd (ground arith)
rule_marker_sound (token ∷ []) chain comment h = absurd (ground arith)
rule_marker_sound (token ∷ name ∷ tokens) chain comment h =
    elim (Bool-cases (text_eq token (lit "-A"))) [
      | inr other ↦ absurd (ground arith)
      | inl append ↦ elim (Option-cases (after_comment (token ∷ name ∷ tokens))) [
        | inl nowhere ↦ absurd (ground arith)
        | inr (found, at) ↦ elim (Bool-cases (starts_with found (lit "tcpcc.owner."))) [
          | inr foreign ↦ absurd (ground arith)
          | inl ours ↦
              let word = (text_eq_iff token (lit "-A")).0 append in
              let (suffix, is) = starts_with-append found (lit "tcpcc.owner.") ours in
              let same : found ≡ comment = ground arith in
              let chained : name ≡ chain = ground arith in
              (
                tokens,
                suffix,
                ap (λ t. t ∷ name ∷ tokens) word ∙ ap (λ n. lit "-A" ∷ n ∷ tokens) chained,
                sym same ∙ is,
                at ∙ ap some same,
              )
        ]
      ]
    ]

-- A rule is not a declaration.
not_declaration : (line rest : Text) → line ≡ lit "-A " ++ rest → starts_with line (lit ":") ≡ false
unfolding lit strip_prefix
not_declaration line rest h = rw h refl

not_empty : (rest : Text) → [] ≡ lit "-A " ++ rest → ⊥
unfolding lit
not_empty rest h = ground arith

declaration : (line rest : Text) → line ≡ b':' ∷ rest → starts_with line (lit ":") ≡ true
unfolding lit strip_prefix
declaration line rest h = rw h refl

pub line_entry-marked :
    (line chain comment : Text)
    → IsMarked line chain comment
    → line_entry line ≡ ok (rule chain comment)
unfolding line_entry rule_marker
line_entry-marked [] chain comment m = elim (not_empty m.rest m.line_is) [ ]
line_entry-marked (c ∷ line) chain comment m =
    let words =
      ap after_comment m.comment_at ∙ after_comment_complete m.before m.after comment m.first in
    let ours : strip_prefix (lit "tcpcc.owner.") comment ≡ some m.suffix =
      ap (strip_prefix (lit "tcpcc.owner.")) m.comment_is
      ∙ strip_prefix-append (lit "tcpcc.owner.") m.suffix in
    let appends : strip_prefix (lit "-A ") (c ∷ line) ≡ some m.rest =
      ap (strip_prefix (lit "-A ")) m.line_is ∙ strip_prefix-append (lit "-A ") m.rest in
    let plain = not_declaration (c ∷ line) m.rest m.line_is in
    ground (arith, m.split_is, text_eq_iff (lit "-A") (lit "-A"))

pub line_entry-declared :
    (line chain : Text) → IsDeclared line chain → line_entry line ≡ ok (reserved chain)
unfolding line_entry
line_entry-declared [] chain d = absurd (ground (arith, d.line_is))
line_entry-declared (c ∷ line) chain d =
    let declares = declaration (c ∷ line) d.rest d.line_is in
    let same : line ≡ d.rest = ground (arith, d.line_is) in
    let words : Words.split line ≡ chain ∷ d.words = ap Words.split same ∙ d.words_are in
    ground (arith, d.is_owned)

pub line_entry-IsMarked :
    (line chain comment : Text)
    → line_entry line ≡ ok (rule chain comment)
    → IsMarked line chain comment
unfolding line_entry
line_entry-IsMarked [] chain comment h = absurd (ground arith)
line_entry-IsMarked (c ∷ line) chain comment h =
    elim (Bool-cases (starts_with (c ∷ line) (lit ":"))) [
      | inl declares ↦ elim (List-cases (Words.split line)) [
        | inl blank ↦ absurd (ground arith)
        | inr (name, words, is) ↦ elim (Bool-cases (is_owned_chain name)) [
          | inl ours ↦ absurd (ground arith)
          | inr foreign ↦ absurd (ground arith)
        ]
      ]
      | inr other ↦ elim (Bool-cases (starts_with (c ∷ line) (lit "-A "))) [
        | inr nothing_said ↦ absurd (ground arith)
        | inl appends ↦ elim (Option-cases (Shlex.split (c ∷ line))) [
          | inl unclosed ↦ absurd (ground arith)
          | inr (tokens, is) ↦ elim (Option-cases (rule_marker tokens)) [
            | inl none_marked ↦ absurd (ground arith)
            | inr ((name, found), got) ↦
                let same : (name, found) ≡ (chain, comment) = ground arith in
                let (rest, behind) = starts_with-append (c ∷ line) (lit "-A ") appends in
                let (tail, suffix, shape, ours, at) =
                  rule_marker_sound tokens chain comment (got ∙ ap some same) in
                let (before, after, place, first) = after_comment_sound tokens comment at in
                record {
                  rest = rest;
                  suffix = suffix;
                  tokens = tail;
                  before = before;
                  after = after;
                  line_is = behind;
                  split_is = is ∙ ap some shape;
                  comment_at = sym shape ∙ place;
                  first = first;
                  comment_is = ours;
                }
          ]
        ]
      ]
    ]
