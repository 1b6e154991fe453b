-- ===== src/Host/Shlex/Laws.antt =====
-- How plain and quoted arguments are read back.
use linux_tcp_cc.Base.{
  ℕ, ◌≡◌, refl, Bool, true, ◌&&◌, not, some, List, [], ◌∷◌, ◌++◌, Text, ◌==◌, arith,
}
use linux_tcp_cc.Host.Shlex.{is_blank, is_quote, backslash, between, word, quoted, tokens_from}
use linux_tcp_cc.Host.Names.{all_in}

-- Neither a quotation mark nor a backslash.
abbrev pub is_unquoted : ℕ → Bool
is_unquoted c = not (is_quote c) && not (c == backslash)

-- Nor a blank.
abbrev pub is_plain : ℕ → Bool
is_plain c = is_unquoted c && not (is_blank c)

-- A run of plain characters up to the end of the token.
word_append :
    (text rest : Text) (tokens : List Text)
    → all_in is_plain text ≡ true
    → tokens_from word rest ≡ some ([] ∷ tokens)
    → tokens_from word (text ++ rest) ≡ some (text ∷ tokens)
unfolding tokens_from all_in
word_append [] rest tokens h k = k
word_append (c ∷ text) rest tokens h k = ground (arith, word_append text rest tokens)

pub between_append :
    (c : ℕ) (text rest : Text) (tokens : List Text)
    → all_in is_plain (c ∷ text) ≡ true
    → tokens_from word rest ≡ some ([] ∷ tokens)
    → tokens_from between ((c ∷ text) ++ rest) ≡ some ((c ∷ text) ∷ tokens)
unfolding tokens_from all_in
between_append c text rest tokens h k = ground (arith, word_append text rest tokens)

quotation_append :
    (text rest : Text) (tokens : List Text)
    → all_in is_unquoted text ≡ true
    → tokens_from word rest ≡ some ([] ∷ tokens)
    → tokens_from (quoted 34) (text ++ (34 ∷ rest)) ≡ some (text ∷ tokens)
unfolding tokens_from all_in
quotation_append [] rest tokens h k = ground arith
quotation_append (c ∷ text) rest tokens h k = ground (arith, quotation_append text rest tokens)

pub between-quotation :
    (text rest : Text) (tokens : List Text)
    → all_in is_unquoted text ≡ true
    → tokens_from word rest ≡ some ([] ∷ tokens)
    → tokens_from between (34 ∷ (text ++ (34 ∷ rest))) ≡ some (text ∷ tokens)
unfolding tokens_from
between-quotation text rest tokens h k = ground (arith, quotation_append text rest tokens)

-- The end of a token, at the end of the text and before a space.
pub word-nil : tokens_from word [] ≡ some ([] ∷ [])
unfolding tokens_from
word-nil = refl

pub word-blank :
    (rest : Text) (tokens : List Text)
    → tokens_from between rest ≡ some tokens
    → tokens_from word (32 ∷ rest) ≡ some ([] ∷ tokens)
unfolding tokens_from
word-blank rest tokens h = ground arith
