-- ===== src/Host/Process/Laws.antt =====
-- The start time does not depend on the name of the command.
use linux_tcp_cc.Base.{
  ◌≡◌, refl, Bool, false, none, some, [], ◌∷◌, ◌++◌, Text, ok, ℕ, ◌==◌, ◌||◌, arith,
}
use linux_tcp_cc.Host.Process.{Reader, after_last_paren, process_start_time}

unfoldable pub has_paren : Text → Bool
has_paren [] = false
has_paren (c ∷ text) = c == b')' || has_paren text

after_last_paren-none : (text : Text) → has_paren text ≡ false → after_last_paren text ≡ none
unfolding has_paren after_last_paren
after_last_paren-none [] h = refl
after_last_paren-none (c ∷ text) h = ground (arith, after_last_paren-none text)

after_last_paren-append :
    (before rest : Text)
    → has_paren rest ≡ false
    → after_last_paren (before ++ (b')' ∷ rest)) ≡ some rest
unfolding after_last_paren
after_last_paren-append [] rest h = ground (arith, after_last_paren-none rest h)
after_last_paren-append (c ∷ before) rest h = ground (arith, after_last_paren-append before rest h)

-- Two processes whose stat lines agree behind their last parenthesis have the same start time,
-- or fail alike, whatever stands in their command names, further parentheses and spaces included.
pub process_start_time_command :
    (reader : Reader) (pid pid' : ℕ) (before before' rest : Text)
    → has_paren rest ≡ false
    → reader pid ≡ ok (before ++ (b')' ∷ rest))
    → reader pid' ≡ ok (before' ++ (b')' ∷ rest))
    → process_start_time reader pid ≡ process_start_time reader pid'
unfolding process_start_time
process_start_time_command reader pid pid' before before' rest h e e' =
    ground (arith, after_last_paren-append before rest h, after_last_paren-append before' rest h)
