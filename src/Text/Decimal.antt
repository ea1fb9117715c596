-- ===== src/Text/Decimal.antt =====
-- A number written in decimal digits, as `stringstream << int` writes it.
use ft_irc_duck.Base.{ℕ, zero, suc, ◌+◌, ltb, if◌then◌else◌, [], ◌∷◌, ◌++◌}
use Prim.Native.Nat.{◌/◌, ◌%◌}
use ft_irc_duck.Text.{Text}

-- Each round takes a digit away; an int has ten at most.
unfoldable pub digits : ℕ → ℕ → Text
digits zero n = []
digits (suc fuel) n =
    let front = digits fuel (n / 10) in
    if ltb n 10 then (b'0' + n) ∷ [] else front ++ (b'0' + n % 10) ∷ []

unfoldable pub decimal : ℕ → Text
unfolding digits
decimal n = digits 10 n
