-- ===== src/Commands/Mode/Limit/Reading.antt =====
-- Member limits that are written and read again.
use ft_irc_duck.Base.{
  ℕ, zero, suc, ◌+◌, ◌-◌, ◌≤◌, ◌<◌, true, false, some, [], ◌∷◌, ◌++◌, ◌≡◌, refl, ◌∙◌, ap, arith,
  ltb, Bool-cases, inl, inr, All, is_empty,
}
use Prim.Native.Nat.{◌*◌, ◌/◌, ◌%◌}
use ft_irc_duck.Text.{Text, has}
use ft_irc_duck.Text.Decimal.{digits, decimal}
use ft_irc_duck.Commands.Mode.Limit.{
  int_max, is_digit, read_digits, read_unsigned, skip_spaces, read_limit,
}

abbrev pub AreDigits : Text → Type 0
AreDigits = All λ c. is_digit c ≡ true

read_digits-append :
    (acc : ℕ) (t : Text) (c : ℕ)
    → AreDigits t
    → is_digit c ≡ true
    → read_digits acc (t ++ c ∷ []) ≡ read_digits acc t * 10 + (c - b'0')
unfolding read_digits
read_digits-append acc [] c h k = ground (arith, k)
read_digits-append acc (x ∷ xs) c h k =
    rw h.0 (read_digits-append (acc * 10 + (x - b'0')) xs c h.1 k)

is_digit_digit : (d : ℕ) → d < 10 → is_digit (b'0' + d) ≡ true
is_digit_digit d h = ground arith

append-AreDigits : (t : Text) (c : ℕ) → AreDigits t → is_digit c ≡ true → AreDigits (t ++ c ∷ [])
append-AreDigits [] c h k = (k, tt)
append-AreDigits (x ∷ xs) c h k = (h.0, append-AreDigits xs c h.1 k)

pub digits-AreDigits : (fuel n : ℕ) → AreDigits (digits fuel n)
unfolding digits
digits-AreDigits zero n = tt
digits-AreDigits (suc fuel) n = elim (Bool-cases (ltb n 10)) [
  | inl h ↦ rw h (is_digit_digit n (ground (arith, h)), tt)
  | inr h ↦ rw h (
      append-AreDigits (digits fuel (n / 10)) (b'0' + n % 10) (digits-AreDigits fuel (n / 10))
        (is_digit_digit (n % 10) (omega arith)))
]

-- The bound on what so many digits can write.
abbrev pub power_of_ten : ℕ → ℕ
power_of_ten zero = 1
power_of_ten (suc fuel) = power_of_ten fuel * 10

pub read_digits-digits : (fuel n : ℕ) → n < power_of_ten fuel → read_digits 0 (digits fuel n) ≡ n
unfolding digits
read_digits-digits zero n h = unfold read_digits in omega arith
read_digits-digits (suc fuel) n h = elim (Bool-cases (ltb n 10)) [
  | inl k ↦ rw k (unfold read_digits in rw (is_digit_digit n (ground (arith, k))) (omega arith))
  | inr k ↦ rw k (
      read_digits-append 0 (digits fuel (n / 10)) (b'0' + n % 10) (digits-AreDigits fuel (n / 10))
        (is_digit_digit (n % 10) (omega arith))
      ∙ rw (read_digits-digits fuel (n / 10) (omega arith)) (omega arith))
]

read_limit_digits :
    (t : Text)
    → is_empty t ≡ false
    → AreDigits t
    → read_digits 0 t ≤ int_max
    → read_limit t ≡ some (read_digits 0 t)
unfolding read_limit skip_spaces read_unsigned has
read_limit_digits [] e h le = cc
read_limit_digits (c ∷ cs) e h le = ground (arith, h.0)

pub digits_not_empty : (fuel n : ℕ) → is_empty (digits (suc fuel) n) ≡ false
unfolding digits
digits_not_empty fuel n = elim (Bool-cases (ltb n 10)) [
  | inl h ↦ rw h refl
  | inr h ↦ rw h (append_not_empty (digits fuel (n / 10)))
]
  where
    append_not_empty : (t : Text) → is_empty (t ++ (b'0' + n % 10) ∷ []) ≡ false
    append_not_empty [] = refl
    append_not_empty (x ∷ xs) = refl

-- A member limit that fits into an int, as the server writes it in an answer, is read back by MODE +l
-- as the same limit.
pub read_limit-decimal : (n : ℕ) → n ≤ int_max → read_limit (decimal n) ≡ some n
unfolding decimal
read_limit-decimal n h =
    let e = read_digits-digits 10 n (omega arith) in
    read_limit_digits (digits 10 n) (digits_not_empty 9 n) (digits-AreDigits 10 n) (rw e h)
    ∙ ap some e
