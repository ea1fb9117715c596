-- ===== src/Commands/Mode/Limit.antt =====
-- Mode::_channel_l of srcs/commands/management/Mode.cpp: the member limit, and how `stringstream >>
-- int` reads it: blanks, a sign, digits, and failure where there is no digit or the number does not
-- fit into the int.
pub mod Reading
use ft_irc_duck.Base.{
  ℕ, zero, suc, ◌+◌, ◌-◌, Bool, true, false, ◌&&◌, Option, none, some, List, [], ◌∷◌, ◌==◌, leb,
  ltb, if◌then◌else◌, Outcome, ok, ◌>>=◌,
}
use Prim.Native.Nat.{◌*◌}
use ft_irc_duck.Text.{Text, codes, has}
use ft_irc_duck.Reply.{err_needmoreparams}
use ft_irc_duck.Message.{Message}
use ft_irc_duck.Channel.{Channel}
use ft_irc_duck.Server.{Server}
use ft_irc_duck.Commands.Mode.Flags.{
  FlagStatus, unchanged, add, Modes, flag_of, set_chanmode, get_param,
}
use ft_irc_duck.Commands.Mode.Changes.{warn}

abbrev pub int_max : ℕ
int_max = 2147483647

abbrev pub is_digit : ℕ → Bool
is_digit c = leb b'0' c && leb c b'9'

-- The digits from the start of the text on, behind the number read so far.
unfoldable pub read_digits : ℕ → Text → ℕ
read_digits acc [] = acc
read_digits acc (c ∷ cs) =
    let later = read_digits (acc * 10 + (c - b'0')) cs in if is_digit c then later else acc

-- A number behind its sign. A negative number other than 0 is refused by the code as a failure is.
unfoldable pub read_unsigned : Bool → Text → Option ℕ
unfolding read_digits
read_unsigned negative [] = none
read_unsigned negative (c ∷ cs) =
    let n = read_digits 0 (c ∷ cs) in
    if is_digit c
    then (if leb n int_max
        then (if negative then (if n == 0 then some 0 else none) else some n)
        else none)
    else none

abbrev spaces : Text
spaces = b' ' ∷ b'\t' ∷ b'\n' ∷ 11 ∷ 12 ∷ b'\r' ∷ []

unfoldable pub skip_spaces : Text → Text
unfolding has
skip_spaces [] = []
skip_spaces (c ∷ cs) = let rest = skip_spaces cs in if has c spaces then rest else c ∷ cs

abbrev pub read_signed : Text → Option ℕ
read_signed [] = none
read_signed (c ∷ cs) =
    if c == b'+'
    then read_unsigned false cs
    else if c == b'-'
    then read_unsigned true cs
    else read_unsigned false (c ∷ cs)

-- `ss >> new_member_limit`, and the test of it: `none` where it failed or is negative.
unfoldable pub read_limit : Text → Option ℕ
unfolding skip_spaces read_unsigned
read_limit param = read_signed (skip_spaces param)

-- +l with a number.
unfoldable pub change_limit : ℕ → Modes → Channel → Modes × Channel
change_limit n md c =
    let changed : Modes × Channel = (md, record c { member_limit = some n }) in
    elim c.member_limit [
      | none ↦ changed
      | some old ↦ if old == n then (set_chanmode b'l' unchanged md, c) else changed
    ]

unfoldable pub drop_limit : Modes → Channel → Modes × Channel
drop_limit md c = elim c.member_limit [
  | none ↦ (set_chanmode b'l' unchanged md, c)
  | some old ↦ (md, record c { member_limit = none })
]

-- Mode::_channel_l
unfoldable pub channel_l : Message → Modes → Channel → Server → Outcome (Modes × Channel × Server)
channel_l m md c s = elim (flag_of b'l' md.all_chanmodes) [
  | unchanged ↦ ok (md, c, s)
  | add ↦ elim (read_limit (get_param b'l' md.mode_params)) [
    | none ↦ warn err_needmoreparams m.cmd m s >>= λ s'. ok (set_chanmode b'l' unchanged md, c, s')
    | some n ↦ let (md', c') = change_limit n md c in ok (md', c', s)
  ]
  | FlagStatus.remove ↦ let (md', c') = drop_limit md c in ok (md', c', s)
]
