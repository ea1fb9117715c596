-- ===== src/Startup/Port.antt =====
-- The port that the server of srcs/main.cpp listens on, and what main refuses.
use ft_irc_duck.Base.{ℕ, ◌≤◌, true, false, none, some, List, [], ◌∷◌, ◌≡◌, refl, arith}
use ft_irc_duck.Text.{Text, codes, has, find_by, find_first_not_of}
use ft_irc_duck.Text.Decimal.{decimal}
use ft_irc_duck.Server.{new_server}
use ft_irc_duck.Commands.Mode.Limit.{int_max, is_digit}
use ft_irc_duck.Commands.Mode.Limit.Reading.{
  AreDigits, digits-AreDigits, read_digits-digits, digits_not_empty,
}
use ft_irc_duck.Logger.{Log, major_lvl, log_entry, error_type}
use ft_irc_duck.Logger.Entries.{entry_text}
use ft_irc_duck.Startup.{
  Os, begin_log, refused, serving, open_server, read_port, htons, enter_loop, main,
}

has_digit : (c : ℕ) → is_digit c ≡ true → has c (codes "0123456789") ≡ true
unfolding has
has_digit c h = ground (arith, h)

find_first_not_of-digits :
    (t : Text) → AreDigits t → find_first_not_of (codes "0123456789") t ≡ none
unfolding find_first_not_of find_by
find_first_not_of-digits [] h = refl
find_first_not_of-digits (c ∷ cs) h =
    ground (arith, has_digit c h.0, find_first_not_of-digits cs h.1)

read_port-decimal : (os : Os) (n : ℕ) → n ≤ int_max → read_port os (decimal n) ≡ n
unfolding read_port decimal
read_port-decimal os n h =
    ground (arith, digits_not_empty 9 n, read_digits-digits 10 n (omega arith))

-- Where the operating system plays along, main serves on the port that its argument writes in
-- decimal digits, less what does not fit into 16 bits: every number that fits into an int is
-- accepted, and one from 65536 on opens another port than it names.
pub main_port :
    (os : Os) (prog pass : Text) (fd n : ℕ)
    → n ≤ int_max
    → os.socket ≡ some fd
    → os.binds (htons n) ≡ true
    → os.listens ≡ true
    → (l : Log) × (main os (prog ∷ decimal n ∷ pass ∷ [])
        ≡ serving (htons n) (new_server fd pass) l)
unfolding main open_server enter_loop
main_port os prog pass fd n small socket binds listens = (
  log_entry none (some major_lvl) os.now
      (codes "Server started on socket [" ∷ decimal fd ∷ codes "]" ∷ []) (begin_log os),
  ground (
    arith,
    find_first_not_of-digits (decimal n) (unfold decimal in digits-AreDigits 10 n),
    read_port-decimal os n small,
    socket,
    binds,
    listens,
  ),
)

-- main without the log's state: it returns 1, the log is closed, and holds one entry, an error with the
-- texts.
abbrev pub Fails : Os → List Text → List Text → Type 0
Fails os av what =
    (l : Log) × (main os av ≡ refused l)
    × (l.is_open ≡ false)
    × (l.output ≡ entry_text os.now error_type true what)
