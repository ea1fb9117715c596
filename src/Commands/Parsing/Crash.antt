-- ===== src/Commands/Parsing/Crash.antt =====
-- A line that ends the process: a carriage return directly behind its first word, and a space directly
-- behind that.
use ft_irc_duck.Base.{
  ℕ, false, some, [], ◌∷◌, ◌++◌, ◌≡◌, refl, ap, ◌∙◌, arith, length, take, ok, fault, out_of_range,
  take-append_length, drop_past, length-append, append_assoc, sym,
}
use ft_irc_duck.Text.{Text, has, find, codes, find_by, find_first_not_of}
use ft_irc_duck.Text.Equality.{find-append, has-append}
use ft_irc_duck.Map.{Map}
use ft_irc_duck.Message.{Message}
use ft_irc_duck.Server.{Server}
use ft_irc_duck.Commands.Parsing.{
  Handler, erase_from, substr_from, cut_line, split_params, parsing_cmds, check_for_cmds,
}

-- A word: it begins with a visible byte, and has no blank and no line end.
pub record IsWord (c : ℕ) (w : Text) : Type 0 where
  pub visible : has c (codes " \n\r\t") ≡ false
  pub not_blank : has c (codes " \t") ≡ false
  pub no_space : has b' ' (c ∷ w) ≡ false
  pub no_newline : has b'\n' (c ∷ w) ≡ false
  pub no_return : has b'\r' (c ∷ w) ≡ false

-- The word, a carriage return, a space, and anything up to the end of the line.
abbrev pub broken_line : Text → Text → Text
broken_line w rest = w ++ b'\r' ∷ b' ' ∷ (rest ++ b'\n' ∷ [])

module _ (c : ℕ) (w rest : Text) (iw : IsWord c w) (nr : has b'\n' rest ≡ false) where
  abbrev word : Text
  word = c ∷ w

  find_return : find b'\r' (broken_line word rest) ≡ some (length word)
  find_return = find-append b'\r' word _ iw.no_return

  find_space : find b' ' (broken_line word rest) ≡ some (length (word ++ b'\r' ∷ []))
  find_space =
      ap (find b' ') (sym (append_assoc word (b'\r' ∷ []) _))
      ∙ find-append b' ' (word ++ b'\r' ∷ []) _
          (has-append b' ' word (b'\r' ∷ []) iw.no_space (unfold has in refl))

  abbrev before_newline : Text
  before_newline = word ++ b'\r' ∷ b' ' ∷ rest

  find_newline : find b'\n' (broken_line word rest) ≡ some (length before_newline)
  find_newline =
      ap (find b'\n') (sym (append_assoc word (b'\r' ∷ b' ' ∷ rest) _))
      ∙ find-append b'\n' before_newline []
          (has-append b'\n' word _ iw.no_newline (unfold has in nr))

  take_newline : take (length before_newline) (broken_line word rest) ≡ before_newline
  take_newline =
      ap (take (length before_newline)) (sym (append_assoc word (b'\r' ∷ b' ' ∷ rest) _))
      ∙ take-append_length before_newline (b'\n' ∷ [])

  erase_return : erase_from (length word) before_newline ≡ ok word
  unfolding erase_from
  erase_return =
      rw (take-append_length word (b'\r' ∷ b' ' ∷ rest))
        (ground (arith, length-append word (b'\r' ∷ b' ' ∷ rest)))

  cut_broken : cut_line (broken_line word rest) ≡ ok word
  unfolding cut_line
  cut_broken =
      rw (find_newline, cut_line)
        (rw (find_return, cut_line) (ap (erase_from (length word)) take_newline ∙ erase_return))

  -- The space stands behind the end of what is left.
  split_broken : split_params (length (word ++ b'\r' ∷ [])) word ≡ fault out_of_range
  unfolding split_params substr_from find_first_not_of find_by
  split_broken = rw (drop_past word (b'\r' ∷ [])) (ground (arith, length-append word (b'\r' ∷ [])))

  find_visible :
      (set : Text) → has c set ≡ false → find_first_not_of set (broken_line word rest) ≡ some 0
  unfolding find_first_not_of find_by
  find_visible set h = rw h refl

  -- A line whose first word is directly followed by a carriage return and a space makes the parser
  -- throw, whoever sends it, at any time, and whatever stands behind that up to the newline. The word
  -- begins with a visible byte and holds no space, carriage return or newline.
  pub broken_line_throws :
      (commands : Map Text Handler) (s : Server) (m : Message)
      → m.text ≡ broken_line word rest
      → check_for_cmds commands s m ≡ fault out_of_range
  unfolding check_for_cmds parsing_cmds
  broken_line_throws commands s m e =
      rw (e, check_for_cmds)
        (rw (find_visible _ iw.visible, parsing_cmds)
          (rw (find_visible _ iw.not_blank) (rw cut_broken (rw find_space (rw split_broken refl)))))
