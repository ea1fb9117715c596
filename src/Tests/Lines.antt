-- ===== src/Tests/Lines.antt =====
-- Lines and commands at concrete inputs.
use ft_irc_duck.Base.{[], ◌≡◌, refl, fault, out_of_range}
use ft_irc_duck.Text.{codes, has}
use ft_irc_duck.Commands.Parsing.{check_for_cmds}
use ft_irc_duck.Commands.Parsing.Crash.{IsWord, broken_line_throws}
use ft_irc_duck.Tests.Samples.{alice, server, line_of}

ping-IsWord : IsWord b'P' (codes "ING")
unfolding has
ping-IsWord = record {
  visible = refl;
  not_blank = refl;
  no_space = refl;
  no_newline = refl;
  no_return = refl;
}

broken_line_throws_example :
    check_for_cmds [] server (line_of alice (codes "PING\r x\n")) ≡ fault out_of_range
unfolding has
broken_line_throws_example =
    broken_line_throws b'P' (codes "ING") (codes "x") ping-IsWord refl [] server
      (line_of alice (codes "PING\r x\n")) refl
