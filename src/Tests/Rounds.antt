-- ===== src/Tests/Rounds.antt =====
-- Rounds of the server at concrete inputs.
use ft_irc_duck.Base.{
  ℕ, ◌≤◌, ◌==◌, ==_iff, length, map, if◌then◌else◌, arith, true, false, none, some, List, [], ◌∷◌,
  ◌≡◌, refl, Outcome, ok, fault,
}
use ft_irc_duck.Text.{
  Text, codes, has, text_eq, text_lt, find, find_by, find_first_not_of, trim_right,
}
use ft_irc_duck.Text.Split.{cut_by}
use ft_irc_duck.Map.{lookup, insert, member, fd_key, text_key}
use ft_irc_duck.Client.{new_client}
use ft_irc_duck.Message.{from_client}
use ft_irc_duck.Server.{Server, new_server, add_client, client_at, set_client}
use ft_irc_duck.Commands.Parsing.{
  register_command, cut_line, split_params, parsing_cmds, call_command, check_for_cmds,
}
use ft_irc_duck.Commands.Login.{pass}
use ft_irc_duck.Commands.Login.Clients.{AreSound}
use ft_irc_duck.Exchange.Receiving.{
  bytes, find_incomplete, call_new, call_lines, call_first, keep_rest, split_lines, found_new_line,
  found_text, c_string, receive_all, receive_messages,
}
use ft_irc_duck.Exchange.Sending.{
  check_msgs_to_delete, merge_from, merge_msgs, send_all, send_messages,
}
use ft_irc_duck.Loop.{Selected, setup_commands, round, server_loop, Rounds, start, next}
use ft_irc_duck.Loop.Soundness.{Rounds-AreSound}
use ft_irc_duck.Loop.Pieces.{start_of, Hears, server_loop_pieces}
use ft_irc_duck.Tests.Samples.{env, bob, server}

abbrev serv_of : Outcome (Server × List (ℕ × Text)) → Server
serv_of (ok r) = r.0
serv_of (fault f) = server

-- A connection comes in, and sends the password.
abbrev connects : Selected
connects = record { env = env; accepted = some 4; writable = []; reads = λ fd. none }

abbrev sends : Selected
sends = record {
  env = env;
  accepted = none;
  writable = [];
  reads = λ fd. some (bytes (codes "PASS secret\r\n"));
}

abbrev first : Server
first = new_server 3 (codes "secret")

abbrev second : Server
second = record first { client_list = (4, new_client 4) ∷ [] }

abbrev third : Server
third = record second { client_list = (4, record (new_client 4) { is_authenticated = true }) ∷ [] }

connects_runs : round connects first ≡ ok (second, [])
unfolding round send_messages check_msgs_to_delete merge_msgs merge_from send_all receive_messages
    receive_all add_client insert lookup new_server
connects_runs = refl

sends_runs : round sends second ≡ ok (third, [])
unfolding round send_messages check_msgs_to_delete merge_msgs merge_from send_all receive_messages
    receive_all found_text find_incomplete found_new_line call_first call_lines call_new keep_rest
    split_lines cut_by c_string check_for_cmds parsing_cmds cut_line split_params call_command
    setup_commands register_command pass set_client client_at from_client insert lookup text_eq
    text_lt has find find_by find_first_not_of trim_right new_client new_server
sends_runs = refl

rounds : Rounds first third
unfolding member
rounds = next sends [] (next connects [] start (λ fd h. cc) connects_runs) (λ fd h. cc) sends_runs

Rounds-AreSound_example : AreSound third.client_list
Rounds-AreSound_example = Rounds-AreSound 3 (codes "secret") third rounds

-- bob sends the start of a line in three rounds.
abbrev piece : Text → Text × Selected
piece t = (
  t,
  record {
    env = env;
    accepted = none;
    writable = 4 ∷ 5 ∷ [];
    reads = λ fd. if fd == 5 then some (bytes t) else none;
  },
)

piece-Hears :
    (t : Text) → has 0 t ≡ false → has b'\n' t ≡ false → length t ≤ 512 → Hears 5 t (piece t).1
piece-Hears t z n short = record {
  nobody_new = refl;
  heard = refl;
  others = λ j h. ground (arith, h, ==_iff j 5);
  no_zero = z;
  no_newline = n;
  short = short;
}

server_loop_pieces_example :
    server_loop
      (map
        (λ (p : Text × Selected). some p.1)
        (piece (codes "NI") ∷ piece (codes "CK ") ∷ piece (codes "bo") ∷ []))
      server
    ≡ ok (record server { msgs = start_of bob (codes "NICK bo") ∷ [] })
unfolding lookup has
server_loop_pieces_example =
    server_loop_pieces bob server refl 5 (omega arith, (omega arith, tt)) refl (codes "NI")
      (piece (codes "NI")).1 (piece (codes "CK ") ∷ piece (codes "bo") ∷ [])
      (
        piece-Hears (codes "NI") refl refl (omega arith),
        (
          piece-Hears (codes "CK ") refl refl (omega arith),
          (piece-Hears (codes "bo") refl refl (omega arith), tt),
        ),
      )
