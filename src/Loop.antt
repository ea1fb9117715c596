-- ===== src/Loop.antt =====
-- srcs/main.cpp and srcs/server/server_loop.cpp: the commands of the server, and a round of its loop.
-- select(), accept() and read() are the operating system's: what they give is chosen freely, within
-- what select() was asked for.
pub mod Commands
pub mod Soundness
pub mod Pieces
use ft_irc_duck.Base.{ℕ, true, Option, none, some, List, [], ◌∷◌, ◌≡◌, Outcome, ok, ◌>>=◌}
use ft_irc_duck.Text.{Text, codes}
use ft_irc_duck.Map.{Map, FdSet, member}
use ft_irc_duck.Server.{Env, Server, add_client}
use ft_irc_duck.Server.Selecting.{get_write_fds}
use ft_irc_duck.Commands.Parsing.{Handler, register_command}
use ft_irc_duck.Commands.Login.{pass, nick, user}
use ft_irc_duck.Commands.Info.{ping, who, oper}
use ft_irc_duck.Commands.Topic.{topic}
use ft_irc_duck.Commands.Kick.{kick}
use ft_irc_duck.Commands.Part.{part}
use ft_irc_duck.Commands.Invite.{invite}
use ft_irc_duck.Commands.Join.{join}
use ft_irc_duck.Commands.Privmsg.{privmsg}
use ft_irc_duck.Commands.Quit.{quit}
use ft_irc_duck.Commands.Mode.{mode}
use ft_irc_duck.Exchange.Receiving.{Received, receive_messages}
use ft_irc_duck.Exchange.Sending.{send_messages}

-- setup_commands
unfoldable pub setup_commands : Env → Map Text Handler
setup_commands env = register_command (codes "WHO") who (
    register_command (codes "PING") ping (
      register_command (codes "KICK") kick (
        register_command (codes "TOPIC") (topic env) (
          register_command (codes "INVITE") invite (
            register_command (codes "PART") part (
              register_command (codes "JOIN") (join env) (
                register_command (codes "QUIT") quit (
                  register_command (codes "OPER") oper (
                    register_command (codes "PRIVMSG") (privmsg env) (
                      register_command (codes "MODE") (mode env) (
                        register_command (codes "USER") (user env) (
                          register_command (codes "NICK") (nick env)
                            (register_command (codes "PASS") pass [])))))))))))))

-- What a round gets from outside: the date, a connection that was accepted, the sockets that may be
-- written, and what each readable socket gave.
pub record Selected : Type 0 where
  pub env : Env
  pub accepted : Option ℕ
  pub writable : FdSet
  pub reads : ℕ → Option Received

abbrev pub accept : Option ℕ → Server → Server
accept none s = s
accept (some fd) s = add_client fd s

-- A round of server_loop: the server, and what was sent.
unfoldable pub round : Selected → Server → Outcome (Server × List (ℕ × Text))
round sel s = send_messages sel.writable (accept sel.accepted s) >>= λ (s', sent).
    receive_messages (setup_commands sel.env) sel.reads s' >>= λ s''. ok (s'', sent)

-- server_loop, over what select() gives round by round: nothing where it fails, which ends the loop,
-- as the end of the list does, where the signal came.
unfoldable pub server_loop : List (Option Selected) → Server → Outcome Server
server_loop [] s = ok s
server_loop (none ∷ later) s = ok s
server_loop (some sel ∷ later) s = round sel s >>= λ (s', sent). server_loop later s'

-- Rounds that return, one after the other. select() gives only sockets that it was asked for.
pub data Rounds (s : Server) : Server → Type 0 where
  start : Rounds s s
  next :
      {t u : Server} (sel : Selected) (sent : List (ℕ × Text))
      → Rounds s t
      → ((fd : ℕ) → member fd sel.writable ≡ true → member fd (get_write_fds t) ≡ true)
      → round sel t ≡ ok (u, sent)
      → Rounds s u
