-- ===== src/Commands/Info.antt =====
-- srcs/commands/Ping.cpp, Who.cpp and management/Oper.cpp: commands that only answer.
use ft_irc_duck.Base.{none, some, [], ◌∷◌, ◌++◌, take, drop, Outcome, ok, ◌>>=◌}
use ft_irc_duck.Text.{Text, codes, find, find_first_not_of, from_pos}
use ft_irc_duck.Reply.{
  Reply, template, server_name, rpl_endofwho, err_nosuchoper, err_needmoreparams,
}
use ft_irc_duck.Message.{Message, reply_format}
use ft_irc_duck.Server.{Server, oper_command_check}

-- Ping::execute
unfoldable pub ping : Server → Message → Outcome (Server × Message)
ping s m = ok (
  s,
  record m {
    target = m.emitter ∷ [];
    text = codes "PONG " ++ (server_name ++ (codes " " ++ (m.cmd_param ++ codes "\r\n")));
  },
)

-- A reply to the sender that leaves the server as it is: `msg.reply_format(...)`.
unfoldable pub answer : Reply → Text → Server → Message → Outcome (Server × Message)
answer r value s m = reply_format m (template r) value s.socket_id >>= λ m'. ok (s, m')

-- Who::execute
unfoldable pub who : Server → Message → Outcome (Server × Message)
who s m = answer rpl_endofwho m.cmd_param s m

-- The reply of Oper::execute to what oper_command_check returned.
abbrev oper_answer : Reply → Text → Server → Message → Outcome (Server × Message)
oper_answer err_nosuchoper oper s m = answer err_nosuchoper oper s m
oper_answer r oper s m = answer r [] s m

-- Oper::execute
unfoldable pub oper : Server → Message → Outcome (Server × Message)
oper s m = elim (find b' ' m.cmd_param) [
  | none ↦ answer err_needmoreparams (codes "OPER") s m
  | some oper_end ↦ elim (from_pos (find_first_not_of (codes " \t")) oper_end m.cmd_param) [
    | none ↦ answer err_needmoreparams (codes "OPER") s m
    | some pass_begin ↦
        let name = take oper_end m.cmd_param in
        let (r, s') = oper_command_check m.emitter name (drop pass_begin m.cmd_param) s in
        oper_answer r name s' m
  ]
]
