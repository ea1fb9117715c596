-- ===== src/Commands/Privmsg.antt =====
-- srcs/commands/message/Privmsg.cpp: a text for channels and clients.
pub mod Bracket
pub mod Reach
use ft_irc_duck.Base.{
  ℕ, suc, not, Bool, Option, none, some, List, [], ◌∷◌, ◌++◌, ◌==◌, if◌then◌else◌, take, drop,
  length, is_empty, Outcome, ok, ◌>>=◌,
}
use ft_irc_duck.Text.{Text, codes, find, trim_right}
use ft_irc_duck.Text.Split.{cut_commas}
use ft_irc_duck.Map.{Map, FdSet, insert, add, text_key}
use ft_irc_duck.Reply.{
  template, rpl_privmsg, err_notexttosend, err_cannotsendtochan, err_nonicknamegiven,
  err_nosuchnick,
}
use ft_irc_duck.Message.{
  Message, copy, reply_format, reply_format_all, reply_replace_curly_brackets,
}
use ft_irc_duck.Channel.{Channel, Status}
use ft_irc_duck.Server.{Env, Server, post, get_channel_by_name, get_client_by_nickname}
use ft_irc_duck.Membership.{status_of}
use ft_irc_duck.Commands.Info.{answer}

-- The keys of the map `targets`, each once.
unfoldable pub name_set : List Text → Map Text (Unit {0})
name_set [] = []
name_set (name ∷ names) = insert name tt (name_set names)

-- get_targets
unfoldable pub get_targets : Text → Map Text (Unit {0})
get_targets param =
    let (names, last) = cut_commas param in name_set (names ++ trim_right (codes " \t") last ∷ [])

-- Every client of a channel but the sender, invited or member.
unfoldable pub add_others : ℕ → Map ℕ Status → FdSet → FdSet
add_others sender [] targets = targets
add_others sender ((fd, st) ∷ m) targets =
    add_others sender m (if fd == sender then targets else add fd targets)

-- The state of the loop: the server, the targets of the message, and the names that are not -2.
pub record Delivery : Type 0 where
  pub serv : Server
  pub target : FdSet
  pub names : List Text

-- A name that cannot be written to is answered with an error.
unfoldable pub refuse : Text → Text → Message → Delivery → Outcome Delivery
refuse error value m d = reply_format (copy m) error value d.serv.socket_id >>= λ reply.
    ok (record d { serv = post reply d.serv })

unfoldable pub add_client_target : Text → Message → Delivery → Outcome Delivery
add_client_target name m d =
    if is_empty name
    then refuse (template err_nonicknamegiven) [] m d
    else elim (get_client_by_nickname d.serv name) [
      | none ↦ refuse (template err_nosuchnick) name m d
      | some fd ↦ ok (record d { target = add fd d.target; names = d.names ++ name ∷ [] })
    ]

-- One round of Privmsg::add_correct_targets.
unfoldable pub add_correct_target : Env → Text → Message → Delivery → Outcome Delivery
add_correct_target env name m d = elim (get_channel_by_name d.serv name) [
  | none ↦ add_client_target name m d
  | some c ↦
      if not (status_of env m.emitter c.clients).is_member
      then refuse (template err_cannotsendtochan) c.name m d
      else ok (record d {
        target = add_others m.emitter c.clients d.target;
        names = d.names ++ name ∷ [];
      })
]

-- Privmsg::add_correct_targets
unfoldable pub add_correct_targets :
    Env → Map Text (Unit {0}) → Message → Delivery → Outcome Delivery
add_correct_targets env [] m d = ok d
add_correct_targets env ((name, u) ∷ rest) m d =
    add_correct_target env name m d >>= λ d'. add_correct_targets env rest m d'

-- The text as the targets get it.
unfoldable pub privmsg_text : List Text → Text → Message → Outcome Message
privmsg_text names text m =
    reply_replace_curly_brackets (template rpl_privmsg) (length names) >>= λ reply.
    reply_format_all m (reply ∷ []) (names ++ text ∷ [])

-- Privmsg::execute
unfoldable pub privmsg : Env → Server → Message → Outcome (Server × Message)
privmsg env s m = elim (find b':' m.cmd_param) [
  | none ↦ answer err_notexttosend [] s m
  | some colon ↦
      let text = drop (suc colon) m.cmd_param in
      let m' = record m { cmd_param = take colon m.cmd_param } in
      add_correct_targets env (get_targets m'.cmd_param) m'
        (record { serv = s; target = m.target; names = [] })
      >>= λ d.
          if is_empty d.target
          then ok (d.serv, m')
          else (privmsg_text d.names text m' >>= λ sent.
              ok (d.serv, record sent { target = d.target }))
]
