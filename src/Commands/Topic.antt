-- ===== src/Commands/Topic.antt =====
-- srcs/commands/channel/Topic.cpp: reading and changing the topic of a channel.
use ft_irc_duck.Base.{
  ℕ, suc, not, ◌&&◌, none, some, [], ◌∷◌, map, if◌then◌else◌, drop, is_empty, Outcome, ok, ◌>>=◌,
}
use ft_irc_duck.Text.{Text, codes, find, find_first_of, take_to}
use ft_irc_duck.Map.{Map, FdSet, lookup, add, fd_key}
use ft_irc_duck.Reply.{
  template, rpl_topic, rpl_topicwhotime, err_nosuchchannel, err_notonchannel, err_chanoprivsneeded,
}
use ft_irc_duck.Message.{Message, reply_format_all}
use ft_irc_duck.Channel.{Channel, Status}
use ft_irc_duck.Server.{Env, Server, client_at, set_channel, get_channel_by_name}
use ft_irc_duck.Commands.Info.{answer}

-- Topic::return_topic
unfoldable pub return_topic : Channel → Message → Outcome Message
return_topic c m =
    reply_format_all m (map template (rpl_topic ∷ rpl_topicwhotime ∷ []))
      (c.name ∷ c.topic ∷ c.name ∷ c.topic_author ∷ c.topic_date ∷ [])

-- Every client in the map, invited or member.
unfoldable pub all_clients : Map ℕ Status → FdSet
all_clients [] = []
all_clients ((fd, st) ∷ m) = add fd (all_clients m)

-- Topic::change_topic
unfoldable pub change_topic :
    Env → Text → Channel → Text → Server → Message → Outcome (Server × Message)
change_topic env name c new_topic s m = client_at s m.emitter >>= λ author.
    let c' = record c {
      topic = new_topic;
      topic_date = env.current_date;
      topic_author = author.nickname;
    } in
    return_topic c' m >>= λ m'.
    ok (set_channel name c' s, record m' { target = all_clients c'.clients })

-- Topic::are_client_credentials_correct, and the change where they are.
unfoldable pub topic_if_allowed :
    Env → Text → Channel → Text → Server → Message → Outcome (Server × Message)
topic_if_allowed env name c new_topic s m = elim (lookup m.emitter c.clients) [
  | none ↦ answer err_notonchannel c.name s m
  | some st ↦
      if c.is_topic_restricted && not st.chanop
      then answer err_chanoprivsneeded c.name s m
      else change_topic env name c new_topic s m
]

-- Topic::execute; the set `" :\0"` of the source ends at its zero byte.
unfoldable pub topic : Env → Server → Message → Outcome (Server × Message)
topic env s m =
    if is_empty m.cmd_param
    then answer err_nosuchchannel [] s m
    else let name = take_to (find_first_of (codes " :") m.cmd_param) m.cmd_param in
      elim (get_channel_by_name s name) [
        | none ↦ answer err_nosuchchannel name s m
        | some c ↦ elim (find b':' m.cmd_param) [
          | none ↦ return_topic c m >>= λ m'. ok (s, m')
          | some colon ↦ topic_if_allowed env name c (drop (suc colon) m.cmd_param) s m
        ]
      ]
