-- ===== src/Commands/Invite.antt =====
-- srcs/commands/channel/Invite.cpp: a client is invited to a channel.
use ft_irc_duck.Base.{
  ℕ, suc, ◌-◌, true, none, some, [], ◌∷◌, if◌then◌else◌, take, drop, Outcome, ok, ◌>>=◌,
}
use ft_irc_duck.Text.{Text, codes, find, find_first_not_of}
use ft_irc_duck.Text.Split.{find_last}
use ft_irc_duck.Map.{lookup, insert, fd_key}
use ft_irc_duck.Reply.{
  template, rpl_inviting, rpl_invite, err_needmoreparams, err_toomanyparam, err_nosuchchannel,
  err_nosuchnick, err_useronchannel, err_notonchannel,
}
use ft_irc_duck.Message.{Message, copy, reply_format_all}
use ft_irc_duck.Channel.{Channel, no_status}
use ft_irc_duck.Server.{
  Server, post, client_at, set_channel, get_channel_by_name, get_client_by_nickname,
}
use ft_irc_duck.Commands.Info.{answer}

-- The end of Invite::execute: the int of the client is new in the map.
unfoldable pub send_invitation :
    Text → Text → Channel → ℕ → Server → Message → Message → Outcome (Server × Message)
send_invitation name nickname c fd s original m =
    reply_format_all (copy original) (template rpl_invite ∷ []) (nickname ∷ c.name ∷ [])
    >>= λ invitation. ok (
      post (record invitation { target = fd ∷ [] })
          (set_channel name
            (record c { clients = insert fd (record no_status { invited = true }) c.clients }) s),
      m,
    )

-- Invite::are_param_membership_valid, and what follows where it is. A client that was invited
-- before is not invited again, with no error.
unfoldable pub invite_if_valid :
    Text → Text → Channel → ℕ → Server → Message → Message → Outcome (Server × Message)
invite_if_valid name nickname c fd s original m = elim (lookup fd c.clients) [
  | some st ↦
      if st.is_member
      then (reply_format_all m (template err_useronchannel ∷ []) (nickname ∷ c.name ∷ []) >>= λ m'.
          ok (s, m'))
      else ok (s, m)
  | none ↦ elim (lookup m.emitter c.clients) [
    | none ↦ answer err_notonchannel c.name s m
    | some st ↦ send_invitation name nickname c fd s original m
  ]
]

-- Invite::execute, once the nickname and the channel are found; `original` is the message as it came.
unfoldable pub invite_found :
    Text → Channel → ℕ → Server → Message → Message → Outcome (Server × Message)
invite_found name c fd s original m = client_at s fd >>= λ guest.
    reply_format_all m (template rpl_inviting ∷ []) (guest.nickname ∷ c.name ∷ []) >>= λ m'.
    invite_if_valid name guest.nickname c fd s original m'

-- Invite::do_param_exist_and_set_if_so, between the first and the last space.
unfoldable pub invite_named : ℕ → ℕ → Server → Message → Outcome (Server × Message)
invite_named first last s m =
    let nickname = take first m.cmd_param in
    let name = drop (suc last) m.cmd_param in
    let m' = record m { cmd_param = take (last - first) (drop first m.cmd_param) } in
    elim (find_first_not_of (codes " ") m'.cmd_param) [
      | some i ↦ answer err_toomanyparam (codes "INVITE") s m'
      | none ↦ elim (get_channel_by_name s name) [
        | none ↦ answer err_nosuchchannel name s m'
        | some c ↦ elim (get_client_by_nickname s nickname) [
          | none ↦ answer err_nosuchnick nickname s m'
          | some fd ↦ invite_found name c fd s m m'
        ]
      ]
    ]

-- Invite::execute, with is_param_format_good
unfoldable pub invite : Server → Message → Outcome (Server × Message)
invite s m = elim (find b' ' m.cmd_param) [
  | none ↦ answer err_needmoreparams (codes "INVITE") s m
  | some first ↦ elim (find_last b' ' m.cmd_param) [
    | none ↦ answer err_needmoreparams (codes "INVITE") s m
    | some last ↦ invite_named first last s m
  ]
]
