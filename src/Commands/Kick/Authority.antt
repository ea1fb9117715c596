-- ===== src/Commands/Kick/Authority.antt =====
-- Who may remove members.
use ft_irc_duck.Base.{ℕ, false, none, some, ◌≡◌, arith, ok, Option-cases, inl, inr, suc, take, drop}
use ft_irc_duck.Text.{Text, find}
use ft_irc_duck.Map.{lookup, fd_key, text_key}
use ft_irc_duck.Channel.{Channel, Status}
use ft_irc_duck.Message.{Message}
use ft_irc_duck.Reply.{
  Reply, err_needmoreparams, err_nosuchchannel, err_notonchannel, err_chanoprivsneeded,
}
use ft_irc_duck.Server.{Server, get_channel_by_name}
use ft_irc_duck.Commands.Info.{answer}
use ft_irc_duck.Commands.Kick.{kick_if_allowed, kick}

-- The client is an operator of no channel.
abbrev pub IsNoOperator : ℕ → Server → Type 0
IsNoOperator fd s =
    (name : Text) (c : Channel) (st : Status)
    → lookup name s.channel_list ≡ some c
    → lookup fd c.clients ≡ some st
    → st.chanop ≡ false

pub answer_keeps :
    (r : Reply) (v : Text) (s s' : Server) (m m' : Message) → answer r v s m ≡ ok (s', m') → s' ≡ s
unfolding answer
answer_keeps r v s s' m m' h = ground arith

kick_if_allowed_keeps :
    (name : Text) (c : Channel) (s s' : Server) (m m' : Message)
    → ((st : Status) → lookup m.emitter c.clients ≡ some st → st.chanop ≡ false)
    → kick_if_allowed name c s m ≡ ok (s', m')
    → s' ≡ s
unfolding kick_if_allowed
kick_if_allowed_keeps name c s s' m m' low h = elim (Option-cases (lookup m.emitter c.clients)) [
  | inl e ↦ answer_keeps err_notonchannel c.name s s' m m' (rw (e, kick_if_allowed) at h)
  | inr (st, e) ↦ ground (arith, e, low st e, answer_keeps err_chanoprivsneeded c.name s s' m m')
]

-- KICK from a client that is an operator of no channel, where it returns, leaves the server as it
-- was: no channel, no client and no message changes.
pub kick_keeps :
    (s s' : Server) (m m' : Message) → IsNoOperator m.emitter s → kick s m ≡ ok (s', m') → s' ≡ s
unfolding kick get_channel_by_name
kick_keeps s s' m m' low h = elim (Option-cases (find b' ' m.cmd_param)) [
  | inl e ↦ answer_keeps err_needmoreparams m.cmd s s' m m' (rw (e, kick) at h)
  | inr (i, e) ↦ named i (rw (e, kick) at h)
]
  where
    params : ℕ → Message
    params i = record m { cmd_param = drop (suc i) m.cmd_param }

    named :
        (i : ℕ)
        → (elim (get_channel_by_name s (take i m.cmd_param)) [
          | none ↦ answer err_nosuchchannel (take i m.cmd_param) s (params i)
          | some c ↦ kick_if_allowed (take i m.cmd_param) c s (params i)
        ])
          ≡ ok (s', m')
        → s' ≡ s
    named i k = elim (Option-cases (lookup (take i m.cmd_param) s.channel_list)) [
      | inl f ↦
          answer_keeps err_nosuchchannel (take i m.cmd_param) s s' (params i) m'
            (ground (arith, f, k))
      | inr (c, f) ↦
          kick_if_allowed_keeps (take i m.cmd_param) c s s' (params i) m' (λ st g. low _ c st f g)
            (ground (arith, f, k))
    ]
