-- ===== src/Commands/Clients.antt =====
-- What the commands behind the login do to the clients: nothing, but for MODE and QUIT.
pub mod Channels
pub mod Leaving
use ft_irc_duck.Base.{
  ℕ, suc, Bool, true, false, ◌⊎◌, none, some, List, [], ◌∷◌, ◌≡◌, ◌∙◌, ap, arith, inl, inr, Outcome,
  ok, >>=-eq-ok, if◌then◌else◌, Option-cases, Bool-cases, Outcome-cases, take, drop, is_empty,
}
use ft_irc_duck.Text.{Text, codes, find, text_eq}
use ft_irc_duck.Map.{Map, FdSet, lookup, insert, erase, fd_key, text_key}
use ft_irc_duck.Reply.{Reply, template, rpl_kick, err_nosuchchannel}
use ft_irc_duck.Client.{Client}
use ft_irc_duck.Channel.{Channel, Status, new_channel}
use ft_irc_duck.Message.{Message, from_client, reply_format, reply_format_all}
use ft_irc_duck.Server.{
  Env, Server, post, client_at, del_client, set_channel, get_channel_by_name, oper_command_check,
}
use ft_irc_duck.Membership.{assign_next_chanop, lower_member, leave}
use ft_irc_duck.Commands.Info.{answer, ping, who, oper}
use ft_irc_duck.Commands.Topic.{topic, topic_if_allowed, change_topic}
use ft_irc_duck.Commands.Kick.{
  kick_one, kick_targets_if_member, kick_if_allowed, kick, member_named, register_comment,
  return_kick_target,
}
use ft_irc_duck.Commands.Part.{success_behaviour, part_one, part_all, part}
use ft_irc_duck.Commands.Invite.{
  send_invitation, invite_if_valid, invite_found, invite_named, invite,
}
use ft_irc_duck.Commands.Join.{
  new_chan_member_success, join_create_channel, join_check_existing_chan, join_one, join_channel,
  special_argument, own_channels, join, enter,
}
use ft_irc_duck.Commands.Privmsg.{
  Delivery, refuse, add_client_target, add_correct_target, add_correct_targets, privmsg,
}
use ft_irc_duck.Commands.Quit.{del_client_from_msgs, goodbye, quit_comment}
use ft_irc_duck.Commands.Quit.{Farewell, leave_one, leave_each, leave_all_channels, clean_up, quit}

abbrev pub SameClients : Server → Server → Type 0
SameClients s s' = s'.client_list ≡ s.client_list

assign_clients :
    (c c' : Channel) (s s' : Server) → assign_next_chanop c s ≡ ok (c', s') → SameClients s s'
unfolding assign_next_chanop post
assign_clients c c' s s' h = ground arith

lower_clients :
    (fd : ℕ) (st : Status) (c c' : Channel) (s s' : Server)
    → lower_member fd st c s ≡ ok (c', s')
    → SameClients s s'
unfolding lower_member
lower_clients fd st c c' s s' h =
    let left : Channel = record c {
      clients = insert fd (record st { is_member = false; chanop = false }) c.clients;
    } in
    ground (arith, assign_clients left c' s s')

pub leave-SameClients :
    (fd : ℕ) (c c' : Channel) (s s' : Server) → leave fd c s ≡ ok (c', s') → SameClients s s'
unfolding leave
leave-SameClients fd c c' s s' h = elim (Option-cases (lookup fd c.clients)) [
  | inl e ↦ ground (arith, e)
  | inr (st, e) ↦
      let ((l, t), q, r) = >>=-eq-ok (lower_member fd st c s) _ (rw (e, leave) at h) in
      ground (arith, r, lower_clients fd st c l s t q)
]

pub answer-SameClients :
    (r : Reply) (v : Text) (s s' : Server) (m m' : Message)
    → answer r v s m ≡ ok (s', m')
    → SameClients s s'
unfolding answer
answer-SameClients r v s s' m m' h = ground arith

pub ping-SameClients : (s s' : Server) (m m' : Message) → ping s m ≡ ok (s', m') → SameClients s s'
unfolding ping
ping-SameClients s s' m m' h = ground arith

pub who-SameClients : (s s' : Server) (m m' : Message) → who s m ≡ ok (s', m') → SameClients s s'
unfolding who answer
who-SameClients s s' m m' h = ground arith

pub oper-SameClients : (s s' : Server) (m m' : Message) → oper s m ≡ ok (s', m') → SameClients s s'
unfolding oper oper_command_check answer
oper-SameClients s s' m m' h = ground arith

pub topic-SameClients :
    (env : Env) (s s' : Server) (m m' : Message) → topic env s m ≡ ok (s', m') → SameClients s s'
unfolding topic topic_if_allowed change_topic answer set_channel
topic-SameClients env s s' m m' h = ground arith

pub invite-SameClients :
    (s s' : Server) (m m' : Message) → invite s m ≡ ok (s', m') → SameClients s s'
unfolding invite invite_named invite_found invite_if_valid send_invitation answer set_channel post
invite-SameClients s s' m m' h = ground arith

add_client_target_clients :
    (name : Text) (m : Message) (d d' : Delivery)
    → add_client_target name m d ≡ ok d'
    → SameClients d.serv d'.serv
unfolding add_client_target refuse post
add_client_target_clients name m d d' h = ground arith

add_correct_target_clients :
    (env : Env) (name : Text) (m : Message) (d d' : Delivery)
    → add_correct_target env name m d ≡ ok d'
    → SameClients d.serv d'.serv
unfolding add_correct_target refuse post
add_correct_target_clients env name m d d' h = ground (arith, add_client_target_clients name m d d')

add_correct_targets_clients :
    (env : Env) (names : Map Text (Unit {0})) (m : Message) (d d' : Delivery)
    → add_correct_targets env names m d ≡ ok d'
    → SameClients d.serv d'.serv
unfolding add_correct_targets
add_correct_targets_clients env [] m d d' h = ground arith
add_correct_targets_clients env ((name, u) ∷ rest) m d d' h =
    let (e, f, g) = >>=-eq-ok (add_correct_target env name m d) _ h in
    add_correct_targets_clients env rest m e d' g ∙ add_correct_target_clients env name m d e f

pub privmsg-SameClients :
    (env : Env) (s s' : Server) (m m' : Message) → privmsg env s m ≡ ok (s', m') → SameClients s s'
unfolding privmsg
privmsg-SameClients env s s' m m' h = elim (Option-cases (find b':' m.cmd_param)) [
  | inl e ↦ answer-SameClients _ [] s s' m m' (rw (e, privmsg) at h)
  | inr (i, e) ↦
      let (d, f, g) = >>=-eq-ok (add_correct_targets env _ _ _) _ (rw (e, privmsg) at h) in
      ground (arith, g, add_correct_targets_clients env _ _ _ d f)
]
