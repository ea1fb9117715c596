-- ===== src/Commands/Mode.antt =====
-- srcs/commands/management/Mode.cpp: the modes of clients and channels.
pub mod Flags
pub mod Changes
pub mod Limit
pub mod Keeping
pub mod Effect
pub mod Members
pub mod Visibility
pub mod Authority
pub mod Answering
use ft_irc_duck.Base.{
  ℕ, zero, suc, Bool, true, false, not, ◌&&◌, ◌||◌, Option, none, some, List, [], ◌∷◌, ◌++◌, ◌==◌,
  if◌then◌else◌, get_or, take, drop, is_empty, Outcome, ok, ◌>>=◌,
}
use ft_irc_duck.Text.{Text, codes, text_eq, find_first_of, take_to}
use ft_irc_duck.Text.Decimal.{decimal}
use ft_irc_duck.Map.{Map, FdSet, lookup, add, member, fd_key}
use ft_irc_duck.Reply.{
  template, rpl_channelmodeis, rpl_umodeis, rpl_changemode, rpl_endofbanlist, err_nosuchnick,
  err_usersdontmatch, err_modebadformat, err_toomanyparam, err_umodeunknownmodeflag,
  err_chanoprivsneeded,
}
use ft_irc_duck.Message.{Message, from_client, reply_format, reply_format_all}
use ft_irc_duck.Channel.{Channel, Status}
use ft_irc_duck.Server.{
  Env, Server, post, client_at, set_channel, get_client_by_nickname, get_channel_by_name,
}
use ft_irc_duck.Membership.{status_of}
use ft_irc_duck.Commands.Info.{answer}
use ft_irc_duck.Commands.Mode.Flags.{
  FlagStatus, Modes, Param, reset_modes, set_usermode, set_chanmode, get_mode_params, mode_string,
  fill_mod_maps, format_replymodes,
}
use ft_irc_duck.Commands.Mode.Changes.{
  client_i, client_op, channel_i, channel_t, channel_k, channel_o,
}
use ft_irc_duck.Commands.Mode.Limit.{channel_l}

-- The loop over the clients of a channel in Mode::_send_reply.
unfoldable pub add_clients : ℕ → Map ℕ Status → FdSet → FdSet
add_clients emitter [] target = target
add_clients emitter ((fd, st) ∷ m) target =
    add_clients emitter m (if fd == emitter then target else add fd target)

-- Mode::_send_reply, for modes that are asked for
unfoldable pub send_current : Option Channel → Text → Server → Message → Outcome Message
send_current none replymodes s m = reply_format m (template rpl_umodeis) replymodes s.socket_id
send_current (some c) replymodes s m =
    reply_format_all m (template rpl_channelmodeis ∷ []) (c.name ∷ replymodes ∷ [])

-- Mode::_send_reply, for modes that have changed
unfoldable pub send_changed : Option Channel → Text → Server → Message → Outcome Message
send_changed none replymodes s m = client_at s m.emitter >>= λ cl.
    reply_format_all m (template rpl_changemode ∷ []) (cl.nickname ∷ replymodes ∷ [])
send_changed (some c) replymodes s m =
    reply_format_all m (template rpl_changemode ∷ []) (c.name ∷ replymodes ∷ []) >>= λ reply.
    ok (record reply { target = add_clients m.emitter c.clients reply.target })

abbrev flag_if : Bool → ℕ → Modes → Modes
flag_if on mode md = if on then set_chanmode mode FlagStatus.add md else md

-- The key as the client may see it.
abbrev shown_key : Env → ℕ → Channel → Text
shown_key env fd c = if (status_of env fd c.clients).chanop then c.key else codes "*"

abbrev key_param : Env → ℕ → Channel → Param
key_param env fd c =
    if is_empty c.key
    then record { mode = 0; value = [] }
    else record { mode = b'k'; value = shown_key env fd c }

abbrev pub limit_param : Channel → Param
limit_param c = elim c.member_limit [
  | none ↦ record { mode = 0; value = [] }
  | some n ↦ record { mode = b'l'; value = decimal n }
]

abbrev has_limit : Channel → Bool
has_limit c = elim c.member_limit [ none ↦ false | some n ↦ true ]

-- The modes of a channel in Mode::_current_mode
unfoldable pub channel_modes : Env → ℕ → Channel → Modes
channel_modes env fd c = flag_if c.is_invite_only b'i' (
    flag_if c.is_topic_restricted b't' (
      flag_if (not (is_empty c.key)) b'k' (
        flag_if (has_limit c) b'l' (record reset_modes {
          mode_params = key_param env fd c ∷ limit_param c ∷ record { mode = 0; value = [] } ∷ [];
        }))))

-- The modes of a client in Mode::_current_mode
unfoldable pub client_modes : ℕ → Server → Outcome Modes
client_modes fd s = client_at s fd >>= λ cl.
    let invisible : Modes =
      if cl.is_invisible then set_usermode b'i' FlagStatus.add reset_modes else reset_modes in
    ok (if member fd s.oper_socket then set_usermode b'O' FlagStatus.add invisible else invisible)

abbrev or_plus : Text → Text
or_plus t = if is_empty t then codes "+" else t

-- Mode::_current_mode
unfoldable pub current_mode : Env → Option Channel → Server → Message → Outcome Message
current_mode env none s m =
    client_modes m.emitter s >>= λ md. send_current none (or_plus (format_replymodes false md)) s m
current_mode env (some c) s m =
    send_current (some c) (or_plus (format_replymodes true (channel_modes env m.emitter c))) s m

-- `Message response(client); response.reply_format(...); serv.msgs.push_back(response)`
unfoldable pub warn_client : Text → Text → ℕ → Server → Outcome Server
warn_client reply value fd s = client_at s fd >>= λ cl.
    reply_format (from_client cl) reply value s.socket_id >>= λ w. ok (post w s)

unfoldable pub warn_times : ℕ → Text → Text → ℕ → Server → Outcome Server
warn_times zero reply value fd s = ok s
warn_times (suc n) reply value fd s =
    warn_client reply value fd s >>= λ s'. warn_times n reply value fd s'

-- Mode::_apply_mode_changes of a channel, once the client is an operator of it: the five modes, one
-- after the other.
unfoldable pub apply_channel :
    Message → Modes → Channel → Server → Outcome (Modes × Channel × Server)
apply_channel m md c s =
    let (md1, c1) = channel_i md c in
    let (md2, c2) = channel_t md1 c1 in
    channel_k m md2 c2 s >>= λ (md3, c3, s3).
    channel_o m md3 c3 s3 >>= λ (md4, c4, s4). channel_l m md4 c4 s4

-- Mode::_apply_mode_changes of a client
unfoldable pub apply_client : ℕ → Modes → Server → Outcome (Modes × Server)
apply_client fd md s = client_i fd md s >>= λ (md', s'). client_op fd md' s'

-- The end of Mode::execute: what changed is answered, if anything did. After a refusal no mode is
-- left to answer.
unfoldable pub answer_changed :
    Option Channel → Text → Server → Message → Outcome (Server × Message)
answer_changed o replymodes s m =
    if is_empty replymodes then ok (s, m) else (send_changed o replymodes s m >>= λ m'. ok (s, m'))

unfoldable pub change_channel :
    Env → Text → Channel → Modes → Server → Message → Outcome (Server × Message)
change_channel env name c md s m =
    if (status_of env m.emitter c.clients).chanop
    then (apply_channel m md c s >>= λ (md', c', s').
        answer_changed (some c') (format_replymodes true md') (set_channel name c' s') m)
    else answer err_chanoprivsneeded c.name s m

unfoldable pub change_client : Modes → Server → Message → Outcome (Server × Message)
change_client md s m = apply_client m.emitter md s >>= λ (md', s').
    answer_changed none (format_replymodes false md') s' m

-- The parameters, then the mode string, with a warning for what is wrong in them.
unfoldable pub read_modes : Bool → Server → Message → Outcome (Modes × Server)
read_modes is_channel s m =
    let params = get_mode_params m.cmd_param is_channel reset_modes in
    let filled = fill_mod_maps is_channel 0 (mode_string m.cmd_param) params.0 in
    (if params.1 then warn_client (template err_toomanyparam) m.cmd m.emitter s else ok s) >>= λ s'.
    warn_times filled.1 (template err_umodeunknownmodeflag) [] m.emitter s' >>= λ s''.
    ok (filled.0, s'')

-- Mode::execute, once the parameter behind the name is cut off and starts with a sign.
unfoldable pub change_modes :
    Env → Text → Option Channel → Server → Message → Outcome (Server × Message)
change_modes env name none s m = read_modes false s m >>= λ (md, s').
    change_client md s' (record m { cmd_param = mode_string m.cmd_param })
change_modes env name (some c) s m = read_modes true s m >>= λ (md, s').
    change_channel env name c md s' (record m { cmd_param = mode_string m.cmd_param })

abbrev pub is_sign : ℕ → Bool
is_sign c = (c == b'+') || (c == b'-')

unfoldable pub change_if_signed :
    Env → Text → Option Channel → Server → Message → Outcome (Server × Message)
change_if_signed env name o s m =
    if is_sign (get_or m.cmd_param 0 0)
    then change_modes env name o s m
    else answer err_modebadformat [] s m

-- What stands behind the name: the ban list of a channel is always empty.
unfoldable pub mode_words :
    Env → Text → Option Channel → Server → Message → Outcome (Server × Message)
mode_words env name none s m = change_if_signed env name none s m
mode_words env name (some c) s m =
    if text_eq m.cmd_param (codes "b")
    then answer rpl_endofbanlist c.name s m
    else change_if_signed env name (some c) s m

unfoldable pub show_modes : Env → Option Channel → Server → Message → Outcome (Server × Message)
show_modes env o s m = current_mode env o s m >>= λ m'. ok (s, m')

-- Mode::execute, once the name is known.
unfoldable pub mode_of : Env → Text → Option Channel → Server → Message → Outcome (Server × Message)
mode_of env name o s m = elim (find_first_of (codes " \t") m.cmd_param) [
  | none ↦ show_modes env o s m
  | some space ↦ mode_words env name o s (record m { cmd_param = drop (suc space) m.cmd_param })
]

-- Mode::execute; the set `" \t\0\r\n"` of the source ends at its zero byte.
unfoldable pub mode : Env → Server → Message → Outcome (Server × Message)
mode env s m =
    let name = take_to (find_first_of (codes " \t") m.cmd_param) m.cmd_param in
    elim (get_channel_by_name s name) [
      | some c ↦ mode_of env name (some c) s m
      | none ↦ elim (get_client_by_nickname s name) [
        | none ↦ answer err_nosuchnick name s m
        | some fd ↦
            if fd == m.emitter then mode_of env name none s m else answer err_usersdontmatch [] s m
      ]
    ]
