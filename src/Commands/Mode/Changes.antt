-- ===== src/Commands/Mode/Changes.antt =====
-- srcs/commands/management/Mode.cpp: what each mode changes. A mode that changes nothing is taken
-- out of the answer.
use ft_irc_duck.Base.{
  ℕ, Bool, true, false, not, ◌||◌, Option, none, some, List, [], ◌∷◌, if◌then◌else◌, is_empty,
  Outcome, ok, ◌>>=◌,
}
use ft_irc_duck.Text.{Text, codes, text_eq, contains}
use ft_irc_duck.Map.{lookup, insert, member, remove, fd_key}
use ft_irc_duck.Reply.{
  Reply, template, err_needmoreparams, err_usernotinchannel, err_noprivileges, rpl_yourechanop,
}
use ft_irc_duck.Client.{Client}
use ft_irc_duck.Message.{Message, copy, from_client, reply_format, reply_format_all}
use ft_irc_duck.Channel.{Channel, Status}
use ft_irc_duck.Server.{Server, post, client_at, set_client, get_client_by_nickname}
use ft_irc_duck.Commands.Info.{oper}
use ft_irc_duck.Commands.Mode.Flags.{
  FlagStatus, unchanged, add, Param, Modes, flag_of, set_usermode, set_chanmode, get_param,
}

-- A mode that is on or off: the flag that is answered, and the new value.
unfoldable pub switch : FlagStatus → Bool → FlagStatus × Bool
switch unchanged on = (unchanged, on)
switch add on = (if on then unchanged else add, true)
switch FlagStatus.remove on = (if on then FlagStatus.remove else unchanged, false)

-- Mode::_client_i
unfoldable pub client_i : ℕ → Modes → Server → Outcome (Modes × Server)
client_i fd md s = client_at s fd >>= λ c.
    let (f, on) = switch (flag_of b'i' md.all_usermodes) c.is_invisible in
    ok (set_usermode b'i' f md, set_client fd (record c { is_invisible = on }) s)

-- `_mode_params[0].second`
abbrev first_value : List Param → Text
first_value [] = []
first_value (p ∷ ps) = p.value

-- +O: the OPER command of setup_commands answers the client.
unfoldable pub add_operator : Client → Modes → Server → Outcome (Modes × Server)
add_operator c md s =
    oper s (record (from_client c) { cmd = codes "OPER"; cmd_param = first_value md.mode_params })
    >>= λ (s', response). ok (
      if contains response.text (codes "381 ") then md else set_usermode b'O' unchanged md,
      post response s',
    )

-- -O
unfoldable pub remove_operator : ℕ → Client → Modes → Server → Outcome (Modes × Server)
remove_operator fd c md s =
    if member fd s.oper_socket
    then ok (md, record s { oper_socket = remove fd s.oper_socket })
    else (reply_format (from_client c) (template err_noprivileges) [] s.socket_id >>= λ response.
        ok (set_usermode b'O' unchanged md, post response s))

unfoldable pub switch_operator : FlagStatus → ℕ → Client → Modes → Server → Outcome (Modes × Server)
switch_operator unchanged fd c md s = ok (md, s)
switch_operator add fd c md s = add_operator c md s
switch_operator FlagStatus.remove fd c md s = remove_operator fd c md s

-- Mode::_client_O
unfoldable pub client_op : ℕ → Modes → Server → Outcome (Modes × Server)
client_op fd md s =
    client_at s fd >>= λ c. switch_operator (flag_of b'O' md.all_usermodes) fd c md s

-- Mode::_channel_i and Mode::_channel_t
unfoldable pub channel_i : Modes → Channel → Modes × Channel
channel_i md c =
    let (f, on) = switch (flag_of b'i' md.all_chanmodes) c.is_invite_only in
    (set_chanmode b'i' f md, record c { is_invite_only = on })

unfoldable pub channel_t : Modes → Channel → Modes × Channel
channel_t md c =
    let (f, on) = switch (flag_of b't' md.all_chanmodes) c.is_topic_restricted in
    (set_chanmode b't' f md, record c { is_topic_restricted = on })

-- `Message warning(msg); warning.reply_format(...); serv.msgs.push_back(warning)`
unfoldable pub warn : Reply → Text → Message → Server → Outcome Server
warn r value m s =
    reply_format (copy m) (template r) value s.socket_id >>= λ warning. ok (post warning s)

-- What Mode::_channel_k does with a key that is given.
unfoldable pub change_key : FlagStatus → Text → Modes → Channel → Modes × Channel
change_key unchanged param md c = (md, c)
change_key add param md c =
    if text_eq c.key param
    then (set_chanmode b'k' unchanged md, c)
    else (md, record c { key = param })
change_key FlagStatus.remove param md c =
    if is_empty c.key || not (text_eq c.key param)
    then (set_chanmode b'k' unchanged md, c)
    else (md, record c { key = [] })

-- Mode::_channel_k
unfoldable pub channel_k : Message → Modes → Channel → Server → Outcome (Modes × Channel × Server)
channel_k m md c s =
    let f = flag_of b'k' md.all_chanmodes in
    let param = get_param b'k' md.mode_params in
    elim f [
      | unchanged ↦ ok (md, c, s)
      | changed ↦
          if is_empty param
          then (warn err_needmoreparams m.cmd m s >>= λ s'.
              ok (set_chanmode b'k' unchanged md, c, s'))
          else let (md', c') = change_key changed param md c in ok (md', c', s)
    ]

-- A client of the map becomes an operator, and is told so.
unfoldable pub give_operator :
    ℕ → Status → Modes → Channel → Server → Outcome (Modes × Channel × Server)
give_operator fd st md c s =
    if st.chanop
    then ok (set_chanmode b'o' unchanged md, c, s)
    else (client_at s fd >>= λ target.
        reply_format (from_client target) (template rpl_yourechanop) c.name s.socket_id
        >>= λ warning. ok (
          md,
          record c { clients = insert fd (record st { chanop = true }) c.clients },
          post warning s,
        ))

unfoldable pub take_operator : ℕ → Status → Modes → Channel → Modes × Channel
take_operator fd st md c =
    if st.chanop
    then (md, record c { clients = insert fd (record st { chanop = false }) c.clients })
    else (set_chanmode b'o' unchanged md, c)

-- The client is not in the channel's map.
unfoldable pub refuse_operator :
    Text → Message → Modes → Channel → Server → Outcome (Modes × Channel × Server)
refuse_operator param m md c s =
    reply_format_all (copy m) (template err_usernotinchannel ∷ []) (param ∷ c.name ∷ [])
    >>= λ warning. ok (set_chanmode b'o' unchanged md, c, post warning s)

-- The client of a nickname in the channel's map, with its int.
unfoldable pub find_in_channel : Text → Channel → Server → Option (ℕ × Status)
find_in_channel param c s = elim (get_client_by_nickname s param) [
  | none ↦ none
  | some fd ↦ elim (lookup fd c.clients) [ none ↦ none | some st ↦ some (fd, st) ]
]

unfoldable pub change_operator :
    FlagStatus → ℕ → Status → Modes → Channel → Server → Outcome (Modes × Channel × Server)
change_operator unchanged fd st md c s = ok (md, c, s)
change_operator add fd st md c s = give_operator fd st md c s
change_operator FlagStatus.remove fd st md c s =
    let (md', c') = take_operator fd st md c in ok (md', c', s)

-- A nickname that is given.
unfoldable pub operator_named :
    FlagStatus → Text → Message → Modes → Channel → Server → Outcome (Modes × Channel × Server)
operator_named f param m md c s = elim (find_in_channel param c s) [
  | none ↦ refuse_operator param m md c s
  | some (fd, st) ↦ change_operator f fd st md c s
]

-- No nickname is given.
unfoldable pub nobody_named :
    Message → Modes → Channel → Server → Outcome (Modes × Channel × Server)
nobody_named m md c s =
    warn err_needmoreparams m.cmd m s >>= λ s'. ok (set_chanmode b'o' unchanged md, c, s')

unfoldable pub switch_chanop :
    FlagStatus → Message → Modes → Channel → Server → Outcome (Modes × Channel × Server)
switch_chanop unchanged m md c s = ok (md, c, s)
switch_chanop f m md c s =
    let param = get_param b'o' md.mode_params in
    if is_empty param then nobody_named m md c s else operator_named f param m md c s

-- Mode::_channel_o
unfoldable pub channel_o : Message → Modes → Channel → Server → Outcome (Modes × Channel × Server)
channel_o m md c s = switch_chanop (flag_of b'o' md.all_chanmodes) m md c s
