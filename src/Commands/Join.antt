-- ===== src/Commands/Join.antt =====
-- srcs/commands/channel/Join.cpp: a client enters channels, which are made where they are missing.
pub mod Admission
pub mod Names
pub mod Quoting
pub mod Announcing
pub mod Entering
use ft_irc_duck.Base.{
  ℕ, suc, Bool, true, false, not, ◌&&◌, ◌||◌, Option, none, some, List, [], ◌∷◌, ◌++◌, ◌==◌, leb,
  if◌then◌else◌, length, take, drop, is_empty, get_or, Outcome, ok, fault, end_iterator, ◌>>=◌,
}
use ft_irc_duck.Text.{Text, codes, text_eq, find, find_first_not_of}
use ft_irc_duck.Text.Split.{split_list}
use ft_irc_duck.Map.{Map, FdSet, lookup, insert, add, fd_key, text_key}
use ft_irc_duck.Reply.{
  template, nick_good_characters, rpl_join, rpl_topic, rpl_topicwhotime, rpl_namreply,
  rpl_endofnames, err_nosuchchannel, err_channelisfull, err_badchannelkey, err_inviteonlychan,
}
use ft_irc_duck.Message.{
  Message, from_client, reply_format, reply_format_all, reply_replace_curly_brackets,
}
use ft_irc_duck.Client.{Client}
use ft_irc_duck.Channel.{Channel, Status, plain_member, new_channel}
use ft_irc_duck.Server.{Env, Server, post, client_at, set_channel}
use ft_irc_duck.Membership.{status_of}
use ft_irc_duck.Commands.Part.{part, named_channels}

-- Join::is_channel_name_allowed
unfoldable pub is_channel_name_allowed : Text → Bool
is_channel_name_allowed name =
    if (get_or name 0 0 == b'#') || (get_or name 0 0 == b'&')
    then elim (find_first_not_of nick_good_characters (drop 1 name)) [
      | none ↦ true
      | some i ↦ false
    ]
    else false

-- The nicknames of the members, as RPL_NAMREPLY lists them.
unfoldable pub member_names : Server → Map ℕ Status → Outcome (List Text)
member_names s [] = ok []
member_names s ((fd, st) ∷ m) =
    let rest = member_names s m in
    if st.is_member
    then (client_at s fd >>= λ cl.
        rest >>= λ names. ok ((if st.chanop then b'@' ∷ cl.nickname else cl.nickname) ∷ names))
    else rest

-- The members other than the one that joined.
unfoldable pub other_members : ℕ → Map ℕ Status → FdSet
other_members fd [] = []
other_members fd ((j, st) ∷ m) =
    let rest = other_members fd m in if st.is_member && not (j == fd) then add j rest else rest

abbrev topic_replies : Channel → List Text
topic_replies c =
    if is_empty c.topic then [] else template rpl_topic ∷ template rpl_topicwhotime ∷ []

abbrev topic_values : Text → Channel → List Text
topic_values name c =
    if is_empty c.topic then [] else name ∷ c.topic ∷ name ∷ c.topic_author ∷ c.topic_date ∷ []

-- Join::new_chan_member_sucess. The list of names has room for every client of the map.
unfoldable pub new_chan_member_success : Text → Channel → Client → ℕ → Server → Outcome Server
new_chan_member_success name c cl fd s =
    reply_format (from_client cl) (template rpl_join) name s.socket_id >>= λ warning.
    reply_replace_curly_brackets (template rpl_namreply) (length c.clients) >>= λ namreply.
    member_names s c.clients >>= λ names.
    reply_format_all (from_client cl)
      (template rpl_join ∷ (topic_replies c ++ (namreply ∷ template rpl_endofnames ∷ [])))
      (name ∷ (topic_values name c ++ (codes "=" ∷ name ∷ (names ++ name ∷ []))))
    >>= λ reply.
        let s' = post reply s in
        ok (
          if leb 2 (length c.clients)
          then post (record warning { target = other_members fd c.clients }) s'
          else s')

-- Join::join_create_channel
unfoldable pub join_create_channel : Text → Client → ℕ → Server → Outcome Server
join_create_channel name cl fd s =
    let c = new_channel fd name in new_chan_member_success name c cl fd (set_channel name c s)

-- Why a client that is no member may not enter.
pub data Refusal : Type 0 where
  full bad_key invite_only : Refusal

abbrev pub is_full : Channel → Bool
is_full c = elim c.member_limit [ none ↦ false | some limit ↦ leb limit (length c.clients) ]

abbrev pub is_key_wrong : List Text → Channel → Bool
is_key_wrong [] c = not (is_empty c.key)
is_key_wrong (k ∷ keys) c = not (is_empty c.key) && not (text_eq c.key k)

-- The tests of Join::join_check_existing_chan, in their order.
unfoldable pub refusal : List Text → Status → Channel → Option Refusal
refusal keys st c =
    if is_full c
    then some full
    else if is_key_wrong keys c
    then some bad_key
    else if st.invited
    then none
    else if c.is_invite_only
    then some invite_only
    else none

refusal_reply : Refusal → Text
refusal_reply full = template err_channelisfull
refusal_reply bad_key = template err_badchannelkey
refusal_reply invite_only = template err_inviteonlychan

-- The int of an invited client is overwritten where it stands, behind the end where it is missing;
-- any other client gets an entry.
unfoldable pub enter : Env → ℕ → Channel → Outcome Channel
enter env fd c = elim (lookup fd c.clients) [
  | none ↦
      if env.end_status.invited
      then fault end_iterator
      else ok (record c { clients = insert fd plain_member c.clients })
  | some st ↦ ok (record c { clients = insert fd plain_member c.clients })
]

-- Join::join_check_existing_chan
unfoldable pub join_check_existing_chan :
    Env → List Text → Text → Channel → Client → ℕ → Server → Outcome Server
unfolding refusal_reply
join_check_existing_chan env keys name c cl fd s =
    let st = status_of env fd c.clients in
    if st.is_member then ok s else elim (refusal keys st c) [
      | some r ↦ reply_format (from_client cl) (refusal_reply r) c.name s.socket_id >>= λ error.
          ok (post error s)
      | none ↦
          enter env fd c >>= λ c'. new_chan_member_success c.name c' cl fd (set_channel name c' s)
    ]

-- One round of Join::join_channel.
unfoldable pub join_one : Env → List Text → Text → Client → ℕ → Server → Outcome Server
join_one env keys name cl fd s =
    if is_empty name || not (is_channel_name_allowed name)
    then (reply_format (from_client cl) (template err_nosuchchannel) name s.socket_id >>= λ error.
        ok (post error s))
    else elim (lookup name s.channel_list) [
      | none ↦ join_create_channel name cl fd s
      | some c ↦ join_check_existing_chan env keys name c cl fd s
    ]

-- Join::join_channel: each channel uses up a key.
unfoldable pub join_channel : Env → List Text → List Text → Client → ℕ → Server → Outcome Server
join_channel env keys [] cl fd s = ok s
join_channel env keys (name ∷ names) cl fd s =
    join_one env keys name cl fd s >>= λ s'. join_channel env (drop 1 keys) names cl fd s'

-- The names of the channels that hold the client, invited or member, joined by commas.
unfoldable pub own_channels : ℕ → Map Text Channel → Text → Text
own_channels fd [] acc = acc
own_channels fd ((name, c) ∷ rest) acc = own_channels fd rest (elim (lookup fd c.clients) [
  | none ↦ acc
  | some st ↦ if is_empty acc then name else acc ++ b',' ∷ name
])

-- Join::special_argument, which leaves them all.
unfoldable pub special_argument : Server → Message → Outcome (Server × Message)
special_argument s m =
    let m' = record m { cmd_param = own_channels m.emitter s.channel_list [] } in
    if is_empty m'.cmd_param then ok (s, m') else part s m'

abbrev keys_of : Text → Option ℕ → List Text
keys_of t none = []
keys_of t (some space) = (split_list (drop (suc space) t)).0

abbrev channels_of : Text → Option ℕ → Text
channels_of t none = t
channels_of t (some space) = take space t

-- Join::execute
unfoldable pub join : Env → Server → Message → Outcome (Server × Message)
join env s m =
    if text_eq m.cmd_param (codes "0")
    then special_argument s m
    else let space = find b' ' m.cmd_param in
      let names = channels_of m.cmd_param space in
      client_at s m.emitter >>= λ cl.
      join_channel env (keys_of m.cmd_param space) (named_channels names) cl m.emitter s >>= λ s'.
      ok (s', record m { cmd_param = (split_list names).1 })
