-- ===== src/Commands/Part.antt =====
-- srcs/commands/channel/Part.cpp: a client leaves channels; an empty channel is deleted.
pub mod LastMember
use ft_irc_duck.Base.{
  ℕ, suc, Bool, Option, none, some, List, [], ◌∷◌, ◌++◌, if◌then◌else◌, take, drop, is_empty,
  Outcome, ok, fault, use_after_free, ◌>>=◌,
}
use ft_irc_duck.Text.{Text, find}
use ft_irc_duck.Text.Split.{split_list}
use ft_irc_duck.Map.{Map, lookup, erase, fd_key, text_key}
use ft_irc_duck.Reply.{
  template, kick_default_comment, rpl_part, err_nosuchchannel, err_notonchannel,
}
use ft_irc_duck.Message.{Message, from_client, reply_format, reply_format_all}
use ft_irc_duck.Client.{Client}
use ft_irc_duck.Channel.{Channel, Status}
use ft_irc_duck.Server.{Server, post, client_at, set_channel, get_channel_by_name}
use ft_irc_duck.Membership.{leave, has_member}
use ft_irc_duck.Commands.Kick.{add_members}

-- Part::success_behaviour. Where delete_chan_if_empty has erased the channel, the loop over its
-- clients reads what was destroyed.
unfoldable pub success_behaviour : Text → Text → Channel → Client → ℕ → Server → Outcome Server
success_behaviour name reason c cl fd s = leave fd c s >>= λ (c', s').
    reply_format_all (from_client cl) (template rpl_part ∷ [])
      (c.name ∷ (if is_empty reason then kick_default_comment else reason) ∷ [])
    >>= λ warning.
        if has_member c'.clients
        then ok (
            post (record warning { target = add_members c'.clients warning.target })
              (set_channel name c' s'))
        else fault use_after_free

post_error : Text → Text → Client → Server → Outcome Server
post_error error name cl s =
    reply_format (from_client cl) error name s.socket_id >>= λ e. ok (post e s)

-- One round of Part::loop_check.
unfoldable pub part_one : Text → Text → Client → ℕ → Server → Outcome Server
unfolding post_error
part_one reason name cl fd s = elim (get_channel_by_name s name) [
  | none ↦ post_error (template err_nosuchchannel) name cl s
  | some c ↦ elim (lookup fd c.clients) [
    | none ↦ post_error (template err_notonchannel) name cl s
    | some st ↦
        if st.is_member
        then success_behaviour name reason c cl fd s
        else post_error (template err_notonchannel) name cl s
  ]
]

unfoldable pub part_all : Text → List Text → Client → ℕ → Server → Outcome Server
part_all reason [] cl fd s = ok s
part_all reason (name ∷ names) cl fd s =
    part_one reason name cl fd s >>= λ s'. part_all reason names cl fd s'

-- The channels of the command: with nothing left of the text, an empty name is added.
unfoldable pub named_channels : Text → List Text
unfolding split_list
named_channels t =
    let (names, rest) = split_list t in if is_empty rest then names ++ [] ∷ [] else names

abbrev reason_of : Text → Option ℕ → Text
reason_of t none = []
reason_of t (some space) = drop (suc space) t

abbrev channels_of : Text → Option ℕ → Text
channels_of t none = t
channels_of t (some space) = take space t

-- Part::execute
unfoldable pub part : Server → Message → Outcome (Server × Message)
part s m =
    let space = find b' ' m.cmd_param in
    let names = channels_of m.cmd_param space in
    client_at s m.emitter >>= λ cl.
    part_all (reason_of m.cmd_param space) (named_channels names) cl m.emitter s >>= λ s'.
    ok (s', record m { cmd_param = (split_list names).1 })
