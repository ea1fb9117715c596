-- ===== src/Membership.antt =====
-- srcs/channel/Channel.cpp: leaving a channel, and who becomes its operator then.
pub mod Traversal
pub mod Returning
pub mod Leaving
use mathlib.Core.Option
use ft_irc_duck.Base.{
  ℕ, Bool, true, false, ◌||◌, Option, none, some, [], ◌∷◌, if◌then◌else◌, Outcome, ok, ◌>>=◌,
}
use ft_irc_duck.Map.{Map, lookup, insert, erase, fd_key}
use ft_irc_duck.Reply.{template, rpl_yourechanop}
use ft_irc_duck.Message.{from_client, reply_format}
use ft_irc_duck.Channel.{Channel, Status}
use ft_irc_duck.Server.{Env, Server, post, client_at}

-- The loop over `_clients` that returns at the first int with the bit.
unfoldable pub any_status : (Status → Bool) → Map ℕ Status → Bool
any_status test [] = false
any_status test ((fd, st) ∷ m) = if test st then true else any_status test m

abbrev pub are_there_other_chanops : Map ℕ Status → Bool
are_there_other_chanops = any_status λ st. st.chanop

abbrev pub has_member : Map ℕ Status → Bool
has_member = any_status λ st. st.is_member

-- `_clients.find(client)->second`, which is read at the end iterator too.
unfoldable pub status_of : Env → ℕ → Map ℕ Status → Status
status_of env fd m = elim (lookup fd m) [ none ↦ env.end_status | some st ↦ st ]

-- The loop of assign_next_chanop: the first member, and the map with its new bit.
unfoldable pub promote_first : Map ℕ Status → Option (ℕ × Map ℕ Status)
promote_first [] = none
promote_first ((fd, st) ∷ m) =
    let later = Option.map (λ (r : ℕ × Map ℕ Status). (r.0, (fd, st) ∷ r.1)) (promote_first m) in
    if st.is_member then some (fd, (fd, record st { chanop = true }) ∷ m) else later

unfoldable pub assign_next_chanop : Channel → Server → Outcome (Channel × Server)
assign_next_chanop c s = elim (promote_first c.clients) [
  | none ↦ ok (c, s)
  | some (fd, clients) ↦ client_at s fd >>= λ member.
      reply_format (from_client member) (template rpl_yourechanop) c.name s.socket_id >>= λ warning.
      ok (record c { clients = clients }, post warning s)
]

-- The bits of a member go first, then a new operator is looked for.
unfoldable pub lower_member : ℕ → Status → Channel → Server → Outcome (Channel × Server)
lower_member fd st c s =
    let left = record c {
      clients = insert fd (record st { is_member = false; chanop = false }) c.clients;
    } in
    if st.is_member
    then (if st.chanop
        then (if are_there_other_chanops left.clients
            then ok (left, s)
            else assign_next_chanop left s)
        else ok (left, s))
    else ok (c, s)

-- Channel::del_client
unfoldable pub leave : ℕ → Channel → Server → Outcome (Channel × Server)
leave fd c s = elim (lookup fd c.clients) [
  | none ↦ ok (c, s)
  | some st ↦ lower_member fd st c s >>= λ (left, s').
      ok (record left { clients = erase fd left.clients }, s')
]
