-- ===== src/Commands/Mode/Answering.antt =====
-- The member limit of a channel as MODE answers it, given to +l again.
use ft_irc_duck.Base.{ℕ, ◌≤◌, some, ◌≡◌, arith, inl, inr, Bool-cases, Option-cases, ok, ◌==◌}
use ft_irc_duck.Message.{Message}
use ft_irc_duck.Channel.{Channel}
use ft_irc_duck.Server.{Server}
use ft_irc_duck.Commands.Mode.Flags.{unchanged, add, Modes, flag_of, get_param, set_chanmode}
use ft_irc_duck.Commands.Mode.Limit.{int_max, change_limit, channel_l}
use ft_irc_duck.Commands.Mode.Limit.Reading.{read_limit-decimal}
use ft_irc_duck.Commands.Mode.{limit_param}

-- The member limit of a channel, a number that fits into an int, written as the parameter that MODE
-- answers for the channel and given to +l on any channel, sets that limit there, and leaves the rest
-- of that channel and the server as they are.
pub channel_l-limit_param :
    (m : Message) (md : Modes) (c d : Channel) (s : Server) (n : ℕ)
    → c.member_limit ≡ some n
    → n ≤ int_max
    → flag_of b'l' md.all_chanmodes ≡ add
    → get_param b'l' md.mode_params ≡ (limit_param c).value
    → (md' : Modes) × (channel_l m md d s ≡ ok (md', record d { member_limit = c.member_limit }, s))
unfolding channel_l change_limit
channel_l-limit_param m md c d s n limit small flag param = elim (Option-cases d.member_limit) [
  | inl e ↦ (md, ground (arith, flag, param, limit, e, read_limit-decimal n small))
  | inr (old, e) ↦ elim (Bool-cases (old == n)) [
    | inl q ↦ (
      set_chanmode b'l' unchanged md,
      ground (arith, flag, param, limit, e, q, read_limit-decimal n small),
    )
    | inr q ↦ (md, ground (arith, flag, param, limit, e, q, read_limit-decimal n small))
  ]
]
