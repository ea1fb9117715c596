-- ===== src/Commands/Part/LastMember.antt =====
-- The last member leaves.
use ft_irc_duck.Base.{
  ℕ, true, some, [], ◌∷◌, ◌≡◌, refl, arith, ok, fault, use_after_free, ==_iff, if◌then◌else◌,
  is_empty, Bool-cases, inl, inr,
}
use ft_irc_duck.Text.{Text, has}
use ft_irc_duck.Map.{lookup, insert, erase, fd_key}
use ft_irc_duck.Client.{Client}
use ft_irc_duck.Reply.{rpl_part, kick_default_comment}
use ft_irc_duck.Reply.Shape.{shape}
use ft_irc_duck.Channel.{Channel, Status}
use ft_irc_duck.Message.{from_client}
use ft_irc_duck.Message.Replace.{IsClean}
use ft_irc_duck.Message.Format.{IsSenderClean}
use ft_irc_duck.Message.Templates.{reply_format_all-templates}
use ft_irc_duck.Server.{Server, get_channel_by_name}
use ft_irc_duck.Membership.{any_status, promote_first, assign_next_chanop, lower_member, leave}
use ft_irc_duck.Commands.Part.{success_behaviour, part_one}

-- Channel::del_client for the only client: nobody is left to become the operator.
leave_alone :
    (fd : ℕ) (st : Status) (c : Channel) (s : Server)
    → c.clients ≡ (fd, st) ∷ []
    → leave fd c s ≡ ok (record c { clients = [] }, s)
unfolding leave lower_member assign_next_chanop promote_first any_status lookup insert erase
leave_alone fd st c s e = ground (arith, e, ==_iff fd fd)

kick_default_comment-IsClean : IsClean kick_default_comment
unfolding has
kick_default_comment-IsClean = record { no_open = refl; no_close = refl }

given_reason-IsClean :
    (reason : Text)
    → IsClean reason
    → IsClean (if is_empty reason then kick_default_comment else reason)
given_reason-IsClean reason k = elim (Bool-cases (is_empty reason)) [
  | inl e ↦ rw e kick_default_comment-IsClean
  | inr e ↦ rw e k
]

-- When the only client of a channel parts it, and the client, the name of the channel and the reason
-- hold no angle bracket, the command uses the channel after it has erased it: the loop over its
-- clients runs over what was destroyed.
pub part_one_alone :
    (reason name : Text) (fd : ℕ) (st : Status) (c : Channel) (cl : Client) (s : Server)
    → get_channel_by_name s name ≡ some c
    → c.clients ≡ (fd, st) ∷ []
    → st.is_member ≡ true
    → IsSenderClean (from_client cl)
    → IsClean c.name
    → IsClean reason
    → part_one reason name cl fd s ≡ fault use_after_free
unfolding part_one success_behaviour any_status lookup
part_one_alone reason name fd st c cl s e single mem sender named given =
    let given' : Text = if is_empty reason then kick_default_comment else reason in
    let told =
      reply_format_all-templates (from_client cl) (rpl_part ∷ []) (c.name ∷ given' ∷ []) sender
        (named, (given_reason-IsClean reason given, tt)) (unfold shape in omega arith) in
    ground (arith, e, single, mem, ==_iff fd fd, leave_alone fd st c s single, told)
