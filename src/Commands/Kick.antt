-- ===== src/Commands/Kick.antt =====
-- srcs/commands/channel/Kick.cpp: members removed from a channel by an operator of it.
pub mod Authority
use ft_irc_duck.Base.{
  ℕ, suc, Bool, false, not, Option, none, some, List, [], ◌∷◌, ◌++◌, ◌==◌, if◌then◌else◌, take,
  drop, length, is_empty, get_or, ◌-◌, Outcome, ok, fault, end_iterator, ◌>>=◌,
}
use ft_irc_duck.Text.{Text, codes, find}
use ft_irc_duck.Text.Split.{find_text, cut_by}
use ft_irc_duck.Map.{Map, FdSet, lookup, add, fd_key}
use ft_irc_duck.Reply.{
  template, kick_default_comment, rpl_kick, err_needmoreparams, err_nosuchchannel, err_notonchannel,
  err_chanoprivsneeded, err_usernotinchannel,
}
use ft_irc_duck.Message.{Message, from_client, reply_format_all}
use ft_irc_duck.Channel.{Channel, Status}
use ft_irc_duck.Server.{
  Env, Server, post, client_at, set_channel, get_channel_by_name, get_client_by_nickname,
}
use ft_irc_duck.Membership.{leave}
use ft_irc_duck.Commands.Info.{answer}

-- The members of a channel, added to a set of targets.
unfoldable pub add_members : Map ℕ Status → FdSet → FdSet
add_members [] targets = targets
add_members ((fd, st) ∷ m) targets =
    add_members m (if st.is_member then add fd targets else targets)

-- Kick::return_kick_target: the names, and what the parameters are afterwards.
unfoldable pub return_kick_target : Text → List Text × Text
return_kick_target param = elim (find b',' param) [
  | none ↦ (param ∷ [], param)
  | some i ↦
      let (pieces, rest) = cut_by (find_text (codes ", ")) 2 (length param) param in
      (pieces ++ rest ∷ [], rest)
]

last_or_zero : Text → ℕ
last_or_zero t = get_or t (length t - 1) 0

-- Kick::register_comment: the comment and the rest. It reads the last byte of the rest, which is
-- not there if the parameters begin with the colon.
unfoldable pub register_comment : Text → Outcome (Text × Text)
unfolding last_or_zero
register_comment param = elim (find b':' param) [
  | none ↦ ok (kick_default_comment, param)
  | some colon ↦
      let rest = take colon param in
      if is_empty rest
      then fault end_iterator
      else if last_or_zero rest == b' '
      then ok (drop (suc colon) param, take (length rest - 1) rest)
      else ok (drop (suc colon) param, rest)
]

-- The target as a member of the channel; a nickname of nobody is looked up as -1.
unfoldable pub member_named : Text → Channel → Server → Option ℕ
member_named nickname c s = elim (get_client_by_nickname s nickname) [
  | none ↦ none
  | some fd ↦ elim (lookup fd c.clients) [
    | none ↦ none
    | some st ↦ if st.is_member then some fd else none
  ]
]

-- One round of Kick::kick_targets_if_member.
unfoldable pub kick_one : Text → Text → ℕ → Channel → Server → Outcome (Channel × Server)
kick_one comment target emitter c s = client_at s emitter >>= λ issuer.
    elim (member_named target c s) [
      | none ↦
          reply_format_all (from_client issuer) (template err_usernotinchannel ∷ [])
            (target ∷ c.name ∷ [])
          >>= λ reply. ok (c, post reply s)
      | some fd ↦
          reply_format_all (from_client issuer) (template rpl_kick ∷ [])
            (c.name ∷ target ∷ comment ∷ [])
          >>= λ reply. leave fd c s >>= λ (c', s').
              ok (c', post (record reply { target = add_members c.clients reply.target }) s')
    ]

unfoldable pub kick_targets_if_member :
    Text → List Text → ℕ → Channel → Server → Outcome (Channel × Server)
kick_targets_if_member comment [] emitter c s = ok (c, s)
kick_targets_if_member comment (target ∷ targets) emitter c s =
    kick_one comment target emitter c s >>= λ (c', s').
    kick_targets_if_member comment targets emitter c' s'

-- Kick::is_issuer_membership_valid, and what follows where it is.
unfoldable pub kick_if_allowed : Text → Channel → Server → Message → Outcome (Server × Message)
kick_if_allowed name c s m = elim (lookup m.emitter c.clients) [
  | none ↦ answer err_notonchannel c.name s m
  | some st ↦
      if not st.chanop
      then answer err_chanoprivsneeded c.name s m
      else (register_comment m.cmd_param >>= λ (comment, rest).
          let (targets, param) = return_kick_target rest in
          kick_targets_if_member comment targets m.emitter c s >>= λ (c', s').
          ok (set_channel name c' s', record m { cmd_param = param }))
]

-- Kick::execute
unfoldable pub kick : Server → Message → Outcome (Server × Message)
kick s m = elim (find b' ' m.cmd_param) [
  | none ↦ answer err_needmoreparams m.cmd s m
  | some space ↦
      let name = take space m.cmd_param in
      let m' = record m { cmd_param = drop (suc space) m.cmd_param } in
      elim (get_channel_by_name s name) [
        | none ↦ answer err_nosuchchannel name s m'
        | some c ↦ kick_if_allowed name c s m'
      ]
]
