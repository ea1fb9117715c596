-- ===== src/Commands/Mode/Authority.antt =====
-- Who may change the modes of a channel.
use ft_irc_duck.Base.{
  ℕ, true, false, some, ◌≡◌, arith, inl, inr, ok, Bool-cases, some-inj, ◌∙◌, ap, sym,
}
use ft_irc_duck.Text.{Text, text_eq}
use ft_irc_duck.Map.{lookup, insert, fd_key, text_key}
use ft_irc_duck.Map.Laws.{lookup-insert}
use ft_irc_duck.Message.{Message}
use ft_irc_duck.Channel.{Channel, Status}
use ft_irc_duck.Server.{Env, Server}
use ft_irc_duck.Membership.{status_of}
use ft_irc_duck.Commands.Mode.{mode}
use ft_irc_duck.Commands.Mode.Effect.{Changed, mode-Effect}
use ft_irc_duck.Commands.Mode.Members.{apply_channel_keeps}

-- The channels that the change of one channel leaves.
stored_channels :
    (env : Env) (fd : ℕ) (s s' : Server) (d : Changed env fd s s')
    → s'.channel_list ≡ insert d.name d.changed s.channel_list
stored_channels env fd s s' d =
    d.stored
    ∙ ap (insert d.name d.changed) (
        (apply_channel_keeps d.message d.modes d.modes' d.channel d.changed d.before d.after
          d.applied).kept.1
        ∙ d.read)

no_operator_status :
    (env : Env) (fd : ℕ) (c : Channel) (st : Status)
    → lookup fd c.clients ≡ some st
    → st.chanop ≡ false
    → ¬ ((status_of env fd c.clients).chanop ≡ true)
unfolding status_of
no_operator_status env fd c st has low h = ground (arith, has, low, h)

-- MODE that returns leaves a channel as it is, in every field, where the map of the channel holds the
-- client without the operator status.
pub mode_keeps_channels :
    (env : Env) (s s' : Server) (m m' : Message) (name : Text) (c : Channel) (st : Status)
    → lookup name s.channel_list ≡ some c
    → lookup m.emitter c.clients ≡ some st
    → st.chanop ≡ false
    → mode env s m ≡ ok (s', m')
    → lookup name s'.channel_list ≡ some c
mode_keeps_channels env s s' m m' name c st found has low h = elim (mode-Effect env s s' m m' h) [
  | inl same ↦ rw same found
  | inr d ↦ elim (Bool-cases (text_eq d.name name)) [
    | inl q ↦ absurd (
        let here : d.channel ≡ c =
          some-inj (sym d.found ∙ rw ((text_key.beq_iff d.name name).0 q) found) in
        no_operator_status env m.emitter c st has low (rw here at d.allowed))
    | inr q ↦ rw (stored_channels env m.emitter s s' d, lookup-insert, q) found
  ]
]
