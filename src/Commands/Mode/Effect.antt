-- ===== src/Commands/Mode/Effect.antt =====
-- The effect of MODE on the channels, down to the change of one channel by an operator of it.
use ft_irc_duck.Base.{
  ℕ, suc, get_or, ◌==◌, true, false, Option, none, some, [], ◌≡◌, ◌∙◌, ap, arith, ◌⊎◌, inl, inr, ok,
  >>=-eq-ok, Option-cases, Bool-cases, drop,
}
use ft_irc_duck.Text.{Text, codes, find_first_of, text_eq, take_to}
use ft_irc_duck.Map.{lookup, insert, fd_key, text_key}
use ft_irc_duck.Reply.{err_modebadformat, err_nosuchnick, err_usersdontmatch, rpl_endofbanlist}
use ft_irc_duck.Message.{Message}
use ft_irc_duck.Channel.{Channel}
use ft_irc_duck.Server.{Env, Server, set_channel, get_channel_by_name, get_client_by_nickname}
use ft_irc_duck.Membership.{status_of}
use ft_irc_duck.Commands.Kick.Authority.{answer_keeps}
use ft_irc_duck.Commands.Mode.Keeping.{
  SameChannels, answer_changed_keeps, change_client_effect, read_modes_keeps,
}
use ft_irc_duck.Commands.Mode.Flags.{Modes}
use ft_irc_duck.Commands.Mode.{
  read_modes, apply_channel, change_channel, change_modes, current_mode, show_modes, is_sign,
  change_if_signed, mode_words, mode_of, mode,
}

-- A channel has been changed by an operator of it.
pub record Changed (env : Env) (fd : ℕ) (s s' : Server) : Type 0 where
  pub name : Text
  pub channel : Channel
  pub changed : Channel
  pub modes : Modes
  pub modes' : Modes
  pub message : Message
  pub before : Server
  pub after : Server
  pub found : lookup name s.channel_list ≡ some channel
  pub allowed : (status_of env fd channel.clients).chanop ≡ true
  pub read : SameChannels s before
  pub applied : apply_channel message modes channel before ≡ ok (modes', changed, after)
  pub stored : s'.channel_list ≡ insert name changed after.channel_list

abbrev pub Effect : Env → ℕ → Server → Server → Type 0
Effect env fd s s' = SameChannels s s' ⊎ Changed env fd s s'

unchanged-Effect : (env : Env) (fd : ℕ) (s s' : Server) → s' ≡ s → Effect env fd s s'
unchanged-Effect env fd s s' e = inl (ap (λ (t : Server). t.channel_list) e)

change_channel-Effect :
    (env : Env) (name : Text) (c : Channel) (md : Modes) (s t s' : Server) (m m' : Message)
    → lookup name s.channel_list ≡ some c
    → SameChannels s t
    → change_channel env name c md t m ≡ ok (s', m')
    → Effect env m.emitter s s'
unfolding change_channel set_channel
change_channel-Effect env name c md s t s' m m' found read h =
    elim (Bool-cases ((status_of env m.emitter c.clients).chanop)) [
      | inr e ↦ inl (
          ap (λ (u : Server). u.channel_list)
            (answer_keeps _ c.name t s' m m' (rw (e, change_channel) at h))
          ∙ read)
      | inl e ↦
          let ((md', c', u), f, g) =
            >>=-eq-ok (apply_channel m md c t) _ (rw (e, change_channel) at h) in
          inr (record {
            name = name;
            channel = c;
            changed = c';
            modes = md;
            modes' = md';
            message = m;
            before = t;
            after = u;
            found = found;
            allowed = e;
            read = read;
            applied = f;
            stored = ap (λ (v : Server). v.channel_list) (answer_changed_keeps _ _ _ s' m m' g);
          })
    ]

change_modes-Effect :
    (env : Env) (name : Text) (o : Option Channel) (s s' : Server) (m m' : Message)
    → lookup name s.channel_list ≡ o
    → change_modes env name o s m ≡ ok (s', m')
    → Effect env m.emitter s s'
unfolding change_modes
change_modes-Effect env name none s s' m m' found h =
    let ((md, t), e, f) = >>=-eq-ok (read_modes false s m) _ h in
    let (c, on, found', changed, channels) = change_client_effect md t s' _ m' f in
    inl (channels ∙ (read_modes_keeps false s t m md e).1)
change_modes-Effect env name (some c) s s' m m' found h =
    let ((md, t), e, f) = >>=-eq-ok (read_modes true s m) _ h in
    change_channel-Effect env name c md s t s' _ m' found (read_modes_keeps true s t m md e).1 f

pub show_modes_keeps :
    (env : Env) (o : Option Channel) (s s' : Server) (m m' : Message)
    → show_modes env o s m ≡ ok (s', m')
    → s' ≡ s
unfolding show_modes
show_modes_keeps env o s s' m m' h =
    let (n, e, f) = >>=-eq-ok (current_mode env o s m) _ h in ground (arith, f)

change_if_signed-Effect :
    (env : Env) (name : Text) (o : Option Channel) (s s' : Server) (m m' : Message)
    → lookup name s.channel_list ≡ o
    → change_if_signed env name o s m ≡ ok (s', m')
    → Effect env m.emitter s s'
unfolding change_if_signed
change_if_signed-Effect env name o s s' m m' found h =
    elim (Bool-cases (is_sign (get_or m.cmd_param 0 0))) [
      | inl e ↦ change_modes-Effect env name o s s' m m' found (rw (e, change_if_signed) at h)
      | inr e ↦
          unchanged-Effect env m.emitter s s'
            (answer_keeps err_modebadformat [] s s' m m' (rw (e, change_if_signed) at h))
    ]

mode_words-Effect :
    (env : Env) (name : Text) (o : Option Channel) (s s' : Server) (m m' : Message)
    → lookup name s.channel_list ≡ o
    → mode_words env name o s m ≡ ok (s', m')
    → Effect env m.emitter s s'
unfolding mode_words
mode_words-Effect env name none s s' m m' found h =
    change_if_signed-Effect env name none s s' m m' found h
mode_words-Effect env name (some c) s s' m m' found h =
    elim (Bool-cases (text_eq m.cmd_param (codes "b"))) [
      | inl e ↦
          unchanged-Effect env m.emitter s s'
            (answer_keeps rpl_endofbanlist c.name s s' m m' (rw (e, mode_words) at h))
      | inr e ↦ change_if_signed-Effect env name (some c) s s' m m' found (rw (e, mode_words) at h)
    ]

mode_of-Effect :
    (env : Env) (name : Text) (o : Option Channel) (s s' : Server) (m m' : Message)
    → lookup name s.channel_list ≡ o
    → mode_of env name o s m ≡ ok (s', m')
    → Effect env m.emitter s s'
unfolding mode_of
mode_of-Effect env name o s s' m m' found h =
    elim (Option-cases (find_first_of (codes " \t") m.cmd_param)) [
      | inl e ↦
          unchanged-Effect env m.emitter s s'
            (show_modes_keeps env o s s' m m' (rw (e, mode_of) at h))
      | inr (i, e) ↦
          mode_words-Effect env name o s s' (record m { cmd_param = drop (suc i) m.cmd_param }) m'
            found (rw (e, mode_of) at h)
    ]

-- MODE that returns changes no channel, or one, by an operator of it.
pub mode-Effect :
    (env : Env) (s s' : Server) (m m' : Message)
    → mode env s m ≡ ok (s', m')
    → Effect env m.emitter s s'
unfolding mode get_channel_by_name
mode-Effect env s s' m m' h = elim (Option-cases (lookup name s.channel_list)) [
  | inr (c, e) ↦ mode_of-Effect env name (some c) s s' m m' e (ground (arith, e, h))
  | inl e ↦ elim (Option-cases (get_client_by_nickname s name)) [
    | inl f ↦
        unchanged-Effect env m.emitter s s'
          (answer_keeps err_nosuchnick name s s' m m' (ground (arith, e, f, h)))
    | inr (fd, f) ↦ elim (Bool-cases (fd == m.emitter)) [
      | inl g ↦ mode_of-Effect env name none s s' m m' e (ground (arith, e, f, g, h))
      | inr g ↦
          unchanged-Effect env m.emitter s s'
            (answer_keeps err_usersdontmatch [] s s' m m' (ground (arith, e, f, g, h)))
    ]
  ]
]
  where
    name : Text
    name = take_to (find_first_of (codes " \t") m.cmd_param) m.cmd_param
