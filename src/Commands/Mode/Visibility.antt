-- ===== src/Commands/Mode/Visibility.antt =====
-- MODE and the clients of the server: the sender may become visible or invisible, and no more.
use ft_irc_duck.Base.{
  ℕ, Bool, true, false, Option, none, some, [], ◌≡◌, sym, ◌∙◌, ap, arith, ◌⊎◌, inl, inr, ok,
  >>=-eq-ok, suc, drop, ◌==◌, get_or, Option-cases, Bool-cases,
}
use ft_irc_duck.Text.{Text, codes, text_eq, find_first_of, take_to}
use ft_irc_duck.Map.{lookup, insert, fd_key, text_key}
use ft_irc_duck.Client.{Client}
use ft_irc_duck.Reply.{err_nosuchnick, err_usersdontmatch}
use ft_irc_duck.Channel.{Channel}
use ft_irc_duck.Message.{Message}
use ft_irc_duck.Server.{Env, Server, set_channel, get_channel_by_name, get_client_by_nickname}
use ft_irc_duck.Membership.{status_of}
use ft_irc_duck.Commands.Kick.Authority.{answer_keeps}
use ft_irc_duck.Commands.Mode.Flags.{Modes}
use ft_irc_duck.Commands.Mode.{
  is_sign, read_modes, apply_channel, change_channel, change_modes, change_if_signed, mode_words,
  mode_of, mode,
}
use ft_irc_duck.Commands.Mode.Keeping.{answer_changed_keeps, change_client_effect, read_modes_keeps}
use ft_irc_duck.Commands.Mode.Effect.{show_modes_keeps}
use ft_irc_duck.Commands.Mode.Members.{apply_channel_keeps}

-- The sender's visibility is set.
pub record Shown (fd : ℕ) (s s' : Server) : Type 0 where
  pub client : Client
  pub on : Bool
  pub found : lookup fd s.client_list ≡ some client
  pub shown : s'.client_list ≡ insert fd (record client { is_invisible = on }) s.client_list

abbrev pub Visibility : ℕ → Server → Server → Type 0
Visibility fd s s' = (s'.client_list ≡ s.client_list) ⊎ Shown fd s s'

same-Visibility : (fd : ℕ) (s s' : Server) → s' ≡ s → Visibility fd s s'
same-Visibility fd s s' e = inl (ap (λ (t : Server). t.client_list) e)

change_channel_visibility :
    (env : Env) (name : Text) (c : Channel) (md : Modes) (s s' : Server) (m m' : Message)
    → change_channel env name c md s m ≡ ok (s', m')
    → s'.client_list ≡ s.client_list
unfolding change_channel set_channel
change_channel_visibility env name c md s s' m m' h =
    elim (Bool-cases ((status_of env m.emitter c.clients).chanop)) [
      | inr e ↦
          ap (λ (u : Server). u.client_list)
            (answer_keeps _ c.name s s' m m' (rw (e, change_channel) at h))
      | inl e ↦
          let ((md', c', u), f, g) =
            >>=-eq-ok (apply_channel m md c s) _ (rw (e, change_channel) at h) in
          ap (λ (v : Server). v.client_list) (answer_changed_keeps _ _ _ s' m m' g)
          ∙ (apply_channel_keeps m md md' c c' s u f).kept.0
    ]

change_modes-Visibility :
    (env : Env) (name : Text) (o : Option Channel) (s s' : Server) (m m' : Message)
    → change_modes env name o s m ≡ ok (s', m')
    → Visibility m.emitter s s'
unfolding change_modes
change_modes-Visibility env name none s s' m m' h =
    let ((md, t), e, f) = >>=-eq-ok (read_modes false s m) _ h in
    let (c, on, found, changed, channels) = change_client_effect md t s' _ m' f in
    let kept = (read_modes_keeps false s t m md e).0 in
    inr (record {
      client = c;
      on = on;
      found = ap (lookup m.emitter) (sym kept) ∙ found;
      shown = changed ∙ ap (insert m.emitter (record c { is_invisible = on })) kept;
    })
change_modes-Visibility env name (some c) s s' m m' h =
    let ((md, t), e, f) = >>=-eq-ok (read_modes true s m) _ h in
    inl (change_channel_visibility env name c md t s' _ m' f ∙ (read_modes_keeps true s t m md e).0)

change_if_signed-Visibility :
    (env : Env) (name : Text) (o : Option Channel) (s s' : Server) (m m' : Message)
    → change_if_signed env name o s m ≡ ok (s', m')
    → Visibility m.emitter s s'
unfolding change_if_signed
change_if_signed-Visibility env name o s s' m m' h =
    elim (Bool-cases (is_sign (get_or m.cmd_param 0 0))) [
      | inl e ↦ change_modes-Visibility env name o s s' m m' (rw (e, change_if_signed) at h)
      | inr e ↦
          same-Visibility m.emitter s s'
            (answer_keeps _ [] s s' m m' (rw (e, change_if_signed) at h))
    ]

mode_words-Visibility :
    (env : Env) (name : Text) (o : Option Channel) (s s' : Server) (m m' : Message)
    → mode_words env name o s m ≡ ok (s', m')
    → Visibility m.emitter s s'
unfolding mode_words
mode_words-Visibility env name none s s' m m' h =
    change_if_signed-Visibility env name none s s' m m' h
mode_words-Visibility env name (some c) s s' m m' h =
    elim (Bool-cases (text_eq m.cmd_param (codes "b"))) [
      | inl e ↦
          same-Visibility m.emitter s s' (answer_keeps _ c.name s s' m m' (rw (e, mode_words) at h))
      | inr e ↦ change_if_signed-Visibility env name (some c) s s' m m' (rw (e, mode_words) at h)
    ]

mode_of-Visibility :
    (env : Env) (name : Text) (o : Option Channel) (s s' : Server) (m m' : Message)
    → mode_of env name o s m ≡ ok (s', m')
    → Visibility m.emitter s s'
unfolding mode_of
mode_of-Visibility env name o s s' m m' h =
    elim (Option-cases (find_first_of (codes " \t") m.cmd_param)) [
      | inl e ↦
          same-Visibility m.emitter s s' (show_modes_keeps env o s s' m m' (rw (e, mode_of) at h))
      | inr (i, e) ↦
          mode_words-Visibility env name o s s' (record m { cmd_param = drop (suc i) m.cmd_param })
            m' (rw (e, mode_of) at h)
    ]

pub mode-Visibility :
    (env : Env) (s s' : Server) (m m' : Message)
    → mode env s m ≡ ok (s', m')
    → Visibility m.emitter s s'
unfolding mode
mode-Visibility env s s' m m' h = elim (Option-cases (get_channel_by_name s name)) [
  | inr (c, e) ↦ mode_of-Visibility env name (some c) s s' m m' (ground (arith, e, h))
  | inl e ↦ elim (Option-cases (get_client_by_nickname s name)) [
    | inl f ↦
        same-Visibility m.emitter s s'
          (answer_keeps err_nosuchnick name s s' m m' (ground (arith, e, f, h)))
    | inr (fd, f) ↦ elim (Bool-cases (fd == m.emitter)) [
      | inl g ↦ mode_of-Visibility env name none s s' m m' (ground (arith, e, f, g, h))
      | inr g ↦
          same-Visibility m.emitter s s'
            (answer_keeps err_usersdontmatch [] s s' m m' (ground (arith, e, f, g, h)))
    ]
  ]
]
  where
    name : Text
    name = take_to (find_first_of (codes " \t") m.cmd_param) m.cmd_param
