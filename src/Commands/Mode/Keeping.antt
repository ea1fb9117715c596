-- ===== src/Commands/Mode/Keeping.antt =====
-- What the parts of MODE leave as it is, and what they do to a client.
use ft_irc_duck.Base.{
  ℕ, zero, suc, Bool, true, false, Option, some, ◌≡◌, ◌∙◌, ap, arith, inl, inr, Outcome, ok,
  >>=-eq-ok, if◌then◌else◌, Option-cases,
}
use ft_irc_duck.Text.{Text}
use ft_irc_duck.Map.{lookup, insert, fd_key, text_key}
use ft_irc_duck.Reply.{template, err_toomanyparam}
use ft_irc_duck.Client.{Client}
use ft_irc_duck.Message.{Message}
use ft_irc_duck.Channel.{Channel}
use ft_irc_duck.Server.{Server, post, client_at, set_client, oper_command_check}
use ft_irc_duck.Commands.Info.{answer, oper}
use ft_irc_duck.Commands.Mode.Flags.{
  FlagStatus, unchanged, add, flag_of, Modes, get_mode_params, reset_modes,
}
use ft_irc_duck.Commands.Mode.Changes.{
  switch, client_i, client_op, add_operator, remove_operator, switch_operator,
}
use ft_irc_duck.Commands.Mode.{
  warn_client, warn_times, read_modes, apply_client, answer_changed, change_client,
}

-- The channels stay.
abbrev pub SameChannels : Server → Server → Type 0
SameChannels s s' = s'.channel_list ≡ s.channel_list

-- The clients and the channels stay.
abbrev pub Kept : Server → Server → Type 0
Kept s s' = (s'.client_list ≡ s.client_list) × SameChannels s s'

pub Kept-trans : (s t u : Server) → Kept s t → Kept t u → Kept s u
Kept-trans s t u k l = (l.0 ∙ k.0, l.1 ∙ k.1)

oper_keeps : (s s' : Server) (m m' : Message) → oper s m ≡ ok (s', m') → Kept s s'
unfolding oper oper_command_check answer
oper_keeps s s' m m' h = ground arith

warn_client_keeps : (r v : Text) (fd : ℕ) (s s' : Server) → warn_client r v fd s ≡ ok s' → Kept s s'
unfolding warn_client post
warn_client_keeps r v fd s s' h = ground arith

warn_times_keeps :
    (n : ℕ) (r v : Text) (fd : ℕ) (s s' : Server) → warn_times n r v fd s ≡ ok s' → Kept s s'
unfolding warn_times
warn_times_keeps zero r v fd s s' h = ground arith
warn_times_keeps (suc n) r v fd s s' h =
    let (t, e, f) = >>=-eq-ok (warn_client r v fd s) _ h in
    Kept-trans s t s' (warn_client_keeps r v fd s t e) (warn_times_keeps n r v fd t s' f)

add_operator_keeps :
    (c : Client) (md md' : Modes) (s s' : Server) → add_operator c md s ≡ ok (md', s') → Kept s s'
unfolding add_operator post
add_operator_keeps c md md' s s' h =
    let ((t, m), e, f) = >>=-eq-ok (oper s _) _ h in
    let kept = oper_keeps s t _ m e in ground (arith, f, kept)

remove_operator_keeps :
    (fd : ℕ) (c : Client) (md md' : Modes) (s s' : Server)
    → remove_operator fd c md s ≡ ok (md', s')
    → Kept s s'
unfolding remove_operator post
remove_operator_keeps fd c md md' s s' h = ground arith

switch_operator_keeps :
    (f : FlagStatus) (fd : ℕ) (c : Client) (md md' : Modes) (s s' : Server)
    → switch_operator f fd c md s ≡ ok (md', s')
    → Kept s s'
unfolding switch_operator
switch_operator_keeps unchanged fd c md md' s s' h = ground arith
switch_operator_keeps add fd c md md' s s' h = add_operator_keeps c md md' s s' h
switch_operator_keeps FlagStatus.remove fd c md md' s s' h =
    remove_operator_keeps fd c md md' s s' h

client_op_keeps :
    (fd : ℕ) (md md' : Modes) (s s' : Server) → client_op fd md s ≡ ok (md', s') → Kept s s'
unfolding client_op
client_op_keeps fd md md' s s' h =
    let (c, e, f) = >>=-eq-ok (client_at s fd) _ h in switch_operator_keeps _ fd c md md' s s' f

pub answer_changed_keeps :
    (o : Option Channel) (t : Text) (s s' : Server) (m m' : Message)
    → answer_changed o t s m ≡ ok (s', m')
    → s' ≡ s
unfolding answer_changed
answer_changed_keeps o t s s' m m' h = ground arith

-- A client that becomes visible or invisible.
pub client_i_effect :
    (fd : ℕ) (md md' : Modes) (s s' : Server)
    → client_i fd md s ≡ ok (md', s')
    → (c : Client) × (on : Bool) × (lookup fd s.client_list ≡ some c)
      × (s'.client_list ≡ insert fd (record c { is_invisible = on }) s.client_list)
      × SameChannels s s'
unfolding client_i client_at set_client
client_i_effect fd md md' s s' h = elim (Option-cases (lookup fd s.client_list)) [
  | inl e ↦ absurd (ground (arith, e, h))
  | inr (c, e) ↦ (
    c,
    (switch (flag_of b'i' md.all_usermodes) c.is_invisible).1,
    e,
    ground (arith, e, h),
    ground (arith, e, h),
  )
]

-- What MODE does to a client: it becomes visible or invisible.
pub change_client_effect :
    (md : Modes) (s s' : Server) (m m' : Message)
    → change_client md s m ≡ ok (s', m')
    → (c : Client) × (on : Bool) × (lookup m.emitter s.client_list ≡ some c)
      × (s'.client_list ≡ insert m.emitter (record c { is_invisible = on }) s.client_list)
      × SameChannels s s'
unfolding change_client apply_client
change_client_effect md s s' m m' h =
    let ((md2, s2), e, f) = >>=-eq-ok (apply_client m.emitter md s) _ h in
    let ((md1, s1), d, g) = >>=-eq-ok (client_i m.emitter md s) _ e in
    let same = answer_changed_keeps _ _ s2 s' m m' f in
    let kept = client_op_keeps m.emitter md1 md2 s1 s2 g in
    let (c, on, found, changed, channels) = client_i_effect m.emitter md md1 s s1 d in
    (
      c,
      on,
      found,
      ap (λ (t : Server). t.client_list) same ∙ kept.0 ∙ changed,
      ap (λ (t : Server). t.channel_list) same ∙ kept.1 ∙ channels,
    )

pub read_modes_keeps :
    (b : Bool) (s s' : Server) (m : Message) (md : Modes)
    → read_modes b s m ≡ ok (md, s')
    → Kept s s'
unfolding read_modes
read_modes_keeps b s s' m md h =
    let (t, e, f) = >>=-eq-ok (maybe_warn params.1) _ h in
    let (u, g, k) = >>=-eq-ok (warn_times _ _ _ m.emitter t) _ f in
    let same : s' ≡ u = ground (arith, k) in
    rw same (Kept-trans s t u (kept params.1 t e) (warn_times_keeps _ _ _ m.emitter t u g))
  where
    params : Modes × Bool
    params = get_mode_params m.cmd_param b reset_modes

    maybe_warn : Bool → Outcome Server
    maybe_warn many =
        if many then warn_client (template err_toomanyparam) m.cmd m.emitter s else ok s

    kept : (many : Bool) (t : Server) → maybe_warn many ≡ ok t → Kept s t
    kept true t e = warn_client_keeps _ _ m.emitter s t e
    kept false t e = ground (arith, e)
