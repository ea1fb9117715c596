-- ===== src/Commands/Clients/Channels.antt =====
-- KICK, PART and JOIN, and the clients of the server.
use ft_irc_duck.Base.{
  ℕ, suc, none, some, List, [], ◌∷◌, ◌≡◌, ◌∙◌, arith, inl, inr, Outcome, ok, >>=-eq-ok,
  Option-cases, Bool-cases, Outcome-cases, take, drop, is_empty,
}
use ft_irc_duck.Text.{Text, codes, find, text_eq}
use ft_irc_duck.Map.{lookup, fd_key, text_key}
use ft_irc_duck.Reply.{template, rpl_kick, err_nosuchchannel}
use ft_irc_duck.Client.{Client}
use ft_irc_duck.Channel.{Channel, new_channel}
use ft_irc_duck.Message.{Message, from_client, reply_format_all}
use ft_irc_duck.Server.{Env, Server, post, client_at, set_channel, get_channel_by_name}
use ft_irc_duck.Membership.{leave}
use ft_irc_duck.Commands.Info.{answer}
use ft_irc_duck.Commands.Kick.{
  kick_one, kick_targets_if_member, kick_if_allowed, kick, member_named, register_comment,
  return_kick_target,
}
use ft_irc_duck.Commands.Part.{success_behaviour, part_one, part_all, part}
use ft_irc_duck.Commands.Join.{
  new_chan_member_success, join_create_channel, join_check_existing_chan, join_one, join_channel,
  special_argument, own_channels, join, enter,
}
use ft_irc_duck.Commands.Clients.{SameClients, answer-SameClients, leave-SameClients}

kick_one_clients :
    (comment target : Text) (fd : ℕ) (c c' : Channel) (s s' : Server)
    → kick_one comment target fd c s ≡ ok (c', s')
    → SameClients s s'
unfolding kick_one post
kick_one_clients comment target fd c c' s s' h =
    let (issuer, e, f) = >>=-eq-ok (client_at s fd) _ h in
    elim (Option-cases (member_named target c s)) [
      | inl q ↦ ground (arith, f, q)
      | inr (j, q) ↦
          let (reply, d, g) = >>=-eq-ok (told issuer) _ (rw q at f) in
          let ((l, t), a, b) = >>=-eq-ok (leave j c s) _ g in
          ground (arith, b, leave-SameClients j c l s t a)
    ]
  where
    told : Client → Outcome Message
    told issuer =
        reply_format_all (from_client issuer) (template rpl_kick ∷ [])
          (c.name ∷ target ∷ comment ∷ [])

kick_targets_clients :
    (comment : Text) (targets : List Text) (fd : ℕ) (c c' : Channel) (s s' : Server)
    → kick_targets_if_member comment targets fd c s ≡ ok (c', s')
    → SameClients s s'
unfolding kick_targets_if_member
kick_targets_clients comment [] fd c c' s s' h = ground arith
kick_targets_clients comment (target ∷ targets) fd c c' s s' h =
    let ((l, t), e, f) = >>=-eq-ok (kick_one comment target fd c s) _ h in
    kick_targets_clients comment targets fd l c' t s' f
    ∙ kick_one_clients comment target fd c l s t e

kick_if_allowed_clients :
    (name : Text) (c : Channel) (s s' : Server) (m m' : Message)
    → kick_if_allowed name c s m ≡ ok (s', m')
    → SameClients s s'
unfolding kick_if_allowed set_channel
kick_if_allowed_clients name c s s' m m' h = elim (Option-cases (lookup m.emitter c.clients)) [
  | inl e ↦ answer-SameClients _ c.name s s' m m' (rw (e, kick_if_allowed) at h)
  | inr (st, e) ↦ elim (Bool-cases st.chanop) [
    | inr q ↦ answer-SameClients _ c.name s s' m m' (rw (e, kick_if_allowed, q) at h)
    | inl q ↦
        let ((comment, rest), a, b) =
          >>=-eq-ok (register_comment m.cmd_param) _ (rw (e, kick_if_allowed, q) at h) in
        let ((l, t), d, f) =
          >>=-eq-ok (kick_targets_if_member comment (return_kick_target rest).0 m.emitter c s) _
            b in
        ground
          (arith, f, kick_targets_clients comment (return_kick_target rest).0 m.emitter c l s t d)
  ]
]

pub kick-SameClients : (s s' : Server) (m m' : Message) → kick s m ≡ ok (s', m') → SameClients s s'
unfolding kick
kick-SameClients s s' m m' h = elim (Option-cases (find b' ' m.cmd_param)) [
  | inl e ↦ answer-SameClients _ m.cmd s s' m m' (rw (e, kick) at h)
  | inr (i, e) ↦ named i (rw (e, kick) at h)
]
  where
    params : ℕ → Message
    params i = record m { cmd_param = drop (suc i) m.cmd_param }

    named :
        (i : ℕ)
        → (elim (get_channel_by_name s (take i m.cmd_param)) [
          | none ↦ answer err_nosuchchannel (take i m.cmd_param) s (params i)
          | some c ↦ kick_if_allowed (take i m.cmd_param) c s (params i)
        ])
          ≡ ok (s', m')
        → SameClients s s'
    named i k = elim (Option-cases (get_channel_by_name s (take i m.cmd_param))) [
      | inl f ↦ answer-SameClients _ (take i m.cmd_param) s s' (params i) m' (rw f at k)
      | inr (c, f) ↦ kick_if_allowed_clients (take i m.cmd_param) c s s' (params i) m' (rw f at k)
    ]

success_clients :
    (name reason : Text) (c : Channel) (cl : Client) (fd : ℕ) (s s' : Server)
    → success_behaviour name reason c cl fd s ≡ ok s'
    → SameClients s s'
unfolding success_behaviour set_channel post
success_clients name reason c cl fd s s' h =
    let ((l, t), q, r) = >>=-eq-ok (leave fd c s) _ h in
    ground (arith, r, leave-SameClients fd c l s t q)

join_success_clients :
    (name : Text) (c : Channel) (cl : Client) (fd : ℕ) (s s' : Server)
    → new_chan_member_success name c cl fd s ≡ ok s'
    → SameClients s s'
unfolding new_chan_member_success post
join_success_clients name c cl fd s s' h = ground arith

part_one_clients :
    (reason name : Text) (cl : Client) (fd : ℕ) (s s' : Server)
    → part_one reason name cl fd s ≡ ok s'
    → SameClients s s'
unfolding part_one post
part_one_clients reason name cl fd s s' h = elim (Option-cases (get_channel_by_name s name)) [
  | inl e ↦ ground (arith, e, h)
  | inr (c, e) ↦ ground (arith, e, h, success_clients name reason c cl fd s s')
]

part_all_clients :
    (reason : Text) (names : List Text) (cl : Client) (fd : ℕ) (s s' : Server)
    → part_all reason names cl fd s ≡ ok s'
    → SameClients s s'
unfolding part_all
part_all_clients reason [] cl fd s s' h = ground arith
part_all_clients reason (name ∷ names) cl fd s s' h =
    let (t, e, f) = >>=-eq-ok (part_one reason name cl fd s) _ h in
    part_all_clients reason names cl fd t s' f ∙ part_one_clients reason name cl fd s t e

pub part-SameClients : (s s' : Server) (m m' : Message) → part s m ≡ ok (s', m') → SameClients s s'
unfolding part
part-SameClients s s' m m' h =
    let (cl, e, f) = >>=-eq-ok (client_at s m.emitter) _ h in
    let (t, g, k) = >>=-eq-ok (part_all _ _ cl m.emitter s) _ f in
    ground (arith, k, part_all_clients _ _ cl m.emitter s t g)

join_existing_clients :
    (env : Env) (keys : List Text) (name : Text) (c : Channel) (cl : Client) (fd : ℕ)
    (s s' : Server)
    → join_check_existing_chan env keys name c cl fd s ≡ ok s'
    → SameClients s s'
unfolding join_check_existing_chan set_channel post
join_existing_clients env keys name c cl fd s s' h = elim (Outcome-cases (enter env fd c)) [
  | inr (f, e) ↦ ground (arith, e, h)
  | inl (c', e) ↦
      ground (arith, e, h, join_success_clients c.name c' cl fd (set_channel name c' s) s')
]

join_one_clients :
    (env : Env) (keys : List Text) (name : Text) (cl : Client) (fd : ℕ) (s s' : Server)
    → join_one env keys name cl fd s ≡ ok s'
    → SameClients s s'
unfolding join_one join_create_channel set_channel post
join_one_clients env keys name cl fd s s' h = elim (Option-cases (lookup name s.channel_list)) [
  | inl e ↦ ground (
    arith,
    e,
    h,
    join_success_clients name (new_channel fd name) cl fd (set_channel name (new_channel fd name) s)
        s',
  )
  | inr (c, e) ↦ ground (arith, e, h, join_existing_clients env keys name c cl fd s s')
]

join_channel_clients :
    (env : Env) (keys names : List Text) (cl : Client) (fd : ℕ) (s s' : Server)
    → join_channel env keys names cl fd s ≡ ok s'
    → SameClients s s'
unfolding join_channel
join_channel_clients env keys [] cl fd s s' h = ground arith
join_channel_clients env keys (name ∷ names) cl fd s s' h =
    let (t, e, f) = >>=-eq-ok (join_one env keys name cl fd s) _ h in
    join_channel_clients env (drop 1 keys) names cl fd t s' f
    ∙ join_one_clients env keys name cl fd s t e

special_clients :
    (s s' : Server) (m m' : Message) → special_argument s m ≡ ok (s', m') → SameClients s s'
unfolding special_argument
special_clients s s' m m' h = elim (Bool-cases (is_empty names)) [
  | inl e ↦ ground (arith, e, h)
  | inr e ↦ part-SameClients s s' (record m { cmd_param = names }) m' (ground (arith, e, h))
]
  where
    names : Text
    names = own_channels m.emitter s.channel_list []

pub join-SameClients :
    (env : Env) (s s' : Server) (m m' : Message) → join env s m ≡ ok (s', m') → SameClients s s'
unfolding join
join-SameClients env s s' m m' h = elim (Bool-cases (text_eq m.cmd_param (codes "0"))) [
  | inl e ↦ special_clients s s' m m' (rw (e, join) at h)
  | inr e ↦
      let (cl, f, g) = >>=-eq-ok (client_at s m.emitter) _ (rw (e, join) at h) in
      let (t, k, l) = >>=-eq-ok (join_channel env _ _ cl m.emitter s) _ g in
      ground (arith, l, join_channel_clients env _ _ cl m.emitter s t k)
]
