-- ===== src/Commands/Mode/Members.antt =====
-- MODE and the members of channels.
use mathlib.Core.Option
use ft_irc_duck.Base.{
  ℕ, Bool, true, false, Option, some, ◌≡◌, refl, ◌∙◌, ap, arith, inl, inr, ok, >>=-eq-ok,
  if◌then◌else◌, Option-cases, Bool-cases, ==_iff, is_empty, [], ◌∷◌,
}
use ft_irc_duck.Text.{Text, text_eq}
use ft_irc_duck.Text.Equality.{text_eq_iff}
use ft_irc_duck.Map.{lookup, insert, fd_key, text_key}
use ft_irc_duck.Map.Laws.{lookup-insert}
use ft_irc_duck.Message.{Message}
use ft_irc_duck.Channel.{Channel, Status}
use ft_irc_duck.Server.{Env, Server, post}
use ft_irc_duck.Membership.Leaving.{membership}
use ft_irc_duck.Commands.Mode.Flags.{FlagStatus, unchanged, add, Modes}
use ft_irc_duck.Commands.Mode.Changes.{
  channel_i, channel_t, warn, change_key, channel_k, nobody_named, operator_named, switch_chanop,
  give_operator, take_operator, refuse_operator, find_in_channel, change_operator, channel_o,
}
use ft_irc_duck.Commands.Mode.Limit.{change_limit, drop_limit, channel_l}
use ft_irc_duck.Commands.Mode.{apply_channel, mode}
use ft_irc_duck.Commands.Mode.Effect.{mode-Effect}
use ft_irc_duck.Commands.Mode.Keeping.{Kept, Kept-trans}

-- The same members; the clients and channels of the server stay.
pub record KeepsMembers (c c' : Channel) (s s' : Server) : Type 0 where
  pub members : (j : ℕ) → membership j c'.clients ≡ membership j c.clients
  pub kept : Kept s s'

same_clients :
    (c c' : Channel) (s s' : Server) → c'.clients ≡ c.clients → Kept s s' → KeepsMembers c c' s s'
same_clients c c' s s' e f = record { members = λ j. rw e refl; kept = f }

KeepsMembers-trans :
    {c d e : Channel} {s t u : Server}
    → KeepsMembers c d s t
    → KeepsMembers d e t u
    → KeepsMembers c e s u
KeepsMembers-trans {s = s} {t = t} {u = u} k l = record {
  members = λ j. l.members j ∙ k.members j;
  kept = Kept-trans s t u k.kept l.kept;
}

channel_i-clients : (md : Modes) (c : Channel) → (channel_i md c).1.clients ≡ c.clients
unfolding channel_i
channel_i-clients md c = refl

channel_t-clients : (md : Modes) (c : Channel) → (channel_t md c).1.clients ≡ c.clients
unfolding channel_t
channel_t-clients md c = refl

channel_k_keeps :
    (m : Message) (md md' : Modes) (c c' : Channel) (s s' : Server)
    → channel_k m md c s ≡ ok (md', c', s')
    → (c'.clients ≡ c.clients) × Kept s s'
unfolding channel_k warn post change_key
channel_k_keeps m md md' c c' s s' h = ground arith

channel_l_keeps :
    (m : Message) (md md' : Modes) (c c' : Channel) (s s' : Server)
    → channel_l m md c s ≡ ok (md', c', s')
    → (c'.clients ≡ c.clients) × Kept s s'
unfolding channel_l warn post change_limit drop_limit
channel_l_keeps m md md' c c' s s' h = ground arith

membership-insert :
    (fd j : ℕ) (st new : Status) (c : Channel)
    → lookup fd c.clients ≡ some st
    → new.is_member ≡ st.is_member
    → membership j (insert fd new c.clients) ≡ membership j c.clients
membership-insert fd j st new c e same =
    ground (arith, lookup-insert fd j new c.clients, ==_iff fd j, e, same)

find_in_channel-lookup :
    (param : Text) (c : Channel) (s : Server) (fd : ℕ) (st : Status)
    → find_in_channel param c s ≡ some (fd, st)
    → lookup fd c.clients ≡ some st
unfolding find_in_channel
find_in_channel-lookup param c s fd st h = ground arith

give_operator_keeps :
    (fd : ℕ) (st : Status) (md md' : Modes) (c c' : Channel) (s s' : Server)
    → lookup fd c.clients ≡ some st
    → give_operator fd st md c s ≡ ok (md', c', s')
    → KeepsMembers c c' s s'
unfolding give_operator post
give_operator_keeps fd st md md' c c' s s' e h = record {
  members =
      λ j. ground (arith, h, membership-insert fd j st (record st { chanop = true }) c e refl);
  kept = ground (arith, h);
}

change_operator_keeps :
    (f : FlagStatus) (fd : ℕ) (st : Status) (md md' : Modes) (c c' : Channel) (s s' : Server)
    → lookup fd c.clients ≡ some st
    → change_operator f fd st md c s ≡ ok (md', c', s')
    → KeepsMembers c c' s s'
unfolding change_operator take_operator
change_operator_keeps unchanged fd st md md' c c' s s' e h =
    same_clients c c' s s' (ground (arith, h)) (ground (arith, h))
change_operator_keeps add fd st md md' c c' s s' e h =
    give_operator_keeps fd st md md' c c' s s' e h
change_operator_keeps FlagStatus.remove fd st md md' c c' s s' e h = record {
  members =
      λ j. ground (arith, h, membership-insert fd j st (record st { chanop = false }) c e refl);
  kept = ground (arith, h);
}

refuse_operator_keeps :
    (param : Text) (m : Message) (md md' : Modes) (c c' : Channel) (s s' : Server)
    → refuse_operator param m md c s ≡ ok (md', c', s')
    → KeepsMembers c c' s s'
unfolding refuse_operator post
refuse_operator_keeps param m md md' c c' s s' h =
    same_clients c c' s s' (ground (arith, h)) (ground (arith, h))

nobody_named_keeps :
    (m : Message) (md md' : Modes) (c c' : Channel) (s s' : Server)
    → nobody_named m md c s ≡ ok (md', c', s')
    → KeepsMembers c c' s s'
unfolding nobody_named warn post
nobody_named_keeps m md md' c c' s s' h =
    same_clients c c' s s' (ground (arith, h)) (ground (arith, h))

operator_named_keeps :
    (f : FlagStatus) (param : Text) (m : Message) (md md' : Modes) (c c' : Channel) (s s' : Server)
    → operator_named f param m md c s ≡ ok (md', c', s')
    → KeepsMembers c c' s s'
unfolding operator_named
operator_named_keeps f param m md md' c c' s s' h =
    elim (Option-cases (find_in_channel param c s)) [
      | inl e ↦ refuse_operator_keeps param m md md' c c' s s' (rw (e, operator_named) at h)
      | inr ((fd, st), e) ↦
          change_operator_keeps f fd st md md' c c' s s' (find_in_channel-lookup param c s fd st e)
            (rw (e, operator_named) at h)
    ]

given_keeps :
    (f : FlagStatus) (param : Text) (m : Message) (md md' : Modes) (c c' : Channel) (s s' : Server)
    → (if is_empty param then nobody_named m md c s else operator_named f param m md c s)
      ≡ ok (md', c', s')
    → KeepsMembers c c' s s'
given_keeps f [] m md md' c c' s s' h = nobody_named_keeps m md md' c c' s s' h
given_keeps f (x ∷ xs) m md md' c c' s s' h = operator_named_keeps f (x ∷ xs) m md md' c c' s s' h

switch_chanop_keeps :
    (f : FlagStatus) (m : Message) (md md' : Modes) (c c' : Channel) (s s' : Server)
    → switch_chanop f m md c s ≡ ok (md', c', s')
    → KeepsMembers c c' s s'
unfolding switch_chanop
switch_chanop_keeps unchanged m md md' c c' s s' h =
    same_clients c c' s s' (ground (arith, h)) (ground (arith, h))
switch_chanop_keeps add m md md' c c' s s' h = given_keeps add _ m md md' c c' s s' h
switch_chanop_keeps FlagStatus.remove m md md' c c' s s' h =
    given_keeps FlagStatus.remove _ m md md' c c' s s' h

pub apply_channel_keeps :
    (m : Message) (md md' : Modes) (c c' : Channel) (s s' : Server)
    → apply_channel m md c s ≡ ok (md', c', s')
    → KeepsMembers c c' s s'
unfolding apply_channel channel_o
apply_channel_keeps m md md' c c' s s' h =
    let two = channel_t (channel_i md c).0 (channel_i md c).1 in
    let ((md3, c3, s3), e, f) = >>=-eq-ok (channel_k m two.0 two.1 s) _ h in
    let ((md4, c4, s4), g, k) = >>=-eq-ok (channel_o m md3 c3 s3) _ f in
    let kept3 = channel_k_keeps m two.0 md3 two.1 c3 s s3 e in
    let kept5 = channel_l_keeps m md4 md' c4 c' s4 s' k in
    KeepsMembers-trans
      (same_clients c c3 s s3
        (kept3.0 ∙ channel_t-clients (channel_i md c).0 (channel_i md c).1 ∙ channel_i-clients md c)
        kept3.1)
      (KeepsMembers-trans (switch_chanop_keeps _ m md3 md4 c3 c4 s3 s4 g)
        (same_clients c4 c' s4 s' kept5.0 kept5.1))

-- Who is a member of the channel of a name.
abbrev pub membership_in : Text → ℕ → Server → Option Bool
membership_in name j s =
    Option.bind (lookup name s.channel_list) λ (c : Channel). membership j c.clients

membership_in-insert :
    (name key : Text) (j : ℕ) (c c' : Channel) (s s' : Server)
    → s'.channel_list ≡ insert key c' s.channel_list
    → lookup key s.channel_list ≡ some c
    → membership j c'.clients ≡ membership j c.clients
    → membership_in name j s' ≡ membership_in name j s
unfolding Option.bind
membership_in-insert name key j c c' s s' stored found same =
    ap (λ l. Option.bind (lookup name l) λ (d : Channel). membership j d.clients) stored
    ∙ elim (Bool-cases (text_eq key name)) [
      | inl e ↦ rw (lookup-insert, e, same) (rw (← (text_eq_iff key name).0 e, found) refl)
      | inr e ↦ rw (lookup-insert, e) refl
    ]

-- MODE that returns lets nobody into a channel and takes nobody out, whoever sends it and whatever
-- it says: everyone's membership of every channel stays.
pub mode_keeps_members :
    (env : Env) (s s' : Server) (m m' : Message) (name : Text) (j : ℕ)
    → mode env s m ≡ ok (s', m')
    → membership_in name j s' ≡ membership_in name j s
mode_keeps_members env s s' m m' name j h = elim (mode-Effect env s s' m m' h) [
  | inl same ↦ ap (λ l. Option.bind (lookup name l) λ (c : Channel). membership j c.clients) same
  | inr d ↦
      let k =
        apply_channel_keeps d.message d.modes d.modes' d.channel d.changed d.before d.after
          d.applied in
      membership_in-insert name d.name j d.channel d.changed s s'
        (d.stored ∙ ap (insert d.name d.changed) (k.kept.1 ∙ d.read)) d.found (k.members j)
]
