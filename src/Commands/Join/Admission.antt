-- ===== src/Commands/Join/Admission.antt =====
-- Who may enter a channel that is there.
use ft_irc_duck.Base.{
  ℕ, ◌<◌, true, false, Option, none, some, List, [], ◌∷◌, ◌≡◌, ◌⊎◌, inl, inr, arith, ok,
  Option-cases, Outcome-cases, length,
}
use ft_irc_duck.Text.{Text}
use ft_irc_duck.Text.Equality.{text_eq_iff}
use ft_irc_duck.Map.{lookup, insert, fd_key, text_key}
use ft_irc_duck.Map.Laws.{lookup-insert_self}
use ft_irc_duck.Client.{Client}
use ft_irc_duck.Channel.{Channel, Status, plain_member}
use ft_irc_duck.Server.{Env, Server, post, set_channel}
use ft_irc_duck.Membership.{status_of}
use ft_irc_duck.Commands.Join.{
  Refusal, new_chan_member_success, refusal, enter, join_check_existing_chan, is_key_wrong,
}

-- What a client needs to enter: room, the key, and an invitation where the channel asks for one.
abbrev HasRoom : Channel → Option ℕ → Type 0
HasRoom c none = Unit
HasRoom c (some limit) = length c.clients < limit

abbrev HasKey : List Text → Channel → Type 0
HasKey [] c = c.key ≡ []
HasKey (k ∷ keys) c = (c.key ≡ []) ⊎ (c.key ≡ k)

pub record MayEnter (keys : List Text) (st : Status) (c : Channel) : Type 0 where
  pub room : HasRoom c c.member_limit
  pub key : HasKey keys c
  pub door : (c.is_invite_only ≡ false) ⊎ (st.invited ≡ true)

has_key : (keys : List Text) (c : Channel) → is_key_wrong keys c ≡ false → HasKey keys c
has_key [] c h = ground (arith, h)
has_key (k ∷ keys) c h = ground (arith, h, text_eq_iff c.key k)

key_right : (keys : List Text) (c : Channel) → HasKey keys c → is_key_wrong keys c ≡ false
key_right [] c h = ground (arith, h)
key_right (k ∷ keys) c h = ground (arith, h, text_eq_iff c.key k)

refusal-none :
    (keys : List Text) (st : Status) (c : Channel) → refusal keys st c ≡ none → MayEnter keys st c
unfolding refusal
refusal-none keys st c h = record {
  room = ground (arith, h);
  key = has_key keys c (ground (arith, h));
  door = ground (arith, h);
}

pub may_enter :
    (keys : List Text) (st : Status) (c : Channel) → MayEnter keys st c → refusal keys st c ≡ none
unfolding refusal
may_enter keys st c e = ground (arith, key_right keys c e.key, e.room, e.door)

channels_success :
    (name : Text) (c : Channel) (cl : Client) (fd : ℕ) (s s' : Server)
    → new_chan_member_success name c cl fd s ≡ ok s'
    → s'.channel_list ≡ s.channel_list
unfolding new_chan_member_success post
channels_success name c cl fd s s' h = ground arith

enter_inserts :
    (env : Env) (fd : ℕ) (c c' : Channel)
    → enter env fd c ≡ ok c'
    → c' ≡ record c { clients = insert fd plain_member c.clients }
unfolding enter
enter_inserts env fd c c' h = ground (arith, h)

-- Where the check returns, a client that is no member comes into an existing channel, as a plain
-- member, exactly if there is room, it gives the key of a channel that has one, and it is invited where that is asked for;
-- otherwise no channel changes.
pub join_check_existing_chan_admits :
    (env : Env) (keys : List Text) (name : Text) (c : Channel) (cl : Client) (fd : ℕ)
    (s s' : Server)
    → (status_of env fd c.clients).is_member ≡ false
    → join_check_existing_chan env keys name c cl fd s ≡ ok s'
    → (MayEnter keys (status_of env fd c.clients) c
        → lookup name s'.channel_list
          ≡ some (record c { clients = insert fd plain_member c.clients }))
      × (¬ MayEnter keys (status_of env fd c.clients) c → s'.channel_list ≡ s.channel_list)
unfolding join_check_existing_chan set_channel post
join_check_existing_chan_admits env keys name c cl fd s s' out h =
    elim (Option-cases (refusal keys (status_of env fd c.clients) c)) [
      | inl e ↦
          (λ _. entered e, λ no. absurd (no (refusal-none keys (status_of env fd c.clients) c e)))
      | inr (r, e) ↦ (λ may. absurd (refused r e may), λ _. ground (arith, out, e, h))
    ]
  where
    refused :
        (r : Refusal)
        → refusal keys (status_of env fd c.clients) c ≡ some r
        → MayEnter keys (status_of env fd c.clients) c
        → ⊥
    refused r e may = cc (e, may_enter keys (status_of env fd c.clients) c may)

    entered :
        refusal keys (status_of env fd c.clients) c ≡ none
        → lookup name s'.channel_list
          ≡ some (record c { clients = insert fd plain_member c.clients })
    entered e = elim (Outcome-cases (enter env fd c)) [
      | inl (c', q) ↦ ground (
        arith,
        out,
        e,
        h,
        q,
        enter_inserts env fd c c' q,
        channels_success c.name c' cl fd (set_channel name c' s) s',
        lookup-insert_self name c' s.channel_list,
      )
      | inr (f, q) ↦ ground (arith, out, e, h, q)
    ]
