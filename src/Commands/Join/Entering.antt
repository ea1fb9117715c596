-- ===== src/Commands/Join/Entering.antt =====
-- A client that may enter a channel, and those who stand in the channel's map.
use ft_irc_duck.Base.{
  ℕ, suc, ◌<◌, true, false, some, List, [], ◌∷◌, ◌≡◌, ◌≢◌, ◌⊎◌, inl, inr, refl, ◌∙◌, arith, length,
  All, ◌-◌, ok, fault, end_iterator, Bool-cases, ==_iff, ltb, ◌==◌,
}
use ft_irc_duck.Text.{Text}
use ft_irc_duck.Map.{Map, Rises, lookup, insert, fd_key, text_key}
use ft_irc_duck.Map.Laws.{lookup-insert}
use ft_irc_duck.Client.{Client}
use ft_irc_duck.Channel.{Channel, Status, plain_member}
use ft_irc_duck.Message.{from_client}
use ft_irc_duck.Message.Format.{IsSenderClean}
use ft_irc_duck.Membership.{status_of}
use ft_irc_duck.Membership.Returning.{IsKnown, AreKnown, lookup-IsKnown}
use ft_irc_duck.Server.{Env, Server, set_channel}
use ft_irc_duck.Commands.Join.{enter, new_chan_member_success, join_check_existing_chan}
use ft_irc_duck.Commands.Join.Admission.{MayEnter, may_enter, join_check_existing_chan_admits}
use ft_irc_duck.Commands.Join.Quoting.{IsChannelClean}
use ft_irc_duck.Commands.Join.Announcing.{
  members, members-le, new_chan_member_success_returns, new_chan_member_success_short,
}

-- All clients of the map but one are members.
abbrev pub AreMembersBut : ℕ → Map ℕ Status → Type 0
AreMembersBut fd = All λ (entry : ℕ × Status). (entry.0 ≡ fd) ⊎ (entry.1.is_member ≡ true)

members_below :
    (b fd : ℕ) (m : Map ℕ Status) → Rises b m → fd < b → AreMembersBut fd m → members m ≡ length m
members_below b fd [] r h ms = refl
members_below b fd ((j, st) ∷ m) r h ms =
    ground (arith, members_below (suc j) fd m r.1 (omega arith) ms.1, ms.0)

members-insert :
    (b fd : ℕ) (m : Map ℕ Status)
    → Rises b m
    → AreMembersBut fd m
    → members (insert fd plain_member m) ≡ length (insert fd plain_member m)
unfolding insert
members-insert b fd [] r ms = omega arith
members-insert b fd ((j, st) ∷ m) r ms =
    ground (arith, members-insert (suc j) fd m r.1 ms.1, members_below (suc j) fd m r.1, ms.0)

-- One client that is no member is enough.
members-lt :
    (j : ℕ) (st : Status) (m : Map ℕ Status)
    → lookup j m ≡ some st
    → st.is_member ≡ false
    → members m < length m
unfolding lookup
members-lt j st [] e h = cc
members-lt j st ((i, w) ∷ m) e h = ground (arith, members-lt j st m, members-le m)

same-IsKnown : (s t : Server) (j : ℕ) → t.client_list ≡ s.client_list → IsKnown s j → IsKnown t j
same-IsKnown s t j e k = record { client = k.client; found = rw e k.found; clean = k.clean }

same-AreKnown :
    (s t : Server) (m : Map ℕ Status) → t.client_list ≡ s.client_list → AreKnown m s → AreKnown m t
same-AreKnown s t [] e ks = tt
same-AreKnown s t ((j, w) ∷ m) e ks = (same-IsKnown s t j e ks.0, same-AreKnown s t m e ks.1)

insert-AreKnown :
    (s : Server) (fd : ℕ) (st : Status) (m : Map ℕ Status)
    → IsKnown s fd
    → AreKnown m s
    → AreKnown (insert fd st m) s
unfolding insert
insert-AreKnown s fd st [] k ks = (k, tt)
insert-AreKnown s fd st ((j, w) ∷ m) k ks = elim (Bool-cases (j == fd)) [
  | inl e ↦ rw e (k, ks.1)
  | inr e ↦ elim (Bool-cases (ltb fd j)) [
    | inl f ↦ rw (e, f) (k, ks)
    | inr f ↦ rw (e, f) (ks.0, insert-AreKnown s fd st m k ks.1)
  ]
]

insert_not_empty : (fd : ℕ) (st : Status) (m : Map ℕ Status) → 0 < length (insert fd st m)
unfolding insert
insert_not_empty fd st [] = omega arith
insert_not_empty fd st ((j, w) ∷ m) = ground arith

module _ (env : Env) (keys : List Text) (name : Text) (c : Channel) (cl : Client) (fd : ℕ)
    (s : Server) (own_st : Status) (stands : lookup fd c.clients ≡ some own_st)
    (out : own_st.is_member ≡ false) (may : MayEnter keys own_st c)
    (quoted : IsChannelClean c.name c) (known : AreKnown c.clients s)
    (clean : IsSenderClean (from_client cl)) where
  own : IsKnown s fd
  own = lookup-IsKnown c.clients s known fd (λ h. ground (arith, stands, h))

  abbrev entered : Channel
  entered = record c { clients = insert fd plain_member c.clients }

  status_found : status_of env fd c.clients ≡ own_st
  unfolding status_of
  status_found = ground (arith, stands)

  join_check_existing_chan_success :
      join_check_existing_chan env keys name c cl fd s
      ≡ new_chan_member_success c.name entered cl fd (set_channel name entered s)
  unfolding join_check_existing_chan enter
  join_check_existing_chan_success =
      ground (arith, out, status_found, stands, may_enter keys own_st c may)

  entered_known : AreKnown entered.clients (set_channel name entered s)
  unfolding set_channel
  entered_known =
      same-AreKnown s _ entered.clients refl (insert-AreKnown s fd plain_member c.clients own known)

  entered_size : length entered.clients ≡ suc (length entered.clients - 1)
  entered_size = omega (arith, insert_not_empty fd plain_member c.clients)

  entered_quoted : IsChannelClean c.name entered
  entered_quoted = record {
    name_clean = quoted.name_clean;
    topic_clean = quoted.topic_clean;
    author_clean = quoted.author_clean;
    date_clean = quoted.date_clean;
  }

  -- A client that stands in a channel's map without being a member, as one that was invited does, that
  -- may enter the channel, and besides whom the map holds members only, does enter it: the check
  -- returns, and the channel's map, which is sorted, holds the client as a plain member. The server
  -- knows all clients of the map, and no angle bracket is in their names nor in the name, topic, author
  -- and date of the channel.
  pub join_check_existing_chan_enters :
      Rises 0 c.clients
      → AreMembersBut fd c.clients
      → (s' : Server) × (join_check_existing_chan env keys name c cl fd s ≡ ok s')
        × (lookup name s'.channel_list ≡ some entered)
  join_check_existing_chan_enters rises others =
      let (s', e) =
        new_chan_member_success_returns c.name entered cl fd (set_channel name entered s)
          (length entered.clients - 1) entered_size entered_quoted entered_known clean
          (members-insert 0 fd c.clients rises others) in
      let returned = join_check_existing_chan_success ∙ e in
      (
        s',
        returned,
        (join_check_existing_chan_admits env keys name c cl fd s s' (rw status_found out)
              returned).0
            (rw status_found may),
      )

  -- While two clients stand in the channel's map that are no members, as those do that were invited and
  -- have not come, neither can enter, even if it may: the code reads behind the last value. The server
  -- knows all clients of the map, and no angle bracket is in their names nor in the name, topic, author
  -- and date of the channel.
  pub join_check_existing_chan_short :
      (j : ℕ) (st : Status)
      → j ≢ fd
      → lookup j c.clients ≡ some st
      → st.is_member ≡ false
      → join_check_existing_chan env keys name c cl fd s ≡ fault end_iterator
  join_check_existing_chan_short j st other e h =
      join_check_existing_chan_success
      ∙ new_chan_member_success_short c.name entered cl fd (set_channel name entered s)
          (length entered.clients - 1) entered_size entered_quoted entered_known clean
          (members-lt j st entered.clients
            (ground (arith, lookup-insert fd j plain_member c.clients, e, other, ==_iff fd j)) h)
