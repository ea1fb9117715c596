-- ===== src/Commands/Join/Announcing.antt =====
-- Join::new_chan_member_sucess, which tells a new member and the others of a channel.
use ft_irc_duck.Base.{
  ℕ, suc, ◌+◌, ◌≤◌, ◌<◌, Bool, true, false, List, [], ◌∷◌, ◌++◌, ◌≡◌, refl, ◌∙◌, ap, arith, length,
  All, ok, fault, end_iterator, Bool-cases, inl, inr, if◌then◌else◌, Outcome, Outcome-cases,
}
use ft_irc_duck.Text.{Text, codes, has}
use ft_irc_duck.Map.{Map, fd_key}
use ft_irc_duck.Reply.{template, rpl_join, rpl_endofnames}
use ft_irc_duck.Reply.Shape.{render_shape}
use ft_irc_duck.Client.{Client}
use ft_irc_duck.Channel.{Channel, Status}
use ft_irc_duck.Message.{Message, from_client, reply_format_all}
use ft_irc_duck.Message.Replace.{IsClean, IsClean-append}
use ft_irc_duck.Message.Format.{IsSenderClean, all_filled, reply_format_all-filled}
use ft_irc_duck.Message.Short.{reply_format_all_short}
use ft_irc_duck.Message.Returns.{reply_format_returns_clean}
use ft_irc_duck.Membership.Returning.{AreKnown}
use ft_irc_duck.Server.{Server, client_at}
use ft_irc_duck.Commands.Join.{member_names, topic_replies, new_chan_member_success}
use ft_irc_duck.Commands.Join.Quoting.{
  IsChannelClean, all_shapes, all_values, all_shapes-slots, length-all_values, all_values-clean,
  all_shapes-well, all_shapes-templates,
}
use ft_irc_duck.Commands.Join.Names.{names_shape, curly_names}

-- How many clients of the map are members.
abbrev pub members : Map ℕ Status → ℕ
members [] = 0
members ((fd, st) ∷ m) = (if st.is_member then 1 else 0) + members m

pub members-le : (m : Map ℕ Status) → members m ≤ length m
members-le [] = omega arith
members-le ((fd, st) ∷ m) = ground (arith, members-le m)

at_sign : IsClean (codes "@")
unfolding has
at_sign = record { no_open = refl; no_close = refl }

nick_clean : (op : Bool) (nick : Text) → IsClean nick → IsClean (if op then b'@' ∷ nick else nick)
nick_clean true nick c = IsClean-append (codes "@") nick at_sign c
nick_clean false nick c = c

-- The names of a channel's members are found, and hold no angle bracket.
member_names_known :
    (s : Server) (m : Map ℕ Status)
    → AreKnown m s
    → (names : List Text) × (member_names s m ≡ ok names)
      × All IsClean names
      × (length names ≡ members m)
unfolding member_names client_at from_client
member_names_known s [] known = ([], refl, tt, omega arith)
member_names_known s ((fd, st) ∷ m) known =
    let (names, e, clean, n) = member_names_known s m known.1 in
    elim (Bool-cases st.is_member) [
      | inl h ↦ (
        (if st.chanop then b'@' ∷ known.0.client.nickname else known.0.client.nickname) ∷ names,
        ground (arith, h, known.0.found, e),
        (nick_clean st.chanop known.0.client.nickname known.0.clean.nick_clean, clean),
        rw h (omega (arith, n)),
      )
      | inr h ↦ (names, ground (arith, h, e), clean, rw h (omega (arith, n)))
    ]

module _ (name : Text) (c : Channel) (cl : Client) (fd : ℕ) (s : Server) (more : ℕ)
    (size : length c.clients ≡ suc more) (quoted : IsChannelClean name c)
    (known : AreKnown c.clients s) (clean : IsSenderClean (from_client cl)) where
  abbrev written : List Text → Outcome Message
  written names =
      reply_format_all (from_client cl)
        (template rpl_join
          ∷ (topic_replies c ++ (render_shape (names_shape more) ∷ template rpl_endofnames ∷ [])))
        (all_values name c names)

  written_whole :
      (names : List Text)
      → All IsClean names
      → length names ≡ suc more
      → (m : Message) × (written names ≡ ok m)
  written_whole names cn n = (
    record (from_client cl) {
      target = (from_client cl).emitter ∷ [];
      text = all_filled (from_client cl) (all_shapes c more) (all_values name c names);
    },
    ap (λ (ts : List Text). reply_format_all (from_client cl) ts (all_values name c names))
          (all_shapes-templates c more)
        ∙ reply_format_all-filled (from_client cl) (all_shapes c more) (all_values name c names)
            clean (all_shapes-well c more) (all_values-clean name c names quoted cn)
            (omega (arith, all_shapes-slots name c more, length-all_values name c names)),
  )

  written_short :
      (names : List Text)
      → All IsClean names
      → length names < suc more
      → written names ≡ fault end_iterator
  written_short names cn n =
      ap (λ (ts : List Text). reply_format_all (from_client cl) ts (all_values name c names))
        (all_shapes-templates c more)
      ∙ reply_format_all_short (from_client cl) (all_shapes c more) (all_values name c names) clean
          (all_shapes-well c more) (all_values-clean name c names quoted cn)
          (omega (arith, all_shapes-slots name c more, length-all_values name c names))

  -- Where all clients of the channel are members, they are told.
  pub new_chan_member_success_returns :
      members c.clients ≡ length c.clients
      → (s' : Server) × (new_chan_member_success name c cl fd s ≡ ok s')
  unfolding new_chan_member_success
  new_chan_member_success_returns all =
      let (names, e, cn, n) = member_names_known s c.clients known in
      let (u, w) = reply_format_returns_clean (from_client cl) rpl_join name s.socket_id clean in
      let (m, q) = written_whole names cn (omega (arith, n, size, all)) in
      elim (Outcome-cases (new_chan_member_success name c cl fd s)) [
        | inl r ↦ r
        | inr (f, h) ↦ absurd (let h' = rw (w, size, curly_names more, e, q) at h in cc)
      ]

  -- With a client that is no member in the channel's map, the list has more slots than names, and
  -- writing it reads behind the last value.
  pub new_chan_member_success_short :
      members c.clients < length c.clients
      → new_chan_member_success name c cl fd s ≡ fault end_iterator
  unfolding new_chan_member_success
  new_chan_member_success_short some_not =
      let (names, e, cn, n) = member_names_known s c.clients known in
      let (u, w) = reply_format_returns_clean (from_client cl) rpl_join name s.socket_id clean in
      rw (w, size, curly_names more, e, written_short names cn (omega (arith, n, size))) refl
