-- ===== src/Membership/Returning.antt =====
-- Channel::del_client where the server knows every client of the channel.
use ft_irc_duck.Base.{
  ℕ, false, none, some, [], ◌∷◌, ◌≡◌, refl, ◌≢◌, arith, ==_iff, Option-cases, Outcome-cases,
  Bool-cases, All, ◌==◌, inl, inr, ok,
}
use ft_irc_duck.Map.{Map, lookup, insert, fd_key}
use ft_irc_duck.Map.Laws.{lookup-insert}
use ft_irc_duck.Reply.{rpl_yourechanop}
use ft_irc_duck.Message.{from_client}
use ft_irc_duck.Message.Returns.{reply_format_returns_clean}
use ft_irc_duck.Message.Format.{IsSenderClean}
use ft_irc_duck.Channel.{Channel, Status}
use ft_irc_duck.Client.{Client}
use ft_irc_duck.Server.{Server, client_at}
use ft_irc_duck.Membership.{promote_first, assign_next_chanop, lower_member, leave}

-- A client of the server whose names hold no angle bracket.
pub record IsKnown (s : Server) (j : ℕ) : Type 0 where
  pub client : Client
  pub found : lookup j s.client_list ≡ some client
  pub clean : IsSenderClean (from_client client)

abbrev pub AreKnown : Map ℕ Status → Server → Type 0
AreKnown clients s = All (λ (entry : ℕ × Status). IsKnown s entry.0) clients

pub lookup-IsKnown :
    (m : Map ℕ Status) (s : Server) → AreKnown m s → (j : ℕ) → lookup j m ≢ none → IsKnown s j
unfolding lookup
lookup-IsKnown [] s known j h = absurd (h refl)
lookup-IsKnown ((i, st) ∷ m) s known j h = elim (Bool-cases (i == j)) [
  | inl e ↦ rw ((==_iff i j).0 e) at known.0
  | inr e ↦ lookup-IsKnown m s known.1 j (rw e at h)
]

promote_first_known :
    (m : Map ℕ Status) {k : ℕ} {m' : Map ℕ Status}
    → promote_first m ≡ some (k, m')
    → lookup k m ≢ none
unfolding promote_first lookup
promote_first_known [] e = cc
promote_first_known ((j, w) ∷ m) {k} {m'} e = elim (Option-cases (promote_first m)) [
  | inl q ↦ ground (arith, q, ==_iff k k)
  | inr ((k', n), q) ↦ ground (arith, q, ==_iff k k, promote_first_known m {k = k'} {m' = n} q)
]

assign_next_chanop_returns :
    (c : Channel) (s : Server)
    → ((j : ℕ) → lookup j c.clients ≢ none → IsKnown s j)
    → (r : Channel × Server) × (assign_next_chanop c s ≡ ok r)
unfolding assign_next_chanop client_at
assign_next_chanop_returns c s known = elim (Option-cases (promote_first c.clients)) [
  | inl q ↦ ((c, s), rw (q, assign_next_chanop) refl)
  | inr ((k, n), q) ↦
      let kn = known k (promote_first_known c.clients {k = k} {m' = n} q) in
      let (u, w) =
        reply_format_returns_clean (from_client kn.client) rpl_yourechanop c.name s.socket_id
          kn.clean in
      elim (Outcome-cases (assign_next_chanop c s)) [
        | inl r ↦ r
        | inr (f, e) ↦ absurd (ground (arith, q, e, kn.found, w))
      ]
]

insert-IsKnown :
    (fd : ℕ) (st lowered : Status) (m : Map ℕ Status) (s : Server)
    → lookup fd m ≡ some st
    → AreKnown m s
    → (j : ℕ) → lookup j (insert fd lowered m) ≢ none
    → IsKnown s j
insert-IsKnown fd st lowered m s e known j h =
    lookup-IsKnown m s known j (ground (arith, lookup-insert fd j lowered m, ==_iff fd j, e, h))

-- Channel::del_client meets no fault where the server knows the channel's clients.
pub leave_returns :
    (fd : ℕ) (c : Channel) (s : Server)
    → AreKnown c.clients s
    → (r : Channel × Server) × (leave fd c s ≡ ok r)
unfolding leave lower_member
leave_returns fd c s known = elim (Outcome-cases (leave fd c s)) [
  | inl r ↦ r
  | inr (f, e) ↦ absurd (elim (Option-cases (lookup fd c.clients)) [
    | inl q ↦ ground (arith, q, e)
    | inr (st, q) ↦
        let lowered : Status = record st { is_member = false; chanop = false } in
        let start : Channel = record c { clients = insert fd lowered c.clients } in
        let (r, w) =
          assign_next_chanop_returns start s (insert-IsKnown fd st lowered c.clients s q known) in
        ground (arith, q, e, w)
  ])
]
