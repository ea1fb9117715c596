-- ===== src/Membership/Leaving.antt =====
-- Channel::del_client as a whole: membership and operators.
use mathlib.Core.Option
use ft_irc_duck.Base.{
  ◌⊎◌, ℕ, Bool, true, false, Option, none, some, ◌≡◌, refl, ◌≢◌, ◌∙◌, arith, ==_iff, Option-cases,
  Bool-cases, inl, inr, ok, ◌>>=◌, >>=-eq-ok,
}
use ft_irc_duck.Map.{Map, lookup, insert, erase, fd_key, Rises}
use ft_irc_duck.Map.Laws.{
  erase-insert, lookup-insert, lookup-insert_self, lookup-erase, insert-Rises,
}
use ft_irc_duck.Channel.{Channel, Status}
use ft_irc_duck.Server.{Server}
use ft_irc_duck.Membership.{
  any_status, promote_first, has_member, are_there_other_chanops, assign_next_chanop, lower_member,
  leave,
}
use ft_irc_duck.Membership.Returning.{AreKnown, leave_returns}
use ft_irc_duck.Membership.Traversal.{
  any_status-erase, Outsider, promote_first-none, promote_first_chanop, promote_first_member,
}

abbrev pub membership : ℕ → Map ℕ Status → Option Bool
membership j m = Option.map (λ (st : Status). st.is_member) (lookup j m)

-- A successful assign_next_chanop either found nobody or gave the map of `promote_first`.
abbrev Assigned : Option (ℕ × Map ℕ Status) → Map ℕ Status → Map ℕ Status → Type 0
Assigned none m m' = m' ≡ m
Assigned (some (k, n)) m m' = m' ≡ n

assign_next_chanop-Assigned :
    (c c' : Channel) (s s' : Server)
    → assign_next_chanop c s ≡ ok (c', s')
    → Assigned (promote_first c.clients) c.clients c'.clients
unfolding assign_next_chanop
assign_next_chanop-Assigned c c' s s' h = ground arith

Assigned-membership :
    (j : ℕ) (m m' : Map ℕ Status) (o : Option (ℕ × Map ℕ Status))
    → promote_first m ≡ o
    → Assigned o m m'
    → membership j m' ≡ membership j m
Assigned-membership j m m' none e a = rw a
Assigned-membership j m m' (some (k, n)) e a = rw a (promote_first_member j m {k = k} {m' = n} e)

Assigned-chanop :
    (fd : ℕ) (m m' : Map ℕ Status) (o : Option (ℕ × Map ℕ Status))
    → Rises 0 m
    → Outsider (lookup fd m)
    → promote_first m ≡ o
    → Assigned o m m'
    → has_member (erase fd m') ≡ true
    → (has_member m ≡ false → has_member (erase fd m) ≡ false)
    → are_there_other_chanops (erase fd m') ≡ true
Assigned-chanop fd m m' none r o e a h f = ground (arith, f (promote_first-none m e))
Assigned-chanop fd m m' (some (k, n)) r o e a h f =
    rw a (promote_first_chanop 0 fd m {k = k} {m' = n} r o e)

lower_membership :
    (fd j : ℕ) (st : Status) (c left : Channel) (s s' : Server)
    → lower_member fd st c s ≡ ok (left, s')
    → fd ≢ j
    → membership j left.clients ≡ membership j c.clients
unfolding lower_member
lower_membership fd j st c left s s' h ne =
    let lowered : Status = record st { is_member = false; chanop = false } in
    let start : Channel = record c { clients = insert fd lowered c.clients } in
    ground (
      arith,
      lookup-insert fd j lowered c.clients,
      assign_next_chanop-Assigned start left s s',
      Assigned-membership j start.clients left.clients (promote_first start.clients) refl,
    )

-- What a successful Channel::del_client went through.
pub record Left (fd : ℕ) (c c' : Channel) (s s' : Server) : Type 0 where
  pub status : Status
  pub left : Channel
  pub found : lookup fd c.clients ≡ some status
  pub lowered : lower_member fd status c s ≡ ok (left, s')
  pub erased : c'.clients ≡ erase fd left.clients

leave-Left :
    (fd : ℕ) (c c' : Channel) (s s' : Server) (st : Status)
    → lookup fd c.clients ≡ some st
    → leave fd c s ≡ ok (c', s')
    → Left fd c c' s s'
unfolding leave
leave-Left fd c c' s s' st e h =
    let bound : (lower_member fd st c s >>= λ (left, t).
    ok (record left { clients = erase fd left.clients }, t))
        ≡ ok (c', s') =
      rw (e, leave) at h in
    let ((left, t), q, r) = >>=-eq-ok (lower_member fd st c s) _ bound in
    record {
      status = st;
      left = left;
      found = e;
      lowered = ground (arith, q, r);
      erased = ground (arith, r);
    }

pub leave-ok-membership :
    (fd : ℕ) (c c' : Channel) (s s' : Server)
    → leave fd c s ≡ ok (c', s')
    → (lookup fd c'.clients ≡ none)
      × ((j : ℕ) → fd ≢ j → membership j c'.clients ≡ membership j c.clients)
leave-ok-membership fd c c' s s' h = elim (Option-cases (lookup fd c.clients)) [
  | inl e ↦ unfold leave in (ground (arith, e), λ j ne. ground (arith, e))
  | inr (st, e) ↦
      let l = leave-Left fd c c' s s' st e h in
      (
        rw (l.erased, lookup-erase) (ground (arith, ==_iff fd fd)),
        λ j ne.
            rw (l.erased, lookup-erase)
              (ground (arith, lower_membership fd j l.status c l.left s s' l.lowered ne)),
      )
]

abbrev lowered_status : Status → Status
lowered_status st = record st { is_member = false; chanop = false }

abbrev lowered_clients : ℕ → Status → Channel → Map ℕ Status
lowered_clients fd st c = insert fd (lowered_status st) c.clients

-- A member's bits go; where he was the last operator, the next one is assigned.
lower_cases :
    (fd : ℕ) (st : Status) (c left : Channel) (s s' : Server)
    → st.is_member ≡ true
    → lower_member fd st c s ≡ ok (left, s')
    → ((left.clients ≡ lowered_clients fd st c)
        × ((st.chanop ≡ false) ⊎ (are_there_other_chanops (lowered_clients fd st c) ≡ true)))
      ⊎ Assigned (promote_first (lowered_clients fd st c)) (lowered_clients fd st c) left.clients
unfolding lower_member
lower_cases fd st c left s s' mem h =
    let start : Channel = record c { clients = lowered_clients fd st c } in
    ground (arith, assign_next_chanop-Assigned start left s s')

module _ (fd : ℕ) (st : Status) (c : Channel) (r : Rises 0 c.clients)
    (found : lookup fd c.clients ≡ some st) where
  -- The lowered client meets no test of a member or an operator.
  lowered_any :
      (p : Status → Bool)
      → p (lowered_status st) ≡ false
      → any_status p (erase fd (lowered_clients fd st c)) ≡ any_status p (lowered_clients fd st c)
  lowered_any p h =
      any_status-erase p 0 fd (lowered_status st) (lowered_clients fd st c)
        (insert-Rises 0 fd (lowered_status st) c.clients r (omega arith))
        (lookup-insert_self fd (lowered_status st) c.clients) h

  lower_chanop :
      (left : Channel) (s s' : Server)
      → st.is_member ≡ true
      → lower_member fd st c s ≡ ok (left, s')
      → are_there_other_chanops c.clients ≡ true
      → has_member (erase fd left.clients) ≡ true
      → are_there_other_chanops (erase fd left.clients) ≡ true
  lower_chanop left s s' mem h ops more = elim (lower_cases fd st c left s s' mem h) [
    | inl (same, inl plain) ↦
        rw (same, erase-insert)
          (any_status-erase (λ x. x.chanop) 0 fd st c.clients r found plain ∙ ops)
    | inl (same, inr others) ↦ rw same (lowered_any (λ x. x.chanop) refl ∙ others)
    | inr a ↦
        Assigned-chanop fd (lowered_clients fd st c) left.clients _
          (insert-Rises 0 fd (lowered_status st) c.clients r (omega arith))
          (rw lookup-insert_self refl) refl a more (λ q. lowered_any (λ x. x.is_member) refl ∙ q)
  ]

leave-ok_keeps_operator :
    (fd : ℕ) (st : Status) (c c' : Channel) (s s' : Server)
    → Rises 0 c.clients
    → lookup fd c.clients ≡ some st
    → st.is_member ≡ true
    → are_there_other_chanops c.clients ≡ true
    → leave fd c s ≡ ok (c', s')
    → has_member c'.clients ≡ true
    → are_there_other_chanops c'.clients ≡ true
leave-ok_keeps_operator fd st c c' s s' r found mem ops h more =
    let l = leave-Left fd c c' s s' st found h in
    let same : l.status ≡ st = ground (arith, l.found, found) in
    rw l.erased (
      lower_chanop fd l.status c r l.found l.left s s' (rw same mem) l.lowered ops
        (rw l.erased at more))

-- Where the server knows the clients of the channel, with names that hold no angle bracket, leaving
-- returns, takes the client out of the channel and keeps everyone else's membership.
pub leave-membership :
    (fd : ℕ) (c : Channel) (s : Server)
    → AreKnown c.clients s
    → (r : Channel × Server) × (leave fd c s ≡ ok r)
      × (lookup fd r.0.clients ≡ none)
      × ((j : ℕ) → fd ≢ j → membership j r.0.clients ≡ membership j c.clients)
leave-membership fd c s known =
    let (r, e) = leave_returns fd c s known in
    let (gone, same) = leave-ok-membership fd c r.0 s r.1 e in (r, e, gone, same)

-- When a member leaves a channel that has an operator, and whose clients the server knows with
-- names that hold no angle bracket, leaving returns, and no member is left or an operator is left.
pub leave_keeps_operator :
    (fd : ℕ) (st : Status) (c : Channel) (s : Server)
    → AreKnown c.clients s
    → Rises 0 c.clients
    → lookup fd c.clients ≡ some st
    → st.is_member ≡ true
    → are_there_other_chanops c.clients ≡ true
    → (r : Channel × Server) × (leave fd c s ≡ ok r)
      × ((has_member r.0.clients ≡ false) ⊎ (are_there_other_chanops r.0.clients ≡ true))
leave_keeps_operator fd st c s known rises found mem ops =
    let (r, e) = leave_returns fd c s known in
    (
      r,
      e,
      elim (Bool-cases (has_member r.0.clients)) [
        | inl more ↦ inr (leave-ok_keeps_operator fd st c r.0 s r.1 rises found mem ops e more)
        | inr none_left ↦ inl none_left
      ],
    )
