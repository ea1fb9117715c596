-- ===== src/Membership/Traversal.antt =====
-- The loops over the clients of a channel, against what a lookup finds. Keys rise along the map.
use mathlib.Core.Option
use ft_irc_duck.Base.{
  ℕ, suc, Bool, true, false, Option, none, some, [], ◌∷◌, ◌≡◌, refl, arith, Option-cases, inl, inr,
}
use ft_irc_duck.Map.{Map, lookup, insert, erase, fd_key, Rises}
use ft_irc_duck.Map.Laws.{lookup_below, erase_below}
use ft_irc_duck.Channel.{Status}
use ft_irc_duck.Membership.{any_status, promote_first, has_member, are_there_other_chanops}

pub any_status-erase-insert :
    (p : Status → Bool) (b fd : ℕ) (st : Status) (m : Map ℕ Status)
    → Rises b m
    → p st ≡ false
    → any_status p (insert fd st m) ≡ any_status p (erase fd m)
unfolding any_status insert erase
any_status-erase-insert p b fd st [] r h = ground arith
any_status-erase-insert p b fd st ((j, w) ∷ m) r h =
    ground (arith, any_status-erase-insert p (suc j) fd st m r.1, erase_below (suc j) fd m r.1)

-- A test that a client fails, and some client meets, is met by another client.
pub any_status-erase :
    (p : Status → Bool) (b fd : ℕ) (st : Status) (m : Map ℕ Status)
    → Rises b m
    → lookup fd m ≡ some st
    → p st ≡ false
    → any_status p (erase fd m) ≡ any_status p m
unfolding any_status erase lookup
any_status-erase p b fd st [] r e h = cc
any_status-erase p b fd st ((j, w) ∷ m) r e h =
    ground (arith, any_status-erase p (suc j) fd st m r.1, erase_below (suc j) fd m r.1)

abbrev pub Outsider : Option Status → Type 0
Outsider none = Unit
Outsider (some st) = st.is_member ≡ false

-- Without a new operator nobody is a member.
pub promote_first-none : (m : Map ℕ Status) → promote_first m ≡ none → has_member m ≡ false
unfolding promote_first any_status
promote_first-none [] e = refl
promote_first-none ((j, w) ∷ m) e = ground (arith, promote_first-none m)

-- The new operator stays when an outsider is erased.
pub promote_first_chanop :
    (b fd : ℕ) (m : Map ℕ Status) {k : ℕ} {m' : Map ℕ Status}
    → Rises b m
    → Outsider (lookup fd m)
    → promote_first m ≡ some (k, m')
    → are_there_other_chanops (erase fd m') ≡ true
unfolding promote_first erase lookup any_status
promote_first_chanop b fd [] r o e = cc
promote_first_chanop b fd ((j, w) ∷ m) {k} {m'} r o e = elim (Option-cases (promote_first m)) [
  | inl q ↦ ground (arith, q)
  | inr ((k', n), q) ↦ ground (
    arith,
    q,
    lookup_below (suc j) fd m r.1,
    promote_first_chanop (suc j) fd m {k = k'} {m' = n} r.1,
  )
]

-- Nobody's membership changes.
pub promote_first_member :
    (j : ℕ) (m : Map ℕ Status) {k : ℕ} {m' : Map ℕ Status}
    → promote_first m ≡ some (k, m')
    → Option.map (λ (st : Status). st.is_member) (lookup j m')
      ≡ Option.map (λ (st : Status). st.is_member) (lookup j m)
unfolding promote_first lookup
promote_first_member j [] e = cc
promote_first_member j ((i, w) ∷ m) {k} {m'} e = elim (Option-cases (promote_first m)) [
  | inl q ↦ ground (arith, q)
  | inr ((k', n), q) ↦ ground (arith, q, promote_first_member j m {k = k'} {m' = n} q)
]
