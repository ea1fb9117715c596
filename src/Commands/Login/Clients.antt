-- ===== src/Commands/Login/Clients.antt =====
-- What holds of the clients of the server whatever logs in: who is registered, and nicknames.
use mathlib.Core.Path.{subst}
use ft_irc_duck.Base.{
  ℕ, true, false, none, some, [], ◌∷◌, map, ◌≡◌, refl, sym, ◌≢◌, ◌⊎◌, inl, inr, arith,
  if◌then◌else◌, ◌==◌, Bool-cases, some-inj,
}
use ft_irc_duck.Text.{Text, text_eq, to_lower}
use ft_irc_duck.Text.Equality.{text_eq-ne}
use ft_irc_duck.Map.{Map, lookup, insert, erase, fd_key}
use ft_irc_duck.Map.Laws.{lookup-insert, lookup-erase}
use ft_irc_duck.Client.{Client}
use ft_irc_duck.Commands.Login.{is_nickname_allowed, is_nick_unique}

-- A nickname is allowed once it is given, and only who gave the password and a nickname is registered.
pub record IsSound (c : Client) : Type 0 where
  pub named : c.nickname ≢ [] → is_nickname_allowed c.nickname ≡ true
  pub authenticated : c.is_registered ≡ true → c.is_authenticated ≡ true
  pub has_nickname : c.is_registered ≡ true → c.nickname ≢ []

-- The nicknames differ in more than the case of their letters.
abbrev pub Apart : Text → Text → Type 0
Apart a b = a ≢ [] → map to_lower a ≢ map to_lower b

pub record AreSound (m : Map ℕ Client) : Type 0 where
  pub sound : (j : ℕ) (d : Client) → lookup j m ≡ some d → IsSound d
  pub apart :
      (i j : ℕ) (c d : Client)
      → lookup i m ≡ some c
      → lookup j m ≡ some d
      → i ≢ j
      → Apart c.nickname d.nickname

module _ (fd : ℕ) (c : Client) (m : Map ℕ Client) (inv : AreSound m) where
  -- One client is replaced or added.
  pub insert-AreSound :
      IsSound c
      → ((j : ℕ) (d : Client)
          → lookup j m ≡ some d
          → fd ≢ j
          → Apart c.nickname d.nickname × Apart d.nickname c.nickname)
      → AreSound (insert fd c m)
  insert-AreSound sc fresh = record {
    sound = λ j d e. sound_at j d (rw lookup-insert at e) (Bool-cases (fd == j));
    apart = λ i j a b e f ne.
        apart_at i j a b (rw lookup-insert at e) (rw lookup-insert at f) ne (Bool-cases (fd == i))
          (Bool-cases (fd == j));
  }
    where
      sound_at :
          (j : ℕ) (d : Client)
          → (if fd == j then some c else lookup j m) ≡ some d
          → ((fd == j) ≡ true) ⊎ ((fd == j) ≡ false)
          → IsSound d
      sound_at j d e (inl h) = subst IsSound (some-inj (rw h at e)) sc
      sound_at j d e (inr h) = inv.sound j d (rw h at e)

      apart_at :
          (i j : ℕ) (a b : Client)
          → (if fd == i then some c else lookup i m) ≡ some a
          → (if fd == j then some c else lookup j m) ≡ some b
          → i ≢ j
          → ((fd == i) ≡ true) ⊎ ((fd == i) ≡ false)
          → ((fd == j) ≡ true) ⊎ ((fd == j) ≡ false)
          → Apart a.nickname b.nickname
      apart_at i j a b e f ne (inl h) (inl k) = absurd (ne (ground (arith, h, k)))
      apart_at i j a b e f ne (inl h) (inr k) =
          subst (λ (x : Client). Apart x.nickname b.nickname) (some-inj (rw h at e))
            (fresh j b (rw k at f) (ground (arith, k))).0
      apart_at i j a b e f ne (inr h) (inl k) =
          subst (λ (x : Client). Apart a.nickname x.nickname) (some-inj (rw k at f))
            (fresh i a (rw h at e) (ground (arith, h))).1
      apart_at i j a b e f ne (inr h) (inr k) = inv.apart i j a b (rw h at e) (rw k at f) ne

  -- A client that keeps its nickname may change otherwise.
  pub update-AreSound :
      (old : Client)
      → lookup fd m ≡ some old
      → c.nickname ≡ old.nickname
      → IsSound c
      → AreSound (insert fd c m)
  update-AreSound old found same sc = insert-AreSound sc λ j d e ne. (
    rw same (inv.apart fd j old d found e ne),
    rw same (inv.apart j fd d old e found (λ q. ne (sym q))),
  )

  pub erase-AreSound : AreSound (erase fd m)
  erase-AreSound = record {
    sound = λ j d e. inv.sound j d (kept j d (rw lookup-erase at e));
    apart = λ i j a b e f ne.
        inv.apart i j a b (kept i a (rw lookup-erase at e)) (kept j b (rw lookup-erase at f)) ne;
  }
    where
      kept :
          (j : ℕ) (d : Client)
          → (if fd == j then none else lookup j m) ≡ some d
          → lookup j m ≡ some d
      kept j d e = ground (arith, e)

lower-nil : (t : Text) → map to_lower t ≡ [] → t ≡ []
lower-nil [] e = refl
lower-nil (x ∷ xs) e = cc

-- A client without a nickname is apart from everyone.
pub nameless-Apart : (t : Text) → Apart [] t × Apart t []
nameless-Apart t = (λ h. absurd (h refl), λ h e. h (lower-nil t e))

is_nick_unique-ne :
    (nick : Text) (m : Map ℕ Client) (j : ℕ) (d : Client)
    → is_nick_unique nick m ≡ true
    → lookup j m ≡ some d
    → text_eq (map to_lower nick) (map to_lower d.nickname) ≡ false
unfolding is_nick_unique lookup
is_nick_unique-ne nick [] j d u e = cc
is_nick_unique-ne nick ((i, c) ∷ m) j d u e = ground (arith, is_nick_unique-ne nick m j d)

pub is_nick_unique-Apart :
    (nick : Text) (m : Map ℕ Client) (j : ℕ) (d : Client)
    → is_nick_unique nick m ≡ true
    → lookup j m ≡ some d
    → Apart nick d.nickname × Apart d.nickname nick
is_nick_unique-Apart nick m j d u e =
    let ne = text_eq-ne _ _ (is_nick_unique-ne nick m j d u e) in (λ h. ne, λ h q. ne (sym q))
