-- ===== src/Map/Laws.antt =====
-- What is found in a map or a set after a change.
use ft_irc_duck.Base.{
  suc, ◌<◌, ◌≤◌, ℕ, true, false, none, some, [], ◌∷◌, ◌≡◌, refl, arith, if◌then◌else◌, ◌==◌,
}
use ft_irc_duck.Map.{fd_key, Rises, Key, Map, lookup, insert, erase, FdSet, member, add, remove}

pub beq_refl {ℓ} : {K : Type ℓ} ⦃key : Key K⦄ (k : K) → key.beq k k ≡ true
beq_refl ⦃key⦄ k = (key.beq_iff k k).1 refl

module _ {ℓ κ} {K : Type ℓ} {V : Type κ} ⦃key : Key K⦄ where
  pub lookup-insert :
      (k j : K) (v : V) (m : Map K V)
      → lookup j (insert k v m) ≡ (if key.beq k j then some v else lookup j m)
  unfolding lookup insert
  lookup-insert k j v [] = refl
  lookup-insert k j v ((i, old) ∷ m) =
      ground (arith, lookup-insert k j v m, key.beq_iff i k, key.beq_iff i j, key.beq_iff k j)

  pub lookup-erase :
      (k j : K) (m : Map K V) → lookup j (erase k m) ≡ (if key.beq k j then none else lookup j m)
  unfolding lookup erase
  lookup-erase k j [] = ground arith
  lookup-erase k j ((i, w) ∷ m) =
      ground (arith, key.beq_iff k j, key.beq_iff i k, key.beq_iff i j, lookup-erase k j m)

  pub lookup-insert_self : (k : K) (v : V) (m : Map K V) → lookup k (insert k v m) ≡ some v
  lookup-insert_self k v m = rw (lookup-insert, beq_refl k)

pub member-add :
    (a b : ℕ) (xs : FdSet) → member b (add a xs) ≡ (if a == b then true else member b xs)
unfolding member add
member-add a b [] = ground arith
member-add a b (x ∷ xs) = ground (arith, member-add a b xs)

pub member-remove :
    (a b : ℕ) (xs : FdSet) → member b (remove a xs) ≡ (if a == b then false else member b xs)
unfolding member remove
member-remove a b [] = ground arith
member-remove a b (x ∷ xs) = ground (arith, member-remove a b xs)

module _ {ℓ κ} {K : Type ℓ} {V : Type κ} ⦃key : Key K⦄ where
  pub erase-insert : (k : K) (v : V) (m : Map K V) → erase k (insert k v m) ≡ erase k m
  unfolding erase insert
  erase-insert k v [] = ground (arith, key.beq_iff k k)
  erase-insert k v ((j, w) ∷ m) = ground (arith, key.beq_iff k k, erase-insert k v m)

-- A key below the bound is not in the map.
module _ {ℓ} {V : Type ℓ} where
  pub lookup_below : (b k : ℕ) (m : Map ℕ V) → Rises b m → k < b → lookup k m ≡ none
  unfolding lookup
  lookup_below b k [] r h = refl
  lookup_below b k ((j, v) ∷ m) r h = ground (arith, lookup_below (suc j) k m r.1)

  pub erase_below : (b k : ℕ) (m : Map ℕ V) → Rises b m → k < b → erase k m ≡ m
  unfolding erase
  erase_below b k [] r h = refl
  erase_below b k ((j, v) ∷ m) r h = ground (arith, erase_below (suc j) k m r.1)

  Rises-mono : (a b : ℕ) (m : Map ℕ V) → Rises b m → a ≤ b → Rises a m
  Rises-mono a b [] r h = tt
  Rises-mono a b ((j, v) ∷ m) r h = (omega arith, r.1)

  pub erase-Rises : (b k : ℕ) (m : Map ℕ V) → Rises b m → Rises b (erase k m)
  unfolding erase
  erase-Rises b k [] r = tt
  erase-Rises b k ((j, v) ∷ m) r =
      ground (arith, erase-Rises (suc j) k m r.1, Rises-mono b (suc j) (erase k m))

  pub insert-Rises : (b k : ℕ) (v : V) (m : Map ℕ V) → Rises b m → b ≤ k → Rises b (insert k v m)
  unfolding insert
  insert-Rises b k v [] r h = (h, tt)
  insert-Rises b k v ((j, w) ∷ m) r h = ground (arith, insert-Rises (suc j) k v m r.1)
