-- ===== src/Map.antt =====
-- std::map as the program uses it: entries in the order of their keys, one for each key. A
-- std::set<int> is the list of its members in increasing order.
pub mod Laws
use ft_irc_duck.Base.{
  ℕ, suc, ◌≤◌, Bool, true, false, Option, none, some, List, [], ◌∷◌, ◌≡◌, ◌↔◌, ◌==◌, ==_iff, ltb,
  if◌then◌else◌,
}
use ft_irc_duck.Text.{Text, text_eq, text_lt}
use ft_irc_duck.Text.Equality.{text_eq_iff}

-- What std::less gives for the key's type.
pub record Key {ℓ} (K : Type ℓ) : Type ℓ where
  pub beq : K → K → Bool
  pub lt : K → K → Bool
  pub beq_iff : (a b : K) → (beq a b ≡ true) ↔ (a ≡ b)

instance abbrev pub fd_key : Key ℕ
fd_key = record { beq = ◌==◌; lt = ltb; beq_iff = ==_iff }

instance abbrev pub text_key : Key Text
text_key = record { beq = text_eq; lt = text_lt; beq_iff = text_eq_iff }

abbrev pub Map {ℓ κ} : Type ℓ → Type κ → Type (ℓ ⊔ κ)
Map K V = List (K × V)

module _ {ℓ κ} {K : Type ℓ} {V : Type κ} ⦃key : Key K⦄ where
  unfoldable pub lookup : K → Map K V → Option V
  lookup k [] = none
  lookup k ((j, v) ∷ m) = if key.beq j k then some v else lookup k m

  -- m[k] = v
  unfoldable pub insert : K → V → Map K V → Map K V
  insert k v [] = (k, v) ∷ []
  insert k v ((j, old) ∷ m) =
      let later = (j, old) ∷ insert k v m in
      if key.beq j k then (k, v) ∷ m else if key.lt k j then (k, v) ∷ (j, old) ∷ m else later

  unfoldable pub erase : K → Map K V → Map K V
  erase k [] = []
  erase k ((j, v) ∷ m) = let rest = erase k m in if key.beq j k then rest else (j, v) ∷ rest

-- The keys rise, from above the bound on.
abbrev pub Rises {ℓ} : {V : Type ℓ} → ℕ → Map ℕ V → Type 0
Rises b [] = Unit
Rises b ((k, v) ∷ m) = (b ≤ k) × Rises (suc k) m

abbrev pub FdSet : Type 0
FdSet = List ℕ

unfoldable pub member : ℕ → FdSet → Bool
member a [] = false
member a (x ∷ xs) = if x == a then true else member a xs

-- std::set::insert
unfoldable pub add : ℕ → FdSet → FdSet
add a [] = a ∷ []
add a (x ∷ xs) =
    let later = x ∷ add a xs in if x == a then x ∷ xs else if ltb a x then a ∷ x ∷ xs else later

-- std::set::erase
unfoldable pub remove : ℕ → FdSet → FdSet
remove a [] = []
remove a (x ∷ xs) = let rest = remove a xs in if x == a then rest else x ∷ rest
