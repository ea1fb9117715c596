-- ===== src/Text.antt =====
-- std::string as the program uses it: a list of bytes, with positions as numbers and `npos` as
-- `none`. Texts are shorter than 2^31, so positions kept in an `int` keep their value.
pub mod Equality
pub mod Split
pub mod Splitting
pub mod Decimal
use Prim.Native.Char.{code}
use ft_irc_duck.Base.{
  ℕ, zero, suc, ◌+◌, leb, ◌-◌, String, Bool, true, false, not, ◌&&◌, Option, none, some, List, [],
  ◌∷◌, ◌++◌, length, take, drop, ◌==◌, leb, ltb, if◌then◌else◌,
}
use mathlib.Core.Option

abbrev pub Text : Type 0
Text = List ℕ

-- The bytes of an ASCII literal.
abbrev pub codes : String → Text
codes String.[] = []
codes (String.◌∷◌ c s) = code c ∷ codes s

-- Texts one after the other.
abbrev pub concat : List Text → Text
concat [] = []
concat (t ∷ ts) = t ++ concat ts

-- std::string::operator==
unfoldable pub text_eq : Text → Text → Bool
text_eq [] [] = true
text_eq [] (y ∷ ys) = false
text_eq (x ∷ xs) [] = false
text_eq (x ∷ xs) (y ∷ ys) = (x == y) && text_eq xs ys

-- std::string::operator<, which orders the keys of a std::map
unfoldable pub text_lt : Text → Text → Bool
text_lt xs [] = false
text_lt [] (y ∷ ys) = true
text_lt (x ∷ xs) (y ∷ ys) = let rest = text_lt xs ys in if x == y then rest else ltb x y

unfoldable pub has : ℕ → Text → Bool
has c [] = false
has c (x ∷ xs) = if x == c then true else has c xs

-- The first position at which a test holds.
unfoldable pub find_by : (ℕ → Bool) → Text → Option ℕ
find_by p [] = none
find_by p (x ∷ xs) = if p x then some 0 else Option.map suc (find_by p xs)

-- find(char)
unfoldable pub find : ℕ → Text → Option ℕ
unfolding find_by
find c = find_by (λ x. x == c)

-- find_first_of(set), find_first_not_of(set)
unfoldable pub find_first_of : Text → Text → Option ℕ
unfolding find_by has
find_first_of set = find_by (λ x. has x set)

unfoldable pub find_first_not_of : Text → Text → Option ℕ
unfolding find_by has
find_first_not_of set = find_by (λ x. not (has x set))

-- The same from a position on.
abbrev pub from_pos : (Text → Option ℕ) → ℕ → Text → Option ℕ
from_pos search_in i t = Option.map (λ k. i + k) (search_in (drop i t))

-- find(text)
unfoldable pub starts_with : Text → Text → Bool
starts_with t [] = true
starts_with [] (y ∷ ys) = false
starts_with (x ∷ xs) (y ∷ ys) = (x == y) && starts_with xs ys

unfoldable pub contains : Text → Text → Bool
unfolding starts_with
contains [] s = starts_with [] s
contains (x ∷ xs) s = if starts_with (x ∷ xs) s then true else contains xs s

-- erase(find_last_not_of(set) + 1)
unfoldable pub trim_right : Text → Text → Text
unfolding has
trim_right set [] = []
trim_right set (x ∷ xs) = elim (trim_right set xs) [
  | [] ↦ if has x set then [] else x ∷ []
  | y ∷ ys ↦ x ∷ y ∷ ys
]

-- substr(0, n) and substr(n), where `npos` is the whole text
abbrev pub take_to : Option ℕ → Text → Text
take_to none t = t
take_to (some n) t = take n t

-- std::tolower of a letter, in the C locale; any other byte is kept.
unfoldable pub to_lower : ℕ → ℕ
to_lower c = if leb b'A' c && leb c b'Z' then c + 32 else c
