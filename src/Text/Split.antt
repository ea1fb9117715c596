-- ===== src/Text/Split.antt =====
-- The loops that split parameters: `while ((pos = find(...)) != npos) { push(substr(0, pos)); ... }`.
use ft_irc_duck.Base.{
  ℕ, zero, suc, ◌+◌, Option, none, some, List, [], ◌∷◌, ◌++◌, if◌then◌else◌, length, take, drop,
  is_empty,
}
use ft_irc_duck.Text.{Text, find, starts_with}
use mathlib.Core.Option

-- find(std::string)
unfoldable pub find_text : Text → Text → Option ℕ
unfolding starts_with
find_text s [] = if starts_with [] s then some 0 else none
find_text s (x ∷ xs) =
    let later = Option.map suc (find_text s xs) in if starts_with (x ∷ xs) s then some 0 else later

-- find_last_of(char)
unfoldable pub find_last : ℕ → Text → Option ℕ
unfolding find
find_last c [] = none
find_last c (x ∷ xs) = elim (find_last c xs) [ none ↦ find c (x ∷ []) | some i ↦ some (suc i) ]

-- The pieces before each separator of the given width, and what is left. Every round takes a
-- byte at least, so the length of the text is fuel enough.
unfoldable pub cut_by : (Text → Option ℕ) → ℕ → ℕ → Text → List Text × Text
cut_by search_in width zero t = ([], t)
cut_by search_in width (suc fuel) t = elim (search_in t) [
  | none ↦ ([], t)
  | some i ↦
      let rest = cut_by search_in width fuel (drop (i + width) t) in (take i t ∷ rest.0, rest.1)
]

unfoldable pub cut_commas : Text → List Text × Text
unfolding cut_by
cut_commas t = cut_by (find b',') 1 (length t) t

-- Join::split_join_cmd and Part::split_channels: the list, and what the text is afterwards.
unfoldable pub split_list : Text → List Text × Text
unfolding cut_commas
split_list t = elim (find b',' t) [
  | none ↦ (t ∷ [], t)
  | some i ↦
      let (pieces, rest) = cut_commas t in
      (if is_empty rest then pieces else pieces ++ rest ∷ [], rest)
]
