-- ===== src/Commands/Mode/Flags/Answer.antt =====
-- The mode string of an answer, against the modes that are added and those that are removed.
use ft_irc_duck.Base.{
  arith, ℕ, Bool, true, false, List, [], ◌∷◌, ◌++◌, ◌≡◌, refl, sym, ◌∙◌, ap, ap₂, inl, inr,
  if◌then◌else◌, ◌==◌, ==_iff, All, append-nil, append_assoc, Bool-cases,
}
use ft_irc_duck.Text.{Text, codes, has}
use ft_irc_duck.Text.Equality.{has-append_left, has-append_right}
use ft_irc_duck.Map.{Map}
use ft_irc_duck.Commands.Mode.Flags.{
  FlagStatus, unchanged, add, Modes, Param, get_param, takes_param, signed_modes, collect,
  format_replymodes,
}

-- The letters of one sign, in the order of the map.
abbrev pub picked : ℕ → Map ℕ FlagStatus → Text
picked sign [] = []
picked sign ((c, unchanged) ∷ m) = picked sign m
picked sign ((c, add) ∷ m) = if sign == b'+' then c ∷ picked sign m else picked sign m
picked sign ((c, FlagStatus.remove) ∷ m) = if sign == b'-' then c ∷ picked sign m else picked sign m

-- The sign once, before its letters.
abbrev pub signed_letters : ℕ → Text → Text
signed_letters sign [] = []
signed_letters sign (c ∷ cs) = sign ∷ c ∷ cs

-- A blank and the parameter of each letter that takes one, by the tests of the code.
abbrev taken_params : ℕ → List Param → Text → Text
taken_params sign ps [] = []
taken_params sign ps (c ∷ cs) =
    (if takes_param sign c then b' ' ∷ get_param c ps else []) ++ taken_params sign ps cs

-- The letters whose parameter is answered: key, limit and operator where they are added, key and
-- operator where they are removed.
abbrev pub with_param : ℕ → Text
with_param sign = if sign == b'+' then codes "klo" else codes "ko"

-- The parameters that are kept for a letter, in their order.
abbrev pub values_of : ℕ → List Param → List Text
values_of c [] = []
values_of c (p ∷ ps) = if p.mode == c then p.value ∷ values_of c ps else values_of c ps

abbrev pub first_of : List Text → Text
first_of [] = []
first_of (t ∷ ts) = t

-- A blank and the first parameter of each letter that has one.
abbrev pub params_of : ℕ → List Param → Text → Text
params_of sign ps [] = []
params_of sign ps (c ∷ cs) =
    (if has c (with_param sign) then b' ' ∷ first_of (values_of c ps) else [])
    ++ params_of sign ps cs

get_param_lem : (c : ℕ) (ps : List Param) → get_param c ps ≡ first_of (values_of c ps)
unfolding get_param
get_param_lem c [] = refl
get_param_lem c (p ∷ ps) = ground (arith, get_param_lem c ps)

takes_param_added : (c : ℕ) → takes_param b'+' c ≡ has c (with_param b'+')
unfolding has
takes_param_added c = ground arith

takes_param_removed : (c : ℕ) → takes_param b'-' c ≡ has c (with_param b'-')
unfolding has
takes_param_removed c = ground arith

params_of_added : (ps : List Param) (cs : Text) → taken_params b'+' ps cs ≡ params_of b'+' ps cs
params_of_added ps [] = refl
params_of_added ps (c ∷ cs) =
    rw (takes_param_added c, get_param_lem c ps, params_of_added ps cs) refl

params_of_removed : (ps : List Param) (cs : Text) → taken_params b'-' ps cs ≡ params_of b'-' ps cs
params_of_removed ps [] = refl
params_of_removed ps (c ∷ cs) =
    rw (takes_param_removed c, get_param_lem c ps, params_of_removed ps cs) refl

abbrev pub IsLetter : ℕ → Type 0
IsLetter c = ((c == b'+') ≡ false) × ((c == b'-') ≡ false)

abbrev pub AreLetters : Map ℕ FlagStatus → Type 0
AreLetters = All λ (entry : ℕ × FlagStatus). IsLetter entry.0

abbrev begun : ℕ → Text → Text
begun sign tmp = if has sign tmp then tmp else tmp ++ sign ∷ []

abbrev behind : ℕ → Text → Text → Text
behind sign tmp [] = tmp
behind sign tmp (c ∷ cs) = begun sign tmp ++ c ∷ cs

self : (sign : ℕ) → (sign == sign) ≡ true
self sign = (==_iff sign sign).1 refl

has-begun : (sign c : ℕ) (tmp : Text) → has sign (begun sign tmp ++ c ∷ []) ≡ true
unfolding has
has-begun sign c tmp = elim (Bool-cases (has sign tmp)) [
  | inl e ↦ rw e (has-append_left sign tmp (c ∷ []) e)
  | inr e ↦ rw e (
      has-append_left sign (tmp ++ sign ∷ []) (c ∷ [])
        (has-append_right sign tmp (sign ∷ []) (rw (self sign) refl)))
]

behind-begun :
    (sign c : ℕ) (tmp cs : Text)
    → behind sign (begun sign tmp ++ c ∷ []) cs ≡ begun sign tmp ++ c ∷ cs
behind-begun sign c tmp [] = refl
behind-begun sign c tmp (x ∷ xs) = rw has-begun (append_assoc (begun sign tmp) (c ∷ []) (x ∷ xs))

-- One letter with the sign that is looked for.
collect_taken :
    (sign c : ℕ) (ps : List Param) (rest tmp suffix : Text)
    → (c == sign) ≡ false
    → collect sign ps (sign ∷ c ∷ rest) tmp suffix
      ≡ collect sign ps rest
          (begun sign tmp ++ c ∷ [])
          (if takes_param sign c then suffix ++ (b' ' ∷ get_param c ps) else suffix)
unfolding collect
collect_taken sign c ps rest tmp suffix h = rw (h, self sign) refl

collect_skipped :
    (sign x c : ℕ) (ps : List Param) (rest tmp suffix : Text)
    → (x == sign) ≡ false
    → (c == sign) ≡ false
    → collect sign ps (x ∷ c ∷ rest) tmp suffix ≡ collect sign ps rest tmp suffix
unfolding collect
collect_skipped sign x c ps rest tmp suffix h k = rw (h, k) refl

-- The parameters of a letter and of those behind it.
regroup_params :
    (sign c : ℕ) (ps : List Param) (suffix cs : Text)
    → (if takes_param sign c then suffix ++ (b' ' ∷ get_param c ps) else suffix)
        ++ taken_params sign ps cs
      ≡ suffix ++ taken_params sign ps (c ∷ cs)
regroup_params sign c ps suffix cs = elim (Bool-cases (takes_param sign c)) [
  | inl e ↦ rw e (append_assoc suffix (b' ' ∷ get_param c ps) (taken_params sign ps cs))
  | inr e ↦ rw e refl
]

abbrev Collected : ℕ → List Param → Text → Text → Text → Text × Text
Collected sign ps tmp suffix letters =
    (behind sign tmp letters, suffix ++ taken_params sign ps letters)

collect_add :
    (sign c : ℕ) (ps : List Param) (rest tmp suffix cs : Text)
    → (c == sign) ≡ false
    → ((tmp' suffix' : Text)
        → collect sign ps rest tmp' suffix' ≡ Collected sign ps tmp' suffix' cs)
    → collect sign ps (sign ∷ c ∷ rest) tmp suffix ≡ Collected sign ps tmp suffix (c ∷ cs)
collect_add sign c ps rest tmp suffix cs h ih =
    collect_taken sign c ps rest tmp suffix h
    ∙ ih _ _
    ∙ ap₂ (λ (a b : Text). (a, b)) (behind-begun sign c tmp cs) (regroup_params sign c ps suffix cs)

collect_signed_added :
    (ps : List Param) (m : Map ℕ FlagStatus) (tmp suffix : Text)
    → AreLetters m
    → collect b'+' ps (signed_modes m) tmp suffix ≡ Collected b'+' ps tmp suffix (picked b'+' m)
unfolding signed_modes
collect_signed_added ps [] tmp suffix l =
    unfold collect in ap (λ (t : Text). (tmp, t)) (sym (append-nil suffix))
collect_signed_added ps ((c, unchanged) ∷ m) tmp suffix l = collect_signed_added ps m tmp suffix l.1
collect_signed_added ps ((c, add) ∷ m) tmp suffix l =
    collect_add b'+' c ps (signed_modes m) tmp suffix (picked b'+' m) l.0.0
      (λ t u. collect_signed_added ps m t u l.1)
collect_signed_added ps ((c, FlagStatus.remove) ∷ m) tmp suffix l =
    collect_skipped b'+' b'-' c ps (signed_modes m) tmp suffix refl l.0.0
    ∙ collect_signed_added ps m tmp suffix l.1

collect_signed_removed :
    (ps : List Param) (m : Map ℕ FlagStatus) (tmp suffix : Text)
    → AreLetters m
    → collect b'-' ps (signed_modes m) tmp suffix ≡ Collected b'-' ps tmp suffix (picked b'-' m)
unfolding signed_modes
collect_signed_removed ps [] tmp suffix l =
    unfold collect in ap (λ (t : Text). (tmp, t)) (sym (append-nil suffix))
collect_signed_removed ps ((c, unchanged) ∷ m) tmp suffix l =
    collect_signed_removed ps m tmp suffix l.1
collect_signed_removed ps ((c, FlagStatus.remove) ∷ m) tmp suffix l =
    collect_add b'-' c ps (signed_modes m) tmp suffix (picked b'-' m) l.0.1
      (λ t u. collect_signed_removed ps m t u l.1)
collect_signed_removed ps ((c, add) ∷ m) tmp suffix l =
    collect_skipped b'-' b'+' c ps (signed_modes m) tmp suffix refl l.0.1
    ∙ collect_signed_removed ps m tmp suffix l.1

-- The text of the added modes holds no minus.
added_without_minus : (m : Map ℕ FlagStatus) → AreLetters m → has b'-' (picked b'+' m) ≡ false
unfolding has
added_without_minus [] l = refl
added_without_minus ((c, unchanged) ∷ m) l = added_without_minus m l.1
added_without_minus ((c, add) ∷ m) l = rw l.0.1 (added_without_minus m l.1)
added_without_minus ((c, FlagStatus.remove) ∷ m) l = added_without_minus m l.1

behind-nil : (sign : ℕ) (cs : Text) → behind sign [] cs ≡ signed_letters sign cs
unfolding has
behind-nil sign [] = refl
behind-nil sign (c ∷ cs) = refl

behind-append :
    (sign : ℕ) (tmp cs : Text)
    → has sign tmp ≡ false
    → behind sign tmp cs ≡ tmp ++ signed_letters sign cs
behind-append sign tmp [] h = sym (append-nil tmp)
behind-append sign tmp (c ∷ cs) h = rw h (append_assoc tmp (sign ∷ []) (c ∷ cs))

signed_without_minus : (cs : Text) → has b'-' cs ≡ false → has b'-' (signed_letters b'+' cs) ≡ false
unfolding has
signed_without_minus [] h = refl
signed_without_minus (c ∷ cs) h = h

abbrev pub flags_of : Bool → Modes → Map ℕ FlagStatus
flags_of is_channel md = if is_channel then md.all_chanmodes else md.all_usermodes

-- An answer lists the added modes behind one plus, then the removed ones behind one minus, each in
-- the order of their letters, then a blank and the parameter of each key, limit and operator that is
-- added, and of each key and operator that is removed, where no mode is a sign. The parameter is the
-- first one that is kept for the letter.
pub format_replymodes_lem :
    (is_channel : Bool) (md : Modes)
    → AreLetters (flags_of is_channel md)
    → format_replymodes is_channel md
      ≡ (signed_letters b'+' (picked b'+' (flags_of is_channel md))
          ++ signed_letters b'-' (picked b'-' (flags_of is_channel md)))
        ++ (params_of b'+' md.mode_params (picked b'+' (flags_of is_channel md))
            ++ params_of b'-' md.mode_params (picked b'-' (flags_of is_channel md)))
unfolding format_replymodes
format_replymodes_lem is_channel md l =
    let flags : Map ℕ FlagStatus = flags_of is_channel md in
    rw
      (
        collect_signed_added md.mode_params flags [] [] l,
        collect_signed_removed md.mode_params flags _ _ l,
        behind-nil b'+' (picked b'+' flags),
        behind-append b'-' (signed_letters b'+' (picked b'+' flags)) (picked b'-' flags)
            (signed_without_minus (picked b'+' flags) (added_without_minus flags l)),
        params_of_added md.mode_params (picked b'+' flags),
        params_of_removed md.mode_params (picked b'-' flags),
      )
      refl
