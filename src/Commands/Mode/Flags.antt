-- ===== src/Commands/Mode/Flags.antt =====
-- srcs/commands/management/Mode.hpp and Mode.cpp: what a Mode object keeps while it runs, how a mode
-- string and its parameters are read into it, and how it is written as an answer. The object is
-- reset before each run, so it is a value of the run.
pub mod Answer
use ft_irc_duck.Base.{
  ℕ, zero, suc, Bool, true, false, not, ◌&&◌, ◌||◌, Option, none, some, List, [], ◌∷◌, ◌++◌, ◌==◌,
  leb, if◌then◌else◌, get_or, take, drop, is_empty,
}
use ft_irc_duck.Text.{Text, codes, has, find, find_first_of}
use ft_irc_duck.Map.{Map, lookup, insert, fd_key}

-- Mode::FlagStatus
pub data FlagStatus : Type 0 where
  unchanged add remove : FlagStatus

pub record Param : Type 0 where
  -- the byte 0 where no mode has taken the parameter
  pub mode : ℕ
  pub value : Text

pub record Modes : Type 0 where
  pub all_usermodes : Map ℕ FlagStatus
  pub all_chanmodes : Map ℕ FlagStatus
  pub mode_params : List Param

abbrev no_param : Param
no_param = record { mode = 0; value = [] }

-- Mode::_reset_modes, in the order of the keys
abbrev pub reset_modes : Modes
reset_modes = record {
  all_usermodes = (b'O', unchanged) ∷ (b'i', unchanged) ∷ [];
  all_chanmodes =
      (b'i', unchanged)
      ∷ (b'k', unchanged)
      ∷ (b'l', unchanged)
      ∷ (b'o', unchanged)
      ∷ (b't', unchanged)
      ∷ [];
  mode_params = no_param ∷ no_param ∷ no_param ∷ [];
}

-- `map[mode]`
unfoldable pub flag_of : ℕ → Map ℕ FlagStatus → FlagStatus
flag_of mode flags = elim (lookup mode flags) [ none ↦ unchanged | some f ↦ f ]

abbrev pub set_usermode : ℕ → FlagStatus → Modes → Modes
set_usermode mode f md = record md { all_usermodes = insert mode f md.all_usermodes }

abbrev pub set_chanmode : ℕ → FlagStatus → Modes → Modes
set_chanmode mode f md = record md { all_chanmodes = insert mode f md.all_chanmodes }

-- The loop of Mode::_get_mode_params: the values of the parameters, one for each place, and
-- whether a place was missing. An empty rest leaves its place as it is.
unfoldable pub fill_params : Text → List Param → List Param × Bool
fill_params t [] = ([], false)
fill_params t (p ∷ []) = elim (find b' ' t) [
  | none ↦ ((if is_empty t then p else record p { value = t }) ∷ [], false)
  | some i ↦ (record p { value = take i t } ∷ [], true)
]
fill_params t (p ∷ q ∷ ps) = elim (find b' ' t) [
  | none ↦ ((if is_empty t then p else record p { value = t }) ∷ q ∷ ps, false)
  | some i ↦
      let rest = fill_params (drop (suc i) t) (q ∷ ps) in
      (record p { value = take i t } ∷ rest.0, rest.1)
]

abbrev set_first : Param → List Param → List Param
set_first p [] = []
set_first p (q ∷ ps) = p ∷ ps

-- What Mode::_get_mode_params leaves as the mode string.
unfoldable pub mode_string : Text → Text
mode_string param = elim (find_first_of (codes " \t") param) [
  | none ↦ param
  | some i ↦ take i param
]

-- Mode::_get_mode_params: the object, and whether there were too many parameters.
unfoldable pub get_mode_params : Text → Bool → Modes → Modes × Bool
get_mode_params param is_channel md = elim (find_first_of (codes " \t") param) [
  | none ↦ (md, false)
  | some i ↦
      let given = drop (suc i) param in
      if is_channel
      then (
        record md { mode_params = (fill_params given md.mode_params).0 },
        (fill_params given md.mode_params).1,
      )
      else (
        record md {
          mode_params = set_first (record { mode = b'O'; value = given }) md.mode_params;
        },
        false,
      )
]

-- Mode::_map_mode_params: the first place that is free, or is the mode's.
unfoldable pub map_mode_params : ℕ → List Param → List Param
map_mode_params mode [] = []
map_mode_params mode (p ∷ ps) =
    if p.mode == 0
    then record p { mode = mode } ∷ ps
    else if p.mode == mode
    then p ∷ ps
    else p ∷ map_mode_params mode ps

-- Mode::_get_param
unfoldable pub get_param : ℕ → List Param → Text
get_param mode [] = []
get_param mode (p ∷ ps) = if p.mode == mode then p.value else get_param mode ps

abbrev pub usermodes_chars : Text
usermodes_chars = codes "iO"

abbrev pub chanmodes_chars : Text
chanmodes_chars = codes "itkol"

abbrev pub takes_param : ℕ → ℕ → Bool
takes_param sign c =
    ((sign == b'+') && ((c == b'o') || (c == b'l') || (c == b'k')))
    || ((sign == b'-') && ((c == b'o') || (c == b'k')))

abbrev signed : ℕ → FlagStatus
signed sign = if sign == b'+' then add else remove

-- One mode of the loop of Mode::_fill_mod_maps: the object, and whether the mode is unknown.
unfoldable pub fill_mode : Bool → ℕ → ℕ → Modes → Modes × Bool
unfolding has
fill_mode is_channel sign c md =
    let mapped = record md {
      mode_params = if takes_param sign c then map_mode_params c md.mode_params else md.mode_params;
    } in
    if is_channel && has c chanmodes_chars
    then (set_chanmode c (signed sign) mapped, false)
    else if not is_channel && has c usermodes_chars
    then (set_usermode c (signed sign) mapped, false)
    else (mapped, true)

-- Mode::_fill_mod_maps: the object, and how many modes are unknown; each is answered. The string
-- starts with a sign.
unfoldable pub fill_mod_maps : Bool → ℕ → Text → Modes → Modes × ℕ
fill_mod_maps is_channel sign [] md = (md, 0)
fill_mod_maps is_channel sign (c ∷ cs) md =
    let is_sign = (c == b'+') || (c == b'-') in
    let step = fill_mode is_channel sign c md in
    let rest =
      fill_mod_maps is_channel (if is_sign then c else sign) cs (if is_sign then md else step.0) in
    (rest.0, if is_sign then rest.1 else if step.1 then suc rest.1 else rest.1)

-- The first loop of Mode::_format_replymodes: a sign and a letter for each mode that changes.
unfoldable pub signed_modes : Map ℕ FlagStatus → Text
signed_modes [] = []
signed_modes ((c, unchanged) ∷ m) = signed_modes m
signed_modes ((c, add) ∷ m) = b'+' ∷ c ∷ signed_modes m
signed_modes ((c, remove) ∷ m) = b'-' ∷ c ∷ signed_modes m

-- The second and third loop: the modes of one sign behind `tmp`, and their parameters behind
-- `suffix`.
unfoldable pub collect : ℕ → List Param → Text → Text → Text → Text × Text
unfolding has
collect sign ps [] tmp suffix = (tmp, suffix)
collect sign ps (x ∷ rest) tmp suffix =
    let c : ℕ = get_or rest 0 0 in
    let begun : Text = if has sign tmp then tmp else tmp ++ sign ∷ [] in
    let shown : Text = if takes_param sign c then suffix ++ (b' ' ∷ get_param c ps) else suffix in
    collect sign ps rest (if x == sign then begun ++ c ∷ [] else tmp)
      (if x == sign then shown else suffix)

-- Mode::_format_replymodes
unfoldable pub format_replymodes : Bool → Modes → Text
format_replymodes is_channel md =
    let pairs = signed_modes (if is_channel then md.all_chanmodes else md.all_usermodes) in
    let added = collect b'+' md.mode_params pairs [] [] in
    let both = collect b'-' md.mode_params pairs added.0 added.1 in both.0 ++ both.1
