-- ===== src/Commands/Login/Params.antt =====
-- The parameters of USER, written and read.
use mathlib.Core.Option
use ft_irc_duck.Base.{
  ℕ, suc, ◌+◌, ◌-◌, Bool, true, false, Option, some, [], ◌∷◌, ◌++◌, ◌≡◌, refl, ap, ◌∙◌, arith,
  length, length-append, take, drop, get_or, drop-append_length, take-append_length, append_assoc,
  is_empty, All,
}
use ft_irc_duck.Text.{Text, codes, has, find_by, find_first_of, find_first_not_of, from_pos}
use ft_irc_duck.Commands.Login.{blanks, real_name, get_correct_user_params}

-- None of the characters of a set stands in the text.
abbrev pub LacksAll : Text → Text → Type 0
LacksAll set = All λ c. has c set ≡ false

find_by-append :
    (p : ℕ → Bool) (s : Text) (c : ℕ) (t : Text)
    → All (λ x. p x ≡ false) s
    → p c ≡ true
    → find_by p (s ++ c ∷ t) ≡ some (length s)
unfolding find_by
find_by-append p [] c t h e = rw e refl
find_by-append p (x ∷ xs) c t h e = rw (h.0, find_by-append p xs c t h.1 e) refl

find_first_of-append :
    (set s : Text) (c : ℕ) (t : Text)
    → LacksAll set s
    → has c set ≡ true
    → find_first_of set (s ++ c ∷ t) ≡ some (length s)
unfolding find_first_of
find_first_of-append set s c t h e = find_by-append (λ x. has x set) s c t h e

-- Behind one blank the next word begins.
find_first_not_of-word :
    (w t : Text)
    → is_empty w ≡ false
    → LacksAll blanks w
    → find_first_not_of blanks (b' ' ∷ (w ++ t)) ≡ some 1
unfolding find_first_not_of find_by has
find_first_not_of-word [] t e h = cc
find_first_not_of-word (x ∷ xs) t e h = ground (arith, h.0)

from_pos_at :
    (search_in : Text → Option ℕ) (t pre suf : Text) (k n : ℕ)
    → t ≡ pre ++ suf
    → search_in suf ≡ some k
    → length pre + k ≡ n
    → from_pos search_in (length pre) t ≡ some n
from_pos_at search_in t pre suf k n e f g = rw (e, drop-append_length pre suf, f) (ap some g)

get_or-append : (pre : Text) (c : ℕ) (suf : Text) → get_or (pre ++ c ∷ suf) (length pre) 0 ≡ c
get_or-append [] c suf = refl
get_or-append (x ∷ xs) c suf = get_or-append xs c suf

drop_at : (t pre suf : Text) → t ≡ pre ++ suf → drop (length pre) t ≡ suf
drop_at t pre suf e = rw (e, drop-append_length pre suf) refl

-- The parameter of USER as a client writes it.
abbrev pub user_line : Text → Text → Text → Text → Text
user_line name mode host realname = name ++ b' ' ∷ (mode ++ b' ' ∷ (host ++ b' ' ∷ b':' ∷ realname))

-- Words that can be told apart in it.
pub record AreWords (name mode host realname : Text) : Type 0 where
  pub name_given : is_empty name ≡ false
  pub mode_given : is_empty mode ≡ false
  pub host_given : is_empty host ≡ false
  pub realname_given : is_empty realname ≡ false
  pub name_word : LacksAll blanks name
  pub mode_word : LacksAll blanks mode
  pub host_word : LacksAll (codes ": \t") host

module _ (name mode host realname : Text) (w : AreWords name mode host realname) where
  abbrev line : Text
  line = user_line name mode host realname

  abbrev space : Text
  space = b' ' ∷ []

  abbrev at_mode : Text
  at_mode = name ++ space

  abbrev at_mode_end : Text
  at_mode_end = at_mode ++ mode

  abbrev at_host : Text
  at_host = at_mode_end ++ space

  abbrev at_host_end : Text
  at_host_end = at_host ++ host

  abbrev at_realname : Text
  at_realname = at_host_end ++ space

  from_mode : line ≡ at_mode ++ (mode ++ b' ' ∷ (host ++ b' ' ∷ b':' ∷ realname))
  from_mode = simp append_assoc

  from_mode_end : line ≡ at_mode_end ++ b' ' ∷ (host ++ b' ' ∷ b':' ∷ realname)
  from_mode_end = simp append_assoc

  from_host : line ≡ at_host ++ (host ++ b' ' ∷ b':' ∷ realname)
  from_host = simp append_assoc

  from_host_end : line ≡ at_host_end ++ b' ' ∷ b':' ∷ realname
  from_host_end = simp append_assoc

  from_realname : line ≡ at_realname ++ b':' ∷ realname
  from_realname = simp append_assoc

  from_text : line ≡ (at_realname ++ b':' ∷ []) ++ realname
  from_text = simp append_assoc

  host_blanks : (t : Text) → LacksAll (codes ": \t") t → LacksAll blanks t
  unfolding has
  host_blanks [] h = tt
  host_blanks (x ∷ xs) h = (ground (arith, h.0), host_blanks xs h.1)

  mode_starts : from_pos (find_first_not_of blanks) (length name) line ≡ some (length at_mode)
  mode_starts =
      from_pos_at (find_first_not_of blanks) line name _ 1 (length at_mode) refl
        (find_first_not_of-word mode _ w.mode_given w.mode_word)
        (omega (arith, length-append {0} name space))

  mode_ends : from_pos (find_first_of blanks) (length at_mode) line ≡ some (length at_mode_end)
  unfolding has
  mode_ends =
      from_pos_at (find_first_of blanks) line at_mode _ (length mode) (length at_mode_end) from_mode
        (find_first_of-append blanks mode b' ' _ w.mode_word refl)
        (omega (arith, length-append {0} at_mode mode))

  host_starts :
      from_pos (find_first_not_of blanks) (length at_mode_end) line ≡ some (length at_host)
  host_starts =
      from_pos_at (find_first_not_of blanks) line at_mode_end _ 1 (length at_host) from_mode_end
        (find_first_not_of-word host _ w.host_given (host_blanks host w.host_word))
        (omega (arith, length-append {0} at_mode_end space))

  host_ends :
      from_pos (find_first_of (codes ": \t")) (length at_host) line ≡ some (length at_host_end)
  unfolding has
  host_ends =
      from_pos_at (find_first_of (codes ": \t")) line at_host _ (length host) (length at_host_end)
        from_host (find_first_of-append (codes ": \t") host b' ' _ w.host_word refl)
        (omega (arith, length-append {0} at_host host))

  realname_starts :
      from_pos (find_first_not_of blanks) (length at_host_end) line ≡ some (length at_realname)
  unfolding has
  realname_starts =
      from_pos_at (find_first_not_of blanks) line at_host_end _ 1 (length at_realname) from_host_end
        (find_first_not_of-word (codes ":") realname refl (refl, tt))
        (omega (arith, length-append {0} at_host_end space))

  host_taken : take (length at_host_end - length at_host) (drop (length at_host) line) ≡ host
  host_taken =
      ap (take (length at_host_end - length at_host)) (drop_at line at_host _ from_host)
      ∙ ap (λ (n : ℕ). take n (host ++ b' ' ∷ b':' ∷ realname))
          (omega (arith, length-append {0} at_host host))
      ∙ take-append_length host _

  realname_taken : drop (suc (length at_realname)) line ≡ realname
  realname_taken =
      ap (λ (n : ℕ). drop n line) {x = suc (length at_realname)}
        (omega (arith, length-append {0} at_realname (b':' ∷ [])))
      ∙ drop_at line (at_realname ++ b':' ∷ []) realname from_text

  realname_marked : get_or line (length at_realname) 0 ≡ b':'
  realname_marked =
      ap (λ (t : Text). get_or t (length at_realname) 0) from_realname
      ∙ get_or-append at_realname b':' realname

  -- The parameter of USER is read as it is written, the name, the host and the real name, where it is
  -- four texts that are not empty, one space apart, the last behind a colon, the first two hold no
  -- space or tab, and the host holds no space, tab or colon.
  pub get_correct_user_params-line :
      get_correct_user_params line
      ≡ some (record { username = name; host = host; realname = realname })
  unfolding get_correct_user_params Option.bind
  get_correct_user_params-line =
      rw (name_ends, mode_starts, mode_ends, host_starts, host_ends, realname_starts)
        (rw (take-append_length name, host_taken) read)
    where
      name_ends : find_first_of blanks line ≡ some (length name)
      name_ends = find_first_of-append blanks name b' ' _ w.name_word (unfold has in refl)

      read :
          real_name line name host (length at_realname)
          ≡ some (record { username = name; host = host; realname = realname })
      read = ground (arith, realname_marked, realname_taken, w.name_given, w.realname_given)
