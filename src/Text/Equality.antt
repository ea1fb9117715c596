-- ===== src/Text/Equality.antt =====
-- The test of std::string::operator==, and positions in a text.
use ft_irc_duck.Base.{ℕ, true, false, none, some, [], ◌∷◌, ◌++◌, ◌≡◌, refl, ◌↔◌, ◌≢◌, length, arith}
use ft_irc_duck.Text.{Text, text_eq, has, find_by, find}

text_eq_sound : (s t : Text) → text_eq s t ≡ true → s ≡ t
unfolding text_eq
text_eq_sound [] [] h = refl
text_eq_sound [] (y ∷ ys) h = cc
text_eq_sound (x ∷ xs) [] h = cc
text_eq_sound (x ∷ xs) (y ∷ ys) h = ground (arith, text_eq_sound xs ys)

pub text_eq_refl : (s : Text) → text_eq s s ≡ true
unfolding text_eq
text_eq_refl [] = refl
text_eq_refl (x ∷ xs) = ground (arith, text_eq_refl xs)

pub text_eq_iff : (s t : Text) → (text_eq s t ≡ true) ↔ (s ≡ t)
text_eq_iff s t = (text_eq_sound s t, λ e. rw e (text_eq_refl t))

-- A text without `c` has no position of `c`, and the first `c` after it is found at its end.
pub find-none : (c : ℕ) (t : Text) → has c t ≡ false → find c t ≡ none
unfolding find find_by has
find-none c [] h = refl
find-none c (x ∷ xs) h = ground (arith, find-none c xs)

pub find-append : (c : ℕ) (s t : Text) → has c s ≡ false → find c (s ++ c ∷ t) ≡ some (length s)
unfolding find find_by has
find-append c [] t h = ground arith
find-append c (x ∷ xs) t h = ground (arith, find-append c xs t)

pub find-ne-none : (c : ℕ) (t : Text) → has c t ≡ true → find c t ≢ none
unfolding find find_by has
find-ne-none c [] h = cc
find-ne-none c (x ∷ xs) h = ground (arith, find-ne-none c xs)

pub has-append : (c : ℕ) (s t : Text) → has c s ≡ false → has c t ≡ false → has c (s ++ t) ≡ false
unfolding has
has-append c [] t h k = k
has-append c (x ∷ xs) t h k = ground (arith, has-append c xs t)

pub has-append_left : (c : ℕ) (s t : Text) → has c s ≡ true → has c (s ++ t) ≡ true
unfolding has
has-append_left c [] t h = cc
has-append_left c (x ∷ xs) t h = ground (arith, has-append_left c xs t)

pub has-append_right : (c : ℕ) (s t : Text) → has c t ≡ true → has c (s ++ t) ≡ true
unfolding has
has-append_right c [] t h = h
has-append_right c (x ∷ xs) t h = ground (arith, has-append_right c xs t)

pub text_eq-ne : (s t : Text) → text_eq s t ≡ false → s ≢ t
text_eq-ne s t h e = cc (h, (text_eq_iff s t).1 e)
