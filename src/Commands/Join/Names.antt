-- ===== src/Commands/Join/Names.antt =====
-- The list of names that Join::new_chan_member_sucess sends.
use ft_irc_duck.Base.{
  ℕ, zero, suc, ◌+◌, ◌-◌, false, List, [], ◌∷◌, ◌++◌, ◌≡◌, refl, ◌∙◌, ap, sym, arith, length, ok,
  append_assoc, take-append_length, drop-length_add,
}
use ft_irc_duck.Text.{Text, codes, has, find}
use ft_irc_duck.Text.Equality.{find-append, has-append}
use ft_irc_duck.Reply.{template, rpl_namreply}
use ft_irc_duck.Reply.Shape.{Piece, lit, slot, Shape, render, render_shape}
use ft_irc_duck.Message.{repeat, erase_at, reply_replace_curly_brackets}
use native.Mathlib.Numerals.{add-one}
use ft_irc_duck.Message.Fill.{slots, ArePiecesClean}
use ft_irc_duck.Message.Format.{IsWellFormed}

-- RPL_NAMREPLY with one nickname and more.
abbrev more_names : ℕ → List Piece
more_names zero = lit (codes "\r\n") ∷ []
more_names (suc more) = lit (codes " ") ∷ slot (codes "nick") ∷ more_names more

abbrev pub names_shape : ℕ → Shape
names_shape more = record {
  opening = codes "353 ";
  first = codes "client";
  is_custom = false;
  body =
      lit (codes " ")
      ∷ slot (codes "symbol")
      ∷ lit (codes " ")
      ∷ slot (codes "channel")
      ∷ lit (codes " :")
      ∷ slot (codes "nick")
      ∷ more_names more;
}

abbrev names_start : Text
names_start = codes "353 <client> <symbol> <channel> :<nick>"

render-more_names :
    (more : ℕ) → repeat more (codes " <nick>") ++ codes "\r\n" ≡ render (more_names more)
unfolding render
render-more_names zero = refl
render-more_names (suc more) =
    append_assoc {0} (codes " <nick>") (repeat more (codes " <nick>")) (codes "\r\n")
    ∙ ap (λ (t : Text). codes " <nick>" ++ t) (render-more_names more)

repeat_lacks : (more : ℕ) → has b'}' (repeat more (codes " <nick>")) ≡ false
unfolding has
repeat_lacks zero = refl
repeat_lacks (suc more) =
    has-append b'}' (codes " <nick>") (repeat more (codes " <nick>")) refl (repeat_lacks more)

erase_marked :
    (s r : Text)
    → has b'}' s ≡ false
    → erase_at (find b'}' (s ++ b'}' ∷ r)) (s ++ b'}' ∷ r) ≡ ok (s ++ r)
unfolding erase_at
erase_marked s r h =
    rw (find-append b'}' s r h, erase_at)
      (rw (take-append_length, ← add-one (length s), drop-length_add s (b'}' ∷ r) 1) refl)

abbrev opened : ℕ → Text
opened more = names_start ++ (repeat more (codes " <nick>") ++ codes "}\r\n")

curly_opened :
    (more : ℕ)
    → reply_replace_curly_brackets (template rpl_namreply) (suc more)
      ≡ erase_at (find b'}' (opened (suc more - 1))) (opened (suc more - 1))
unfolding reply_replace_curly_brackets template find
curly_opened more = refl

names_start-lacks : has b'}' names_start ≡ false
unfolding has
names_start-lacks = refl

-- RPL_NAMREPLY is written for any number of names.
pub curly_names :
    (more : ℕ)
    → reply_replace_curly_brackets (template rpl_namreply) (suc more)
      ≡ ok (render_shape (names_shape more))
unfolding render_shape
curly_names more =
    curly_opened more
    ∙ ap (λ (n : ℕ). erase_at (find b'}' (opened n)) (opened n)) (omega arith)
    ∙ ap (λ (t : Text). erase_at (find b'}' t) t)
        (sym (append_assoc {0} names_start (repeat more (codes " <nick>")) (codes "}\r\n")))
    ∙ erase_marked (names_start ++ repeat more (codes " <nick>")) (codes "\r\n") (
        has-append b'}' names_start (repeat more (codes " <nick>")) names_start-lacks
          (repeat_lacks more))
    ∙ ap ok (append_assoc {0} names_start (repeat more (codes " <nick>")) (codes "\r\n"))
    ∙ ap (λ (t : Text). ok (names_start ++ t)) (render-more_names more)

more_names-slots : (more : ℕ) → slots (more_names more) ≡ more
more_names-slots zero = refl
more_names-slots (suc more) = omega (arith, more_names-slots more)

more_names-ArePiecesClean : (more : ℕ) → ArePiecesClean (more_names more)
unfolding has
more_names-ArePiecesClean zero = (record { no_open = refl; no_close = refl }, tt)
more_names-ArePiecesClean (suc more) = (
  record { no_open = refl; no_close = refl },
  (record { no_open = refl; no_close = refl }, more_names-ArePiecesClean more),
)

pub names_shape-IsWellFormed : (more : ℕ) → IsWellFormed (names_shape more)
unfolding has render_shape render
names_shape-IsWellFormed more = record {
  opening_clean = record { no_open = refl; no_close = refl };
  first_clean = record { no_open = refl; no_close = refl };
  body_clean = (
    record { no_open = refl; no_close = refl },
    (
      record { no_open = refl; no_close = refl },
      (
        record { no_open = refl; no_close = refl },
        (
          record { no_open = refl; no_close = refl },
          (
            record { no_open = refl; no_close = refl },
            (record { no_open = refl; no_close = refl }, more_names-ArePiecesClean more),
          ),
        ),
      ),
    ),
  );
  told_apart = refl;
}

pub names_shape-slots : (more : ℕ) → slots (names_shape more).body ≡ more + 3
names_shape-slots more = omega (arith, more_names-slots more)
