-- ===== src/Message/Replace.antt =====
-- One replacement of a slot, in a text that is clean before it.
use ft_irc_duck.Base.{
  ℕ, ◌+◌, true, false, some, [], ◌∷◌, ◌++◌, ◌≡◌, refl, sym, ap, ◌∙◌, arith, length, drop,
  length-append, take-append_length, drop-length_add, append_assoc, ok,
}
use ft_irc_duck.Text.{Text, has, find}
use ft_irc_duck.Text.Equality.{find-append, has-append}
use native.Mathlib.Nat.{add-suc}
use ft_irc_duck.Reply.Shape.{slot_text}
use ft_irc_duck.Message.{replace_rpl_err_text, cut_size}

-- No angle bracket stands in the text.
pub record IsClean (t : Text) : Type 0 where
  pub no_open : has b'<' t ≡ false
  pub no_close : has b'>' t ≡ false

pub IsClean-nil : IsClean []
unfolding has
IsClean-nil = record { no_open = refl; no_close = refl }

pub IsClean-append : (s t : Text) → IsClean s → IsClean t → IsClean (s ++ t)
IsClean-append s t cs ct = record {
  no_open = has-append b'<' s t cs.no_open ct.no_open;
  no_close = has-append b'>' s t cs.no_close ct.no_close;
}

pub has_slot : (pre rest : Text) → has b'<' (pre ++ b'<' ∷ rest) ≡ true
unfolding has
has_slot [] rest = refl
has_slot (x ∷ xs) rest = ground (arith, has_slot xs rest)

has_name : (name : Text) → has b'>' name ≡ false → has b'>' (b'<' ∷ name) ≡ false
unfolding has
has_name name h = h

cut_size_slot :
    (pre name post : Text)
    → IsClean pre
    → IsClean name
    → cut_size (pre ++ slot_text name post) (length pre) ≡ length name + 2
unfolding cut_size
cut_size_slot pre name post cp cn =
    rw (found, cut_size) (ground (arith, length-append pre (b'<' ∷ name)))
  where
    found : find b'>' (pre ++ slot_text name post) ≡ some (length (pre ++ b'<' ∷ name))
    found =
        ap (find b'>') (sym (append_assoc pre (b'<' ∷ name) (b'>' ∷ post)))
        ∙ find-append b'>' (pre ++ b'<' ∷ name) post
            (has-append b'>' pre (b'<' ∷ name) cp.no_close (has_name name cn.no_close))

drop_slot :
    (pre name post : Text)
    → drop (length pre + (length name + 2)) (pre ++ slot_text name post) ≡ post
drop_slot pre name post =
    drop-length_add pre (slot_text name post) (length name + 2)
    ∙ ap (λ (n : ℕ). drop n (slot_text name post)) (add-suc (length name) 1)
    ∙ drop-length_add name (b'>' ∷ post) 1

pub replace_slot :
    (pre name post value : Text)
    → IsClean pre
    → IsClean name
    → replace_rpl_err_text (pre ++ slot_text name post) value ≡ ok (pre ++ (value ++ post))
unfolding replace_rpl_err_text
replace_slot pre name post value cp cn =
    rw (find-append b'<' pre (name ++ b'>' ∷ post) cp.no_open, replace_rpl_err_text)
      (rw (cut_size_slot pre name post cp cn, drop_slot pre name post, take-append_length) refl)
