-- ===== src/Message/Fill.antt =====
-- The loop that fills slots, against a reply given by its parts.
use ft_irc_duck.Base.{
  ℕ, suc, ◌-◌, ◌≤◌, true, List, [], ◌∷◌, ◌++◌, ◌≡◌, refl, ◌∙◌, arith, length, append_assoc,
  append-nil, All, ok, fault, end_iterator,
}
use ft_irc_duck.Text.{Text, has}
use ft_irc_duck.Text.Equality.{has-append_left, has-append_right}
use ft_irc_duck.Reply.Shape.{Piece, lit, slot, slot_text, render}
use ft_irc_duck.Message.{fill_slots}
use ft_irc_duck.Message.Replace.{IsClean, IsClean-nil, IsClean-append, has_slot, replace_slot}

abbrev pub slots : List Piece → ℕ
slots [] = 0
slots (lit t ∷ ps) = slots ps
slots (slot name ∷ ps) = suc (slots ps)

abbrev piece_text : Piece → Text
piece_text (lit t) = t
piece_text (slot name) = name

abbrev pub ArePiecesClean : List Piece → Type 0
ArePiecesClean = All λ p. IsClean (piece_text p)

-- The text with its slots filled, and the values that are left.
abbrev pub filled : List Piece → List Text → Text
filled [] values = []
filled (lit t ∷ ps) values = t ++ filled ps values
filled (slot name ∷ ps) [] = filled ps []
filled (slot name ∷ ps) (v ∷ values) = v ++ filled ps values

abbrev pub unused : List Piece → List Text → List Text
unused [] values = values
unused (lit t ∷ ps) values = unused ps values
unused (slot name ∷ ps) [] = []
unused (slot name ∷ ps) (v ∷ values) = unused ps values

pub length-unused :
    (ps : List Piece) (values : List Text) → length (unused ps values) ≡ length values - slots ps
length-unused [] values = omega arith
length-unused (lit t ∷ ps) values = length-unused ps values
length-unused (slot name ∷ ps) [] = omega arith
length-unused (slot name ∷ ps) (v ∷ values) = omega (arith, length-unused ps values)

pub unused-IsClean :
    (ps : List Piece) (values : List Text) → All IsClean values → All IsClean (unused ps values)
unused-IsClean [] values cv = cv
unused-IsClean (lit t ∷ ps) values cv = unused-IsClean ps values cv
unused-IsClean (slot name ∷ ps) [] cv = tt
unused-IsClean (slot name ∷ ps) (v ∷ values) cv = unused-IsClean ps values cv.1

pub filled-IsClean :
    (ps : List Piece) (values : List Text)
    → ArePiecesClean ps
    → All IsClean values
    → IsClean (filled ps values)
filled-IsClean [] values cp cv = IsClean-nil
filled-IsClean (lit t ∷ ps) values cp cv =
    IsClean-append t (filled ps values) cp.0 (filled-IsClean ps values cp.1 cv)
filled-IsClean (slot name ∷ ps) [] cp cv = filled-IsClean ps [] cp.1 tt
filled-IsClean (slot name ∷ ps) (v ∷ values) cp cv =
    IsClean-append v (filled ps values) cv.0 (filled-IsClean ps values cp.1 cv.1)

fill_slots_clean :
    (t : Text) (values : List Text) → IsClean t → fill_slots t values ≡ ok (t, values)
unfolding fill_slots
fill_slots_clean t [] c = rw c.no_open
fill_slots_clean t (v ∷ values) c = rw c.no_open

fill_slots_step :
    (acc name rest v : Text) (values : List Text)
    → IsClean acc
    → IsClean name
    → fill_slots (acc ++ slot_text name rest) (v ∷ values) ≡ fill_slots (acc ++ (v ++ rest)) values
unfolding fill_slots
fill_slots_step acc name rest v values ca cn =
    rw (has_slot acc (name ++ b'>' ∷ rest), replace_slot acc name rest v ca cn) refl

-- Behind clean text, clean values fill the slots in order.
pub fill_slots-filled :
    (acc : Text) (ps : List Piece) (values : List Text)
    → IsClean acc
    → ArePiecesClean ps
    → All IsClean values
    → slots ps ≤ length values
    → fill_slots (acc ++ render ps) values ≡ ok (acc ++ filled ps values, unused ps values)
unfolding render
fill_slots-filled acc [] values ca cp cv n = rw append-nil (fill_slots_clean acc values ca)
fill_slots-filled acc (lit t ∷ ps) values ca cp cv n =
    rw (← append_assoc acc t (render ps), ← append_assoc acc t (filled ps values))
      (fill_slots-filled (acc ++ t) ps values (IsClean-append acc t ca cp.0) cp.1 cv n)
fill_slots-filled acc (slot name ∷ ps) [] ca cp cv n = absurd (omega arith)
fill_slots-filled acc (slot name ∷ ps) (v ∷ values) ca cp cv n =
    fill_slots_step acc name (render ps) v values ca cp.0
    ∙ rw (← append_assoc acc v (render ps), ← append_assoc acc v (filled ps values))
        (fill_slots-filled (acc ++ v) ps values (IsClean-append acc v ca cv.0) cp.1 cv.1
          (omega arith))

-- With fewer values than slots the loop runs past the last value.
pub fill_slots_short :
    (acc : Text) (ps : List Piece) (values : List Text)
    → IsClean acc
    → ArePiecesClean ps
    → All IsClean values
    → suc (length values) ≤ slots ps
    → fill_slots (acc ++ render ps) values ≡ fault end_iterator
unfolding render
fill_slots_short acc [] values ca cp cv n = absurd (omega arith)
fill_slots_short acc (lit t ∷ ps) values ca cp cv n =
    rw (← append_assoc acc t (render ps))
      (fill_slots_short (acc ++ t) ps values (IsClean-append acc t ca cp.0) cp.1 cv n)
fill_slots_short acc (slot name ∷ ps) [] ca cp cv n =
    unfold fill_slots in rw (has_slot acc (name ++ b'>' ∷ render ps)) refl
fill_slots_short acc (slot name ∷ ps) (v ∷ values) ca cp cv n =
    fill_slots_step acc name (render ps) v values ca cp.0
    ∙ rw (← append_assoc acc v (render ps)) (
        fill_slots_short (acc ++ v) ps values (IsClean-append acc v ca cv.0) cp.1 cv.1
          (omega arith))

-- A last value with an opening bracket is taken for another slot.
pub fill_slots_bracket :
    (acc : Text) (ps : List Piece) (values : List Text) (last : Text)
    → IsClean acc
    → ArePiecesClean ps
    → All IsClean values
    → has b'<' last ≡ true
    → slots ps ≡ suc (length values)
    → fill_slots (acc ++ render ps) (values ++ last ∷ []) ≡ fault end_iterator
unfolding render
fill_slots_bracket acc [] values last ca cp cv h n = absurd (omega arith)
fill_slots_bracket acc (lit t ∷ ps) values last ca cp cv h n =
    rw (← append_assoc acc t (render ps))
      (fill_slots_bracket (acc ++ t) ps values last (IsClean-append acc t ca cp.0) cp.1 cv h n)
fill_slots_bracket acc (slot name ∷ ps) [] last ca cp cv h n =
    fill_slots_step acc name (render ps) last [] ca cp.0
    ∙ unfold fill_slots in
      rw (has-append_right b'<' acc _ (has-append_left b'<' last (render ps) h)) refl
fill_slots_bracket acc (slot name ∷ ps) (v ∷ values) last ca cp cv h n =
    fill_slots_step acc name (render ps) v (values ++ last ∷ []) ca cp.0
    ∙ rw (← append_assoc acc v (render ps)) (
        fill_slots_bracket (acc ++ v) ps values last (IsClean-append acc v ca cv.0) cp.1 cv.1 h
          (omega arith))
