-- ===== src/Message/Returns.antt =====
-- Replies whose writing meets no fault.
use ft_irc_duck.Base.{
  ℕ, true, false, ◌==◌, Option, some, [], ◌∷◌, ◌++◌, ◌≡◌, refl, arith, ok, Bool-cases,
  Outcome-cases, inl, inr,
}
use ft_irc_duck.Text.{Text, has}
use ft_irc_duck.Text.Equality.{find-ne-none}
use ft_irc_duck.Reply.{Reply, template}
use ft_irc_duck.Reply.Shape.Rendering.{template-shape}
use ft_irc_duck.Reply.Shape.{Shape, shape, render_shape, render}
use ft_irc_duck.Message.{Message, replace_rpl_err_text, replace_prefix, sender_name, reply_format}
use ft_irc_duck.Message.Replace.{replace_slot, IsClean, IsClean-nil}
use ft_irc_duck.Message.Format.{IsWellFormed, IsSenderClean, sender_text, replace_prefix_filled}
use ft_irc_duck.Message.Templates.{shape-IsWellFormed}

pub replace_returns :
    (t v : Text) → has b'<' t ≡ true → (u : Text) × (replace_rpl_err_text t v ≡ ok u)
unfolding replace_rpl_err_text
replace_returns t v h = elim (Outcome-cases (replace_rpl_err_text t v)) [
  | inl r ↦ r
  | inr (f, e) ↦ absurd (ground (arith, e, find-ne-none b'<' t h))
]

-- What the reply is once the sender stands in it.
abbrev started : Shape → Text → Text
started sh name = sh.opening ++ (name ++ render sh.body)

replace_prefix_plain :
    (m : Message) (sh : Shape) (socket : Option ℕ)
    → IsWellFormed sh
    → sh.is_custom ≡ false
    → replace_prefix m (render_shape sh) (render_shape sh) socket
      ≡ ok (started sh (sender_name m socket))
unfolding replace_prefix render_shape
replace_prefix_plain m sh socket wf plain =
    rw
      (
        replace_slot sh.opening sh.first _ (sender_name m socket) wf.opening_clean wf.first_clean,
        wf.told_apart,
        plain,
      )
      refl

-- A reply that names the sender alone is always written, whatever the sender and the value hold.
pub reply_format_returns :
    (m : Message) (r : Reply) (value : Text) (socket : ℕ)
    → (shape r).is_custom ≡ false
    → (u : Text) × (reply_format m (template r) value socket
        ≡ ok (record m { target = m.emitter ∷ []; text = u }))
unfolding reply_format
reply_format_returns m r value socket plain = elim (Bool-cases (has b'<' t)) [
  | inl h ↦
      let (u, e) = replace_returns t value h in (u, rw (template-shape r, prefixed, h, e) refl)
  | inr h ↦ (t, rw (template-shape r, prefixed, h) refl)
]
  where
    t : Text
    t = started (shape r) (sender_name m (some socket))

    prefixed :
        replace_prefix m (render_shape (shape r)) (render_shape (shape r)) (some socket) ≡ ok t
    prefixed = replace_prefix_plain m (shape r) (some socket) (shape-IsWellFormed r) plain

sender_name-IsClean :
    (m : Message) (socket : ℕ) → IsSenderClean m → IsClean (sender_name m (some socket))
unfolding has
sender_name-IsClean m socket sc = elim (Bool-cases (m.emitter == socket)) [
  | inl e ↦ rw e (record { no_open = refl; no_close = refl })
  | inr e ↦ rw e sc.nick_clean
]

-- Any reply is written for a sender without angle brackets, whatever the value holds.
pub reply_format_returns_clean :
    (m : Message) (r : Reply) (value : Text) (socket : ℕ)
    → IsSenderClean m
    → (u : Text) × (reply_format m (template r) value socket
        ≡ ok (record m { target = m.emitter ∷ []; text = u }))
unfolding reply_format
reply_format_returns_clean m r value socket sc = elim (Bool-cases (has b'<' t)) [
  | inl h ↦
      let (u, e) = replace_returns t value h in (u, rw (template-shape r, prefixed, h, e) refl)
  | inr h ↦ (t, rw (template-shape r, prefixed, h) refl)
]
  where
    t : Text
    t =
        ((shape r).opening ++ sender_text (shape r) (sender_name m (some socket)) m)
        ++ render (shape r).body

    prefixed :
        replace_prefix m (render_shape (shape r)) (render_shape (shape r)) (some socket) ≡ ok t
    prefixed =
        replace_prefix_filled m (shape r) (shape-IsWellFormed r) sc [] IsClean-nil (some socket)
          (sender_name-IsClean m socket sc)
