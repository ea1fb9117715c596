-- ===== src/Message/Format.antt =====
-- Whole replies, given by their shapes.
use ft_irc_duck.Base.{
  Bool-cases, inl, inr, ℕ, ◌+◌, ◌≤◌, false, Option, none, List, [], ◌∷◌, ◌++◌, map, ◌≡◌, refl, sym,
  ap, ◌∙◌, arith, length, append_assoc, append-nil, All, ok, ◌>>=◌, if◌then◌else◌,
}
use ft_irc_duck.Text.{Text, codes, has}
use ft_irc_duck.Reply.Shape.{slot_text, render, Shape, render_shape, sender_slots}
use ft_irc_duck.Message.{
  Message, replace_rpl_err_text, is_reply_custom, sender_name, replace_prefix, append_replies,
  reply_format_all,
}
use ft_irc_duck.Message.Replace.{IsClean, IsClean-nil, IsClean-append, replace_slot}
use ft_irc_duck.Message.Fill.{
  slots, filled, unused, ArePiecesClean, fill_slots-filled, filled-IsClean, unused-IsClean,
  length-unused,
}

-- The sender as a reply writes it.
abbrev pub sender_text : Shape → Text → Message → Text
sender_text sh name m =
    if sh.is_custom then name ++ (b'!' ∷ m.username ++ (b'@' ∷ m.host)) else name

pub record IsWellFormed (sh : Shape) : Type 0 where
  pub opening_clean : IsClean sh.opening
  pub first_clean : IsClean sh.first
  pub body_clean : ArePiecesClean sh.body
  -- the program tells the two kinds of reply apart by two characters
  pub told_apart : is_reply_custom (render_shape sh) ≡ sh.is_custom

pub record IsSenderClean (m : Message) : Type 0 where
  pub nick_clean : IsClean m.emitter_nick
  pub user_clean : IsClean m.username
  pub host_clean : IsClean m.host

IsClean-char : (c : ℕ) → has b'<' (c ∷ []) ≡ false → has b'>' (c ∷ []) ≡ false → IsClean (c ∷ [])
IsClean-char c h k = record { no_open = h; no_close = k }

-- `!<user>@<host>` behind clean text.
custom_sender :
    (pre rest user host : Text)
    → IsClean pre
    → IsClean user
    → (replace_rpl_err_text (pre ++ (codes "!<user>@<host>" ++ rest)) user >>= λ u.
        replace_rpl_err_text u host)
      ≡ ok (pre ++ ((b'!' ∷ user ++ (b'@' ∷ host)) ++ rest))
unfolding has
custom_sender pre rest user host cp cu =
    ap (λ (t : Text). replace_rpl_err_text t user >>= λ u. replace_rpl_err_text u host)
      (sym (append_assoc pre (b'!' ∷ []) _))
    ∙ rw
        (replace_slot (pre ++ b'!' ∷ []) (codes "user") _ user marked
          (record { no_open = refl; no_close = refl }))
        (ap (λ (t : Text). replace_rpl_err_text t host) regroup
          ∙ replace_slot (((pre ++ b'!' ∷ []) ++ user) ++ b'@' ∷ []) (codes "host") rest host
              (IsClean-append _ (b'@' ∷ []) (IsClean-append _ user marked cu)
                (IsClean-char b'@' refl refl))
              (record { no_open = refl; no_close = refl })
          ∙ ap ok (simp append_assoc))
  where
    marked : IsClean (pre ++ b'!' ∷ [])
    marked = IsClean-append pre (b'!' ∷ []) cp (IsClean-char b'!' refl refl)

    regroup :
        (pre ++ b'!' ∷ []) ++ (user ++ b'@' ∷ slot_text (codes "host") rest)
        ≡ (((pre ++ b'!' ∷ []) ++ user) ++ b'@' ∷ []) ++ slot_text (codes "host") rest
    regroup = simp append_assoc

module _ (m : Message) (sh : Shape) (wf : IsWellFormed sh) (sc : IsSenderClean m) (acc : Text)
    (ca : IsClean acc) where
  opened : IsClean (acc ++ sh.opening)
  opened = IsClean-append acc sh.opening ca wf.opening_clean

  replace_first :
      (name : Text)
      → replace_rpl_err_text (acc ++ render_shape sh) name
        ≡ ok ((acc ++ sh.opening) ++ (name ++ (sender_slots sh.is_custom ++ render sh.body)))
  unfolding render_shape
  replace_first name =
      ap (λ (t : Text). replace_rpl_err_text t name) (sym (append_assoc acc sh.opening _))
      ∙ replace_slot (acc ++ sh.opening) sh.first _ name opened wf.first_clean

  pub replace_prefix_filled :
      (socket : Option ℕ)
      → IsClean (sender_name m socket)
      → replace_prefix m (acc ++ render_shape sh) (render_shape sh) socket
        ≡ ok ((acc ++ (sh.opening ++ sender_text sh (sender_name m socket) m)) ++ render sh.body)
  unfolding replace_prefix
  replace_prefix_filled socket cn =
      rw (replace_first (sender_name m socket), wf.told_apart)
        (elim (Bool-cases sh.is_custom) [
          | inl e ↦ rw e (
              ap
                (λ (t : Text).
                  replace_rpl_err_text t m.username >>= λ u. replace_rpl_err_text u m.host)
                (sym (append_assoc (acc ++ sh.opening) (sender_name m socket) _))
              ∙ custom_sender ((acc ++ sh.opening) ++ sender_name m socket) (render sh.body)
                  m.username m.host (IsClean-append _ (sender_name m socket) opened cn)
                  sc.user_clean
              ∙ ap ok (simp append_assoc))
          | inr e ↦ rw e (ap ok (simp append_assoc))
        ])

-- What a row of replies says, each taking its values from the front.
abbrev pub all_filled : Message → List Shape → List Text → Text
all_filled m [] values = []
all_filled m (sh ∷ shs) values =
    (sh.opening ++ sender_text sh m.emitter_nick m)
    ++ (filled sh.body values ++ all_filled m shs (unused sh.body values))

abbrev pub all_slots : List Shape → ℕ
all_slots [] = 0
all_slots (sh ∷ shs) = slots sh.body + all_slots shs

pub sender_text-IsClean :
    (sh : Shape) (m : Message) → IsSenderClean m → IsClean (sender_text sh m.emitter_nick m)
sender_text-IsClean sh m sc = elim (Bool-cases sh.is_custom) [
  | inl e ↦ rw e (
      IsClean-append m.emitter_nick _ sc.nick_clean (
        IsClean-append (b'!' ∷ []) _ (unfold has in IsClean-char b'!' refl refl) (
          IsClean-append m.username _ sc.user_clean (
            IsClean-append (b'@' ∷ []) m.host (unfold has in IsClean-char b'@' refl refl)
              sc.host_clean))))
  | inr e ↦ rw e sc.nick_clean
]

append_replies_filled :
    (m : Message) (acc : Text) (shs : List Shape) (values : List Text)
    → IsSenderClean m
    → IsClean acc
    → All IsWellFormed shs
    → All IsClean values
    → all_slots shs ≤ length values
    → append_replies m acc (map render_shape shs) values ≡ ok (acc ++ all_filled m shs values)
unfolding append_replies
append_replies_filled m acc [] values sc ca wf cv n = ap ok (sym (append-nil acc))
append_replies_filled m acc (sh ∷ shs) values sc ca wf cv n =
    rw
      (
        replace_prefix_filled m sh wf.0 sc acc ca none sc.nick_clean,
        fill_slots-filled _ sh.body values started wf.0.body_clean cv (omega arith),
      )
      (append_replies_filled m _ shs (unused sh.body values) sc
          (IsClean-append _ _ started (filled-IsClean sh.body values wf.0.body_clean cv)) wf.1
          (unused-IsClean sh.body values cv) (omega (arith, length-unused sh.body values))
        ∙ ap ok (simp append_assoc))
  where
    started : IsClean (acc ++ (sh.opening ++ sender_text sh m.emitter_nick m))
    started =
        IsClean-append acc _ ca
          (IsClean-append sh.opening _ wf.0.opening_clean (sender_text-IsClean sh m sc))

-- A row of well-formed replies, from a sender and with values that hold no angle bracket, is written
-- with every slot replaced by its own value, and goes to the sender alone.
pub reply_format_all-filled :
    (m : Message) (shs : List Shape) (values : List Text)
    → IsSenderClean m
    → All IsWellFormed shs
    → All IsClean values
    → all_slots shs ≤ length values
    → reply_format_all m (map render_shape shs) values
      ≡ ok (record m { target = m.emitter ∷ []; text = all_filled m shs values })
unfolding reply_format_all
reply_format_all-filled m shs values sc wf cv n =
    rw (append_replies_filled m [] shs values sc IsClean-nil wf cv n) refl
