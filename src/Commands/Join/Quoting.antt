-- ===== src/Commands/Join/Quoting.antt =====
-- The replies and values of Join::new_chan_member_sucess, as shapes with slots.
use ft_irc_duck.Base.{
  ℕ, ◌+◌, Bool, true, false, List, [], ◌∷◌, ◌++◌, map, ◌≡◌, refl, arith, length, All, is_empty,
  length-append, Bool-cases, inl, inr,
}
use ft_irc_duck.Text.{Text, codes, has}
use ft_irc_duck.Map.{fd_key}
use ft_irc_duck.Reply.{template, rpl_join, rpl_topic, rpl_topicwhotime, rpl_endofnames}
use ft_irc_duck.Reply.Shape.Rendering.{template-shape}
use ft_irc_duck.Reply.Shape.{Shape, shape, render_shape}
use ft_irc_duck.Channel.{Channel}
use ft_irc_duck.Message.Replace.{IsClean}
use ft_irc_duck.Message.Format.{IsWellFormed, all_slots}
use ft_irc_duck.Message.Templates.{shape-IsWellFormed}
use ft_irc_duck.Commands.Join.{topic_replies, topic_values}
use ft_irc_duck.Commands.Join.Names.{names_shape, names_shape-IsWellFormed, names_shape-slots}

-- What a channel's replies quote.
pub record IsChannelClean (name : Text) (c : Channel) : Type 0 where
  pub name_clean : IsClean name
  pub topic_clean : IsClean c.topic
  pub author_clean : IsClean c.topic_author
  pub date_clean : IsClean c.topic_date

abbrev topic_shapes : Bool → List Shape
topic_shapes true = []
topic_shapes false = shape rpl_topic ∷ shape rpl_topicwhotime ∷ []

abbrev pub all_shapes : Channel → ℕ → List Shape
all_shapes c more =
    shape rpl_join
    ∷ (topic_shapes (is_empty c.topic) ++ (names_shape more ∷ shape rpl_endofnames ∷ []))

abbrev pub all_values : Text → Channel → List Text → List Text
all_values name c names = name ∷ (topic_values name c ++ (codes "=" ∷ name ∷ (names ++ name ∷ [])))

length-topic_shapes :
    (name : Text) (c : Channel)
    → all_slots (topic_shapes (is_empty c.topic)) ≡ length (topic_values name c)
unfolding shape
length-topic_shapes name c = ground arith

all_slots-append : (xs ys : List Shape) → all_slots (xs ++ ys) ≡ all_slots xs + all_slots ys
all_slots-append [] ys = omega arith
all_slots-append (x ∷ xs) ys = omega (arith, all_slots-append xs ys)

pub all_shapes-slots :
    (name : Text) (c : Channel) (more : ℕ)
    → all_slots (all_shapes c more) ≡ more + 5 + length (topic_values name c)
unfolding shape
all_shapes-slots name c more = omega (
  arith,
  all_slots-append (topic_shapes (is_empty c.topic)) (names_shape more ∷ shape rpl_endofnames ∷ []),
  length-topic_shapes name c,
  names_shape-slots more,
)

pub length-all_values :
    (name : Text) (c : Channel) (names : List Text)
    → length (all_values name c names) ≡ length names + 4 + length (topic_values name c)
length-all_values name c names = omega (
  arith,
  length-append {0} (topic_values name c) (codes "=" ∷ name ∷ (names ++ name ∷ [])),
  length-append {0} names (name ∷ []),
)

append-All : (xs ys : List Text) → All IsClean xs → All IsClean ys → All IsClean (xs ++ ys)
append-All [] ys h k = k
append-All (x ∷ xs) ys h k = (h.0, append-All xs ys h.1 k)

equals_sign : IsClean (codes "=")
unfolding has
equals_sign = record { no_open = refl; no_close = refl }

topic_values-clean :
    (name : Text) (c : Channel) → IsChannelClean name c → All IsClean (topic_values name c)
topic_values-clean name c k = elim (Bool-cases (is_empty c.topic)) [
  | inl e ↦ rw e tt
  | inr e ↦
      rw e (k.name_clean, (k.topic_clean, (k.name_clean, (k.author_clean, (k.date_clean, tt)))))
]

pub all_values-clean :
    (name : Text) (c : Channel) (names : List Text)
    → IsChannelClean name c
    → All IsClean names
    → All IsClean (all_values name c names)
all_values-clean name c names k cn = (
  k.name_clean,
  append-All (topic_values name c) _ (topic_values-clean name c k)
      (equals_sign, (k.name_clean, append-All names (name ∷ []) cn (k.name_clean, tt))),
)

pub all_shapes-well : (c : Channel) (more : ℕ) → All IsWellFormed (all_shapes c more)
all_shapes-well c more = elim (Bool-cases (is_empty c.topic)) [
  | inl e ↦ rw e (
    shape-IsWellFormed rpl_join,
    (names_shape-IsWellFormed more, (shape-IsWellFormed rpl_endofnames, tt)),
  )
  | inr e ↦ rw e (
    shape-IsWellFormed rpl_join,
    (
      shape-IsWellFormed rpl_topic,
      (
        shape-IsWellFormed rpl_topicwhotime,
        (names_shape-IsWellFormed more, (shape-IsWellFormed rpl_endofnames, tt)),
      ),
    ),
  )
]

-- The replies of the program are those of the shapes.
pub all_shapes-templates :
    (c : Channel) (more : ℕ)
    → template rpl_join
        ∷ (topic_replies c ++ (render_shape (names_shape more) ∷ template rpl_endofnames ∷ []))
      ≡ map render_shape (all_shapes c more)
all_shapes-templates c more = elim (Bool-cases (is_empty c.topic)) [
  | inl e ↦ rw (e, template-shape rpl_join, template-shape rpl_endofnames) refl
  | inr e ↦
      rw
        (
          e,
          template-shape rpl_join,
          template-shape rpl_topic,
          template-shape rpl_topicwhotime,
          template-shape rpl_endofnames,
        )
        refl
]
