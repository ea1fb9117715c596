-- ===== src/Message/Short.antt =====
-- The vector form of reply_format with fewer values than slots.
use ft_irc_duck.Base.{
  suc, ◌≤◌, none, List, [], ◌∷◌, ◌++◌, map, ◌≡◌, refl, arith, length, leb, All, fault, end_iterator,
  Bool-cases, inl, inr,
}
use ft_irc_duck.Text.{Text}
use ft_irc_duck.Reply.Shape.{Shape, render_shape}
use ft_irc_duck.Message.{Message, append_replies, reply_format_all}
use ft_irc_duck.Message.Replace.{IsClean, IsClean-nil, IsClean-append}
use ft_irc_duck.Message.Fill.{
  slots, unused, filled-IsClean, unused-IsClean, length-unused, fill_slots-filled, fill_slots_short,
}
use ft_irc_duck.Message.Format.{
  IsWellFormed, IsSenderClean, sender_text, sender_text-IsClean, replace_prefix_filled, all_slots,
}

append_replies_short :
    (m : Message) (acc : Text) (shs : List Shape) (values : List Text)
    → IsSenderClean m
    → IsClean acc
    → All IsWellFormed shs
    → All IsClean values
    → suc (length values) ≤ all_slots shs
    → append_replies m acc (map render_shape shs) values ≡ fault end_iterator
unfolding append_replies
append_replies_short m acc [] values sc ca wf cv n = absurd (omega arith)
append_replies_short m acc (sh ∷ shs) values sc ca wf cv n =
    rw (replace_prefix_filled m sh wf.0 sc acc ca none sc.nick_clean)
      (elim (Bool-cases (leb (slots sh.body) (length values))) [
        | inl e ↦
            rw (fill_slots-filled _ sh.body values started wf.0.body_clean cv (ground (arith, e))) (
              append_replies_short m _ shs (unused sh.body values) sc
                (IsClean-append _ _ started (filled-IsClean sh.body values wf.0.body_clean cv)) wf.1
                (unused-IsClean sh.body values cv)
                (ground (arith, e, length-unused sh.body values)))
        | inr e ↦
            rw (fill_slots_short _ sh.body values started wf.0.body_clean cv (ground (arith, e)))
              refl
      ])
  where
    started : IsClean (acc ++ (sh.opening ++ sender_text sh m.emitter_nick m))
    started =
        IsClean-append acc _ ca
          (IsClean-append sh.opening _ wf.0.opening_clean (sender_text-IsClean sh m sc))

-- With fewer values than the replies have slots, it reads behind the last value.
pub reply_format_all_short :
    (m : Message) (shs : List Shape) (values : List Text)
    → IsSenderClean m
    → All IsWellFormed shs
    → All IsClean values
    → suc (length values) ≤ all_slots shs
    → reply_format_all m (map render_shape shs) values ≡ fault end_iterator
unfolding reply_format_all
reply_format_all_short m shs values sc wf cv n =
    rw (append_replies_short m [] shs values sc IsClean-nil wf cv n) refl
