-- ===== src/Commands/Privmsg/Bracket.antt =====
-- A message text that holds `<`.
use ft_irc_duck.Base.{true, none, [], ◌∷◌, ◌++◌, ◌≡◌, refl, arith, ok, fault, end_iterator}
use ft_irc_duck.Text.{Text, codes, has, find}
use ft_irc_duck.Reply.{template, rpl_privmsg}
use ft_irc_duck.Reply.Shape.{lit, slot, Shape, render_shape}
use ft_irc_duck.Message.{Message, reply_replace_curly_brackets, reply_format_all, append_replies}
use ft_irc_duck.Message.Replace.{IsClean, IsClean-nil, IsClean-append}
use ft_irc_duck.Message.Fill.{fill_slots_bracket}
use ft_irc_duck.Message.Format.{
  IsSenderClean, IsWellFormed, replace_prefix_filled, sender_text, sender_text-IsClean,
}
use ft_irc_duck.Commands.Privmsg.{privmsg_text}

-- RPL_PRIVMSG for one target.
abbrev pub one_target : Shape
one_target = record {
  opening = codes ":";
  first = codes "client";
  is_custom = true;
  body =
      lit (codes " PRIVMSG ")
      ∷ slot (codes "target")
      ∷ lit (codes " :")
      ∷ slot (codes "text")
      ∷ lit (codes "\r\n")
      ∷ [];
}

pub curly_one : reply_replace_curly_brackets (template rpl_privmsg) 1 ≡ ok (render_shape one_target)
unfolding reply_replace_curly_brackets template render_shape find
curly_one = refl

pub one_target-IsWellFormed : IsWellFormed one_target
unfolding has render_shape
one_target-IsWellFormed = record {
  opening_clean = record { no_open = refl; no_close = refl };
  first_clean = record { no_open = refl; no_close = refl };
  body_clean = (
    record { no_open = refl; no_close = refl },
    (
      record { no_open = refl; no_close = refl },
      (
        record { no_open = refl; no_close = refl },
        (
          record { no_open = refl; no_close = refl },
          (record { no_open = refl; no_close = refl }, tt),
        ),
      ),
    ),
  );
  told_apart = refl;
}

-- For one target, from a sender whose nickname, username and host hold no angle bracket, as the
-- target holds none, a text with `<` is taken for a reply with one more slot: writing it reads behind
-- the last value.
pub privmsg_text_bracket :
    (m : Message) (name text : Text)
    → IsSenderClean m
    → IsClean name
    → has b'<' text ≡ true
    → privmsg_text (name ∷ []) text m ≡ fault end_iterator
unfolding privmsg_text reply_format_all append_replies
privmsg_text_bracket m name text sc cn h =
    rw
      (
        curly_one,
        replace_prefix_filled m one_target one_target-IsWellFormed sc [] IsClean-nil none
            sc.nick_clean,
        fill_slots_bracket _ one_target.body (name ∷ []) text sent
            one_target-IsWellFormed.body_clean (cn, tt) h (omega arith),
      )
      refl
  where
    sent : IsClean (codes ":" ++ sender_text one_target m.emitter_nick m)
    sent =
        IsClean-append (codes ":") _ one_target-IsWellFormed.opening_clean
          (sender_text-IsClean one_target m sc)
