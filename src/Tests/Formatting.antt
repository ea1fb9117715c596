-- ===== src/Tests/Formatting.antt =====
-- Formatting and splitting at concrete inputs.
use ft_irc_duck.Base.{[], ◌∷◌, ◌≡◌, refl, ok, fault, end_iterator, arith, map}
use ft_irc_duck.Text.{codes, has}
use ft_irc_duck.Reply.{template, rpl_inviting, rpl_kick}
use ft_irc_duck.Reply.Shape.{shape}
use ft_irc_duck.Message.{Message, reply_format_all}
use ft_irc_duck.Message.Format.{IsSenderClean}
use ft_irc_duck.Message.Templates.{is_clean_sound, is_clean, reply_format_all-templates}
use ft_irc_duck.Commands.Privmsg.{privmsg_text}
use ft_irc_duck.Commands.Privmsg.Bracket.{privmsg_text_bracket}
use ft_irc_duck.Tests.Samples.{alice, line_of}

abbrev message : Message
message = line_of alice []

sender_clean : IsSenderClean message
unfolding is_clean has
sender_clean = record {
  nick_clean = is_clean_sound (codes "alice") refl;
  user_clean = is_clean_sound (codes "al") refl;
  host_clean = is_clean_sound (codes "home") refl;
}

reply_format_all-templates_example :
    reply_format_all message
      (map template (rpl_inviting ∷ rpl_kick ∷ []))
      (codes "bob" ∷ codes "#duck" ∷ codes "#duck" ∷ codes "bob" ∷ codes "bye" ∷ [])
    ≡ ok (record message {
      target = 4 ∷ [];
      text = codes "341 alice bob #duck\r\n:alice!al@home KICK #duck bob :bye\r\n";
    })
unfolding is_clean has shape
reply_format_all-templates_example =
    reply_format_all-templates message (rpl_inviting ∷ rpl_kick ∷ [])
      (codes "bob" ∷ codes "#duck" ∷ codes "#duck" ∷ codes "bob" ∷ codes "bye" ∷ []) sender_clean
      (
        is_clean_sound (codes "bob") refl,
        (
          is_clean_sound (codes "#duck") refl,
          (
            is_clean_sound (codes "#duck") refl,
            (is_clean_sound (codes "bob") refl, (is_clean_sound (codes "bye") refl, tt)),
          ),
        ),
      )
      (omega arith)

privmsg_text_bracket_example :
    privmsg_text (codes "bob" ∷ []) (codes "I <3 ducks") message ≡ fault end_iterator
unfolding is_clean has
privmsg_text_bracket_example =
    privmsg_text_bracket message (codes "bob") (codes "I <3 ducks") sender_clean
      (is_clean_sound (codes "bob") refl) refl
