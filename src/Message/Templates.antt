-- ===== src/Message/Templates.antt =====
-- The replies of the program, by their shapes, written out by reply_format.
use ft_irc_duck.Base.{
  Bool, true, false, not, ◌&&◌, List, [], ◌∷◌, map, ◌≡◌, refl, ap, ap₂, ◌∙◌, arith, ◌≤◌, length,
  All, ok, xnor,
}
use ft_irc_duck.Text.{Text, has}
use ft_irc_duck.Reply.{Reply, template}
use ft_irc_duck.Reply.Shape.Rendering.{template-shape}
use ft_irc_duck.Reply.Shape.{Piece, lit, slot, Shape, shape, render, render_shape}
use ft_irc_duck.Message.{Message, is_reply_custom, reply_format_all}
use ft_irc_duck.Message.Replace.{IsClean}
use ft_irc_duck.Message.Fill.{ArePiecesClean}
use ft_irc_duck.Message.Format.{
  IsWellFormed, IsSenderClean, all_filled, all_slots, reply_format_all-filled,
}

unfoldable pub is_clean : Text → Bool
is_clean t = not (has b'<' t) && not (has b'>' t)

pub is_clean_sound : (t : Text) → is_clean t ≡ true → IsClean t
unfolding is_clean
is_clean_sound t h = record { no_open = ground (arith, h); no_close = ground (arith, h) }

are_pieces_clean : List Piece → Bool
are_pieces_clean [] = true
are_pieces_clean (lit t ∷ ps) = is_clean t && are_pieces_clean ps
are_pieces_clean (slot name ∷ ps) = is_clean name && are_pieces_clean ps

are_pieces_clean_sound : (ps : List Piece) → are_pieces_clean ps ≡ true → ArePiecesClean ps
unfolding are_pieces_clean
are_pieces_clean_sound [] h = tt
are_pieces_clean_sound (lit t ∷ ps) h =
    (is_clean_sound t (ground (arith, h)), are_pieces_clean_sound ps (ground (arith, h)))
are_pieces_clean_sound (slot name ∷ ps) h =
    (is_clean_sound name (ground (arith, h)), are_pieces_clean_sound ps (ground (arith, h)))

is_well_formed : Shape → Bool
is_well_formed sh =
    is_clean sh.opening
    && (is_clean sh.first
        && (are_pieces_clean sh.body && xnor (is_reply_custom (render_shape sh)) sh.is_custom))

xnor_sound : (a b : Bool) → xnor a b ≡ true → a ≡ b
xnor_sound true b h = ground (arith, h)
xnor_sound false b h = ground (arith, h)

is_well_formed_sound : (sh : Shape) → is_well_formed sh ≡ true → IsWellFormed sh
unfolding is_well_formed
is_well_formed_sound sh h = record {
  opening_clean = is_clean_sound sh.opening (ground (arith, h));
  first_clean = is_clean_sound sh.first (ground (arith, h));
  body_clean = are_pieces_clean_sound sh.body (ground (arith, h));
  told_apart = xnor_sound _ _ (ground (arith, h));
}

shape_check : (r : Reply) → is_well_formed (shape r) ≡ true
unfolding shape is_well_formed are_pieces_clean is_clean has render_shape render
shape_check Reply.rpl_welcome = refl
shape_check Reply.rpl_yourhost = refl
shape_check Reply.rpl_created = refl
shape_check Reply.rpl_myinfo = refl
shape_check Reply.rpl_isupport = refl
shape_check Reply.rpl_umodeis = refl
shape_check Reply.rpl_endofwho = refl
shape_check Reply.rpl_channelmodeis = refl
shape_check Reply.rpl_creationtime = refl
shape_check Reply.rpl_topic = refl
shape_check Reply.rpl_topicwhotime = refl
shape_check Reply.rpl_inviting = refl
shape_check Reply.rpl_namreply = refl
shape_check Reply.rpl_endofnames = refl
shape_check Reply.rpl_endofbanlist = refl
shape_check Reply.rpl_youreoper = refl
shape_check Reply.err_toomanyparam = refl
shape_check Reply.err_nosuchnick = refl
shape_check Reply.err_nosuchchannel = refl
shape_check Reply.err_cannotsendtochan = refl
shape_check Reply.err_notexttosend = refl
shape_check Reply.err_nonicknamegiven = refl
shape_check Reply.err_erroneusnickname = refl
shape_check Reply.err_nicknameinuse = refl
shape_check Reply.err_usernotinchannel = refl
shape_check Reply.err_notonchannel = refl
shape_check Reply.err_useronchannel = refl
shape_check Reply.err_notregistered = refl
shape_check Reply.err_needmoreparams = refl
shape_check Reply.err_alreadyregistred = refl
shape_check Reply.err_passwdmismatch = refl
shape_check Reply.err_channelisfull = refl
shape_check Reply.err_inviteonlychan = refl
shape_check Reply.err_badchannelkey = refl
shape_check Reply.err_noprivileges = refl
shape_check Reply.err_chanoprivsneeded = refl
shape_check Reply.err_umodeunknownmodeflag = refl
shape_check Reply.err_usersdontmatch = refl
shape_check Reply.rpl_privmsg = refl
shape_check Reply.rpl_join = refl
shape_check Reply.rpl_part = refl
shape_check Reply.rpl_invite = refl
shape_check Reply.rpl_kick = refl
shape_check Reply.rpl_error = refl
shape_check Reply.rpl_quit = refl
shape_check Reply.rpl_clientleft = refl
shape_check Reply.rpl_changemode = refl
shape_check Reply.rpl_yourechanop = refl
shape_check Reply.err_nosuchoper = refl
shape_check Reply.err_modebadformat = refl

pub shape-IsWellFormed : (r : Reply) → IsWellFormed (shape r)
shape-IsWellFormed r = is_well_formed_sound (shape r) (shape_check r)

shapes-IsWellFormed : (rs : List Reply) → All IsWellFormed (map shape rs)
shapes-IsWellFormed [] = tt
shapes-IsWellFormed (r ∷ rs) = (shape-IsWellFormed r, shapes-IsWellFormed rs)

templates_shapes : (rs : List Reply) → map template rs ≡ map render_shape (map shape rs)
templates_shapes [] = refl
templates_shapes (r ∷ rs) = ap₂ ◌∷◌ (template-shape r) (templates_shapes rs)

-- Any row of replies of the program, from a sender and with values that hold no angle bracket, is
-- written by the vector form of reply_format with the sender in front of each reply and every slot
-- replaced by its own value, and goes to the sender alone.
pub reply_format_all-templates :
    (m : Message) (rs : List Reply) (values : List Text)
    → IsSenderClean m
    → All IsClean values
    → all_slots (map shape rs) ≤ length values
    → reply_format_all m (map template rs) values
      ≡ ok (record m { target = m.emitter ∷ []; text = all_filled m (map shape rs) values })
reply_format_all-templates m rs values sc cv n =
    ap (λ (ts : List Text). reply_format_all m ts values) (templates_shapes rs)
    ∙ reply_format_all-filled m (map shape rs) values sc (shapes-IsWellFormed rs) cv n
