-- ===== src/Reply/Shape/Rendering.antt =====
-- The texts of srcs/define.hpp are those of their shapes.
use ft_irc_duck.Reply.Shape.{shape, render_shape}
use ft_irc_duck.Base.{◌≡◌, refl}
use ft_irc_duck.Reply.{Reply, template}

-- The replies of the program are these shapes, written out.
pub template-shape : (r : Reply) → template r ≡ render_shape (shape r)
unfolding template render_shape shape
template-shape Reply.rpl_welcome = refl
template-shape Reply.rpl_yourhost = refl
template-shape Reply.rpl_created = refl
template-shape Reply.rpl_myinfo = refl
template-shape Reply.rpl_isupport = refl
template-shape Reply.rpl_umodeis = refl
template-shape Reply.rpl_endofwho = refl
template-shape Reply.rpl_channelmodeis = refl
template-shape Reply.rpl_creationtime = refl
template-shape Reply.rpl_topic = refl
template-shape Reply.rpl_topicwhotime = refl
template-shape Reply.rpl_inviting = refl
template-shape Reply.rpl_namreply = refl
template-shape Reply.rpl_endofnames = refl
template-shape Reply.rpl_endofbanlist = refl
template-shape Reply.rpl_youreoper = refl
template-shape Reply.err_toomanyparam = refl
template-shape Reply.err_nosuchnick = refl
template-shape Reply.err_nosuchchannel = refl
template-shape Reply.err_cannotsendtochan = refl
template-shape Reply.err_notexttosend = refl
template-shape Reply.err_nonicknamegiven = refl
template-shape Reply.err_erroneusnickname = refl
template-shape Reply.err_nicknameinuse = refl
template-shape Reply.err_usernotinchannel = refl
template-shape Reply.err_notonchannel = refl
template-shape Reply.err_useronchannel = refl
template-shape Reply.err_notregistered = refl
template-shape Reply.err_needmoreparams = refl
template-shape Reply.err_alreadyregistred = refl
template-shape Reply.err_passwdmismatch = refl
template-shape Reply.err_channelisfull = refl
template-shape Reply.err_inviteonlychan = refl
template-shape Reply.err_badchannelkey = refl
template-shape Reply.err_noprivileges = refl
template-shape Reply.err_chanoprivsneeded = refl
template-shape Reply.err_umodeunknownmodeflag = refl
template-shape Reply.err_usersdontmatch = refl
template-shape Reply.rpl_privmsg = refl
template-shape Reply.rpl_join = refl
template-shape Reply.rpl_part = refl
template-shape Reply.rpl_invite = refl
template-shape Reply.rpl_kick = refl
template-shape Reply.rpl_error = refl
template-shape Reply.rpl_quit = refl
template-shape Reply.rpl_clientleft = refl
template-shape Reply.rpl_changemode = refl
template-shape Reply.rpl_yourechanop = refl
template-shape Reply.err_nosuchoper = refl
template-shape Reply.err_modebadformat = refl
