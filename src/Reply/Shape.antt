-- ===== src/Reply/Shape.antt =====
-- The parts of each reply: the text before its first slot, whether the sender is written as
-- `nick!user@host`, and the text and slots that follow.
pub mod Rendering
use ft_irc_duck.Base.{String, Bool, true, false, List, [], ◌∷◌, ◌++◌, ◌≡◌, refl}
use ft_irc_duck.Text.{Text, codes}
use ft_irc_duck.Reply.{Reply, template}

pub data Piece : Type 0 where
  lit : Text → Piece
  slot : Text → Piece

-- A slot and the text behind it.
abbrev pub slot_text : Text → Text → Text
slot_text name post = b'<' ∷ (name ++ b'>' ∷ post)

unfoldable pub render : List Piece → Text
render [] = []
render (lit t ∷ ps) = t ++ render ps
render (slot name ∷ ps) = slot_text name (render ps)

pub record Shape : Type 0 where
  pub opening : Text
  pub first : Text
  pub is_custom : Bool
  pub body : List Piece

abbrev pub sender_slots : Bool → Text
sender_slots true = codes "!<user>@<host>"
sender_slots false = []

unfoldable pub render_shape : Shape → Text
unfolding render
render_shape sh = sh.opening ++ slot_text sh.first (sender_slots sh.is_custom ++ render sh.body)

shape_of : String → String → Bool → List Piece → Shape
shape_of opening first custom body = record {
  opening = codes opening;
  first = codes first;
  is_custom = custom;
  body = body;
}

unfoldable pub shape : Reply → Shape
unfolding shape_of
shape Reply.rpl_welcome = shape_of "001 " "client" false (
    lit (codes " :Welcome to the Internet Relay Network ")
    ∷ slot (codes "nick")
    ∷ lit (codes "!\r\n")
    ∷ [])
shape Reply.rpl_yourhost = shape_of "002 " "client" false (
    lit (codes " :Your host is ")
    ∷ slot (codes "localhost")
    ∷ lit (codes ", running version 2.31\r\n")
    ∷ [])
shape Reply.rpl_created =
    shape_of "003 " "client" false
      (lit (codes " :This server was created ") ∷ slot (codes "datetime") ∷ lit (codes "\r\n") ∷ [])
shape Reply.rpl_myinfo =
    shape_of "004 " "client" false (lit (codes " ircserv 2.31 NO modes\r\n") ∷ [])
shape Reply.rpl_isupport = shape_of "005 " "client" false (
    lit (codes " ")
    ∷ slot (codes "supported")
    ∷ lit (codes " :are supported by this server\r\n")
    ∷ [])
shape Reply.rpl_umodeis =
    shape_of "221 " "client" false
      (lit (codes " ") ∷ slot (codes "usermodes") ∷ lit (codes "\r\n") ∷ [])
shape Reply.rpl_endofwho =
    shape_of "315 " "client" false
      (lit (codes " ") ∷ slot (codes "mask") ∷ lit (codes " :End of WHO list\r\n") ∷ [])
shape Reply.rpl_channelmodeis = shape_of "324 " "client" false (
    lit (codes " ")
    ∷ slot (codes "channel")
    ∷ lit (codes " ")
    ∷ slot (codes "modestring")
    ∷ lit (codes "\r\n")
    ∷ [])
shape Reply.rpl_creationtime = shape_of "329 " "client" false (
    lit (codes " ")
    ∷ slot (codes "channel")
    ∷ lit (codes " ")
    ∷ slot (codes "creationtime")
    ∷ lit (codes "\r\n")
    ∷ [])
shape Reply.rpl_topic = shape_of "332 " "client" false (
    lit (codes " ")
    ∷ slot (codes "channel")
    ∷ lit (codes " :")
    ∷ slot (codes "topic")
    ∷ lit (codes "\r\n")
    ∷ [])
shape Reply.rpl_topicwhotime = shape_of "333 " "client" false (
    lit (codes " ")
    ∷ slot (codes "channel")
    ∷ lit (codes " ")
    ∷ slot (codes "nick")
    ∷ lit (codes " ")
    ∷ slot (codes "setat")
    ∷ lit (codes "\r\n")
    ∷ [])
shape Reply.rpl_inviting = shape_of "341 " "client" false (
    lit (codes " ")
    ∷ slot (codes "nick")
    ∷ lit (codes " ")
    ∷ slot (codes "channel")
    ∷ lit (codes "\r\n")
    ∷ [])
shape Reply.rpl_namreply = shape_of "353 " "client" false (
    lit (codes " ")
    ∷ slot (codes "symbol")
    ∷ lit (codes " ")
    ∷ slot (codes "channel")
    ∷ lit (codes " :")
    ∷ slot (codes "nick")
    ∷ lit (codes "{ ")
    ∷ slot (codes "nick")
    ∷ lit (codes "}\r\n")
    ∷ [])
shape Reply.rpl_endofnames =
    shape_of "366 " "client" false
      (lit (codes " ") ∷ slot (codes "channel") ∷ lit (codes " :End of /NAMES list\r\n") ∷ [])
shape Reply.rpl_endofbanlist =
    shape_of "368 " "client" false
      (lit (codes " ") ∷ slot (codes "channel") ∷ lit (codes " :End of channel ban list\r\n") ∷ [])
shape Reply.rpl_youreoper =
    shape_of "381 " "client" false (lit (codes " :You are now an IRC operator\r\n") ∷ [])
shape Reply.err_toomanyparam =
    shape_of "400 " "client" false
      (lit (codes " ") ∷ slot (codes "command") ∷ lit (codes " :Too many parameters\r\n") ∷ [])
shape Reply.err_nosuchnick =
    shape_of "401 " "client" false
      (lit (codes " :") ∷ slot (codes "nickname") ∷ lit (codes " :No such nick/channel\r\n") ∷ [])
shape Reply.err_nosuchchannel =
    shape_of "403 " "client" false
      (lit (codes " ") ∷ slot (codes "channel") ∷ lit (codes " :No such channel\r\n") ∷ [])
shape Reply.err_cannotsendtochan =
    shape_of "404 " "client" false
      (lit (codes " ") ∷ slot (codes "channel") ∷ lit (codes " :Cannot send to channel\r\n") ∷ [])
shape Reply.err_notexttosend =
    shape_of "412 " "client" false (lit (codes " :No text to send\r\n") ∷ [])
shape Reply.err_nonicknamegiven =
    shape_of "431 " "client" false (lit (codes " :No nickname given\r\n") ∷ [])
shape Reply.err_erroneusnickname =
    shape_of "432 " "client" false
      (lit (codes " ") ∷ slot (codes "nick") ∷ lit (codes " :Erroneus nickname\r\n") ∷ [])
shape Reply.err_nicknameinuse =
    shape_of "433 " "client" false
      (lit (codes " ") ∷ slot (codes "nick") ∷ lit (codes " :Nickname is already in use\r\n") ∷ [])
shape Reply.err_usernotinchannel = shape_of "441 " "client" false (
    lit (codes " ")
    ∷ slot (codes "nick")
    ∷ lit (codes " ")
    ∷ slot (codes "channel")
    ∷ lit (codes " :They aren't on that channel\r\n")
    ∷ [])
shape Reply.err_notonchannel =
    shape_of "442 " "client" false (
      lit (codes " ")
      ∷ slot (codes "channel")
      ∷ lit (codes " :You're not on that channel\r\n")
      ∷ [])
shape Reply.err_useronchannel = shape_of "443 " "client" false (
    lit (codes " ")
    ∷ slot (codes "nick")
    ∷ lit (codes " ")
    ∷ slot (codes "channel")
    ∷ lit (codes " :is already on channel\r\n")
    ∷ [])
shape Reply.err_notregistered =
    shape_of "451 " "client" false (lit (codes " :You have not registered\r\n") ∷ [])
shape Reply.err_needmoreparams =
    shape_of "461 " "client" false
      (lit (codes " ") ∷ slot (codes "command") ∷ lit (codes " :Not enough parameters\r\n") ∷ [])
shape Reply.err_alreadyregistred =
    shape_of "462 " "client" false (lit (codes " :You may not reregister\r\n") ∷ [])
shape Reply.err_passwdmismatch =
    shape_of "464 " "client" false (lit (codes " :Password incorrect\r\n") ∷ [])
shape Reply.err_channelisfull =
    shape_of "471 " "client" false
      (lit (codes " ") ∷ slot (codes "channel") ∷ lit (codes " :Cannot join channel (+l)\r\n") ∷ [])
shape Reply.err_inviteonlychan =
    shape_of "473 " "client" false
      (lit (codes " ") ∷ slot (codes "channel") ∷ lit (codes " :Cannot join channel (+i)\r\n") ∷ [])
shape Reply.err_badchannelkey =
    shape_of "475 " "client" false
      (lit (codes " ") ∷ slot (codes "channel") ∷ lit (codes " :Cannot join channel (+k)\r\n") ∷ [])
shape Reply.err_noprivileges =
    shape_of "481 " "client" false
      (lit (codes " :Permission Denied- You're not an IRC operator\r\n") ∷ [])
shape Reply.err_chanoprivsneeded = shape_of "482 " "client" false (
    lit (codes " ") ∷ slot (codes "channel") ∷ lit (codes " :You're not channel operator\r\n") ∷ [])
shape Reply.err_umodeunknownmodeflag =
    shape_of "501 " "client" false (lit (codes " :Unknown MODE flag\r\n") ∷ [])
shape Reply.err_usersdontmatch =
    shape_of "502 " "client" false (lit (codes " :Cant change mode for other users\r\n") ∷ [])
shape Reply.rpl_privmsg = shape_of ":" "client" true (
    lit (codes " PRIVMSG ")
    ∷ slot (codes "target")
    ∷ lit (codes "{,")
    ∷ slot (codes "target")
    ∷ lit (codes "} :")
    ∷ slot (codes "text")
    ∷ lit (codes "\r\n")
    ∷ [])
shape Reply.rpl_join =
    shape_of ":" "client" true
      (lit (codes " JOIN ") ∷ slot (codes "channel") ∷ lit (codes "\r\n") ∷ [])
shape Reply.rpl_part = shape_of ":" "client" true (
    lit (codes " PART ")
    ∷ slot (codes "channel")
    ∷ lit (codes " :")
    ∷ slot (codes "reason")
    ∷ lit (codes "\r\n")
    ∷ [])
shape Reply.rpl_invite = shape_of ":" "client" true (
    lit (codes " INVITE ")
    ∷ slot (codes "nick")
    ∷ lit (codes " ")
    ∷ slot (codes "channel")
    ∷ lit (codes "\r\n")
    ∷ [])
shape Reply.rpl_kick = shape_of ":" "client" true (
    lit (codes " KICK ")
    ∷ slot (codes "channel")
    ∷ lit (codes " ")
    ∷ slot (codes "nick")
    ∷ lit (codes " :")
    ∷ slot (codes "comment")
    ∷ lit (codes "\r\n")
    ∷ [])
shape Reply.rpl_error =
    shape_of ":" "server" false
      (lit (codes " ERROR :") ∷ slot (codes "comment") ∷ lit (codes "\r\n") ∷ [])
shape Reply.rpl_quit =
    shape_of ":" "client" true
      (lit (codes " QUIT ") ∷ slot (codes "comment") ∷ lit (codes "\r\n") ∷ [])
shape Reply.rpl_clientleft = shape_of ":" "client" true (
    lit (codes " :Client ")
    ∷ slot (codes "nick")
    ∷ lit (codes " just left ircserv, bye bye\r\n")
    ∷ [])
shape Reply.rpl_changemode = shape_of ":" "client" true (
    lit (codes " MODE ")
    ∷ slot (codes "name")
    ∷ lit (codes " :")
    ∷ slot (codes "modestring")
    ∷ lit (codes "\r\n")
    ∷ [])
shape Reply.rpl_yourechanop = shape_of ":" "client" true (
    lit (codes " ")
    ∷ slot (codes "channel")
    ∷ lit (codes " :You are now a channel operator\r\n")
    ∷ [])
shape Reply.err_nosuchoper =
    shape_of "921 " "client" false
      (lit (codes " :") ∷ slot (codes "oper") ∷ lit (codes " :No such operator\r\n") ∷ [])
shape Reply.err_modebadformat =
    shape_of "923 " "client" false (lit (codes " MODE :Bad modestring format\r\n") ∷ [])
