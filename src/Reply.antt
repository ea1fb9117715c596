-- ===== src/Reply.antt =====
-- The replies of srcs/define.hpp: what the server writes to a client, with `<...>` where a value goes
-- and `{...}` round a part that is repeated.
pub mod Shape
use ft_irc_duck.Text.{Text, codes}

pub data Reply : Type 0 where
  rpl_welcome rpl_yourhost rpl_created rpl_myinfo : Reply
  rpl_isupport rpl_umodeis rpl_endofwho rpl_channelmodeis : Reply
  rpl_creationtime rpl_topic rpl_topicwhotime rpl_inviting : Reply
  rpl_namreply rpl_endofnames rpl_endofbanlist rpl_youreoper : Reply
  err_toomanyparam err_nosuchnick err_nosuchchannel err_cannotsendtochan : Reply
  err_notexttosend err_nonicknamegiven err_erroneusnickname err_nicknameinuse : Reply
  err_usernotinchannel err_notonchannel err_useronchannel err_notregistered : Reply
  err_needmoreparams err_alreadyregistred err_passwdmismatch err_channelisfull : Reply
  err_inviteonlychan err_badchannelkey err_noprivileges err_chanoprivsneeded : Reply
  err_umodeunknownmodeflag err_usersdontmatch rpl_privmsg rpl_join : Reply
  rpl_part rpl_invite rpl_kick rpl_error : Reply
  rpl_quit rpl_clientleft rpl_changemode rpl_yourechanop : Reply
  err_nosuchoper err_modebadformat : Reply

unfoldable pub template : Reply → Text
template rpl_welcome = codes "001 <client> :Welcome to the Internet Relay Network <nick>!\r\n"
template rpl_yourhost = codes "002 <client> :Your host is <localhost>, running version 2.31\r\n"
template rpl_created = codes "003 <client> :This server was created <datetime>\r\n"
template rpl_myinfo = codes "004 <client> ircserv 2.31 NO modes\r\n"
template rpl_isupport = codes "005 <client> <supported> :are supported by this server\r\n"
template rpl_umodeis = codes "221 <client> <usermodes>\r\n"
template rpl_endofwho = codes "315 <client> <mask> :End of WHO list\r\n"
template rpl_channelmodeis = codes "324 <client> <channel> <modestring>\r\n"
template rpl_creationtime = codes "329 <client> <channel> <creationtime>\r\n"
template rpl_topic = codes "332 <client> <channel> :<topic>\r\n"
template rpl_topicwhotime = codes "333 <client> <channel> <nick> <setat>\r\n"
template rpl_inviting = codes "341 <client> <nick> <channel>\r\n"
template rpl_namreply = codes "353 <client> <symbol> <channel> :<nick>{ <nick>}\r\n"
template rpl_endofnames = codes "366 <client> <channel> :End of /NAMES list\r\n"
template rpl_endofbanlist = codes "368 <client> <channel> :End of channel ban list\r\n"
template rpl_youreoper = codes "381 <client> :You are now an IRC operator\r\n"
template err_toomanyparam = codes "400 <client> <command> :Too many parameters\r\n"
template err_nosuchnick = codes "401 <client> :<nickname> :No such nick/channel\r\n"
template err_nosuchchannel = codes "403 <client> <channel> :No such channel\r\n"
template err_cannotsendtochan = codes "404 <client> <channel> :Cannot send to channel\r\n"
template err_notexttosend = codes "412 <client> :No text to send\r\n"
template err_nonicknamegiven = codes "431 <client> :No nickname given\r\n"
template err_erroneusnickname = codes "432 <client> <nick> :Erroneus nickname\r\n"
template err_nicknameinuse = codes "433 <client> <nick> :Nickname is already in use\r\n"
template err_usernotinchannel =
    codes "441 <client> <nick> <channel> :They aren't on that channel\r\n"
template err_notonchannel = codes "442 <client> <channel> :You're not on that channel\r\n"
template err_useronchannel = codes "443 <client> <nick> <channel> :is already on channel\r\n"
template err_notregistered = codes "451 <client> :You have not registered\r\n"
template err_needmoreparams = codes "461 <client> <command> :Not enough parameters\r\n"
template err_alreadyregistred = codes "462 <client> :You may not reregister\r\n"
template err_passwdmismatch = codes "464 <client> :Password incorrect\r\n"
template err_channelisfull = codes "471 <client> <channel> :Cannot join channel (+l)\r\n"
template err_inviteonlychan = codes "473 <client> <channel> :Cannot join channel (+i)\r\n"
template err_badchannelkey = codes "475 <client> <channel> :Cannot join channel (+k)\r\n"
template err_noprivileges = codes "481 <client> :Permission Denied- You're not an IRC operator\r\n"
template err_chanoprivsneeded = codes "482 <client> <channel> :You're not channel operator\r\n"
template err_umodeunknownmodeflag = codes "501 <client> :Unknown MODE flag\r\n"
template err_usersdontmatch = codes "502 <client> :Cant change mode for other users\r\n"
template rpl_privmsg = codes ":<client>!<user>@<host> PRIVMSG <target>{,<target>} :<text>\r\n"
template rpl_join = codes ":<client>!<user>@<host> JOIN <channel>\r\n"
template rpl_part = codes ":<client>!<user>@<host> PART <channel> :<reason>\r\n"
template rpl_invite = codes ":<client>!<user>@<host> INVITE <nick> <channel>\r\n"
template rpl_kick = codes ":<client>!<user>@<host> KICK <channel> <nick> :<comment>\r\n"
template rpl_error = codes ":<server> ERROR :<comment>\r\n"
template rpl_quit = codes ":<client>!<user>@<host> QUIT <comment>\r\n"
template rpl_clientleft =
    codes ":<client>!<user>@<host> :Client <nick> just left ircserv, bye bye\r\n"
template rpl_changemode = codes ":<client>!<user>@<host> MODE <name> :<modestring>\r\n"
template rpl_yourechanop =
    codes ":<client>!<user>@<host> <channel> :You are now a channel operator\r\n"
template err_nosuchoper = codes "921 <client> :<oper> :No such operator\r\n"
template err_modebadformat = codes "923 <client> MODE :Bad modestring format\r\n"

-- SERVERNAME
abbrev pub server_name : Text
server_name = codes "ircserv"

-- NICK_GOOD_CHARACTERS
abbrev pub nick_good_characters : Text
nick_good_characters =
    codes "abcdefghijklmnopqrstuvwxyzABCDEFGHIJKLMNOPQRSTUVWXYZ0123456789-[]\\`_{}|"

-- KICK_DEFAULT_COMMENT
abbrev pub kick_default_comment : Text
kick_default_comment = codes "No comment has been provided"

-- QUIT_MANUAL
abbrev pub quit_manual : Text
quit_manual = codes "Manual disconnection through commands"
