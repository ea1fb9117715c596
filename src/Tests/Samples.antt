-- ===== src/Tests/Samples.antt =====
-- A small server for the tests: alice on socket 4 is the operator of #duck, bob on socket 5 a member.
use ft_irc_duck.Base.{true, false, none, [], ◌∷◌}
use ft_irc_duck.Text.{Text, codes}
use ft_irc_duck.Client.{Client}
use ft_irc_duck.Message.{Message}
use ft_irc_duck.Channel.{Channel, Status, no_status, plain_member}
use ft_irc_duck.Server.{Env, Server}

abbrev pub env : Env
env = record { current_date = codes "2024-5-1"; end_status = no_status }

abbrev pub alice : Client
alice = record {
  socket = 4;
  is_authenticated = true;
  is_registered = true;
  username = codes "al";
  realname = codes "Alice";
  is_invisible = false;
  nickname = codes "alice";
  host = codes "home";
}

abbrev pub bob : Client
bob = record alice {
  socket = 5;
  username = codes "bo";
  realname = codes "Bob";
  nickname = codes "bob";
}

abbrev pub operator : Status
operator = record { invited = false; is_member = true; chanop = true }

abbrev pub duck : Channel
duck = record {
  name = codes "#duck";
  topic = [];
  topic_date = [];
  topic_author = [];
  key = [];
  is_invite_only = false;
  is_topic_restricted = true;
  member_limit = none;
  clients = (4, operator) ∷ (5, plain_member) ∷ [];
}

abbrev pub server : Server
server = record {
  socket_id = 3;
  pass = codes "secret";
  oper_socket = [];
  channel_list = (codes "#duck", duck) ∷ [];
  msgs = [];
  client_list = (4, alice) ∷ (5, bob) ∷ [];
  manual_quit = true;
}

-- A line of a client, as `Message(emitter)` holds it.
abbrev pub line_of : Client → Text → Message
line_of c text = record {
  emitter = c.socket;
  username = c.username;
  emitter_nick = c.nickname;
  host = c.host;
  target = [];
  text = text;
  cmd = [];
  cmd_param = [];
}

-- The same once it is split.
abbrev pub command_of : Client → Text → Text → Message
command_of c cmd param = record (line_of c []) { cmd = cmd; cmd_param = param }
