-- ===== src/Client.antt =====
-- srcs/server/Client.hpp and Client.cpp: what the server knows of a connection. A socket is a file
-- descriptor of a connection that was accepted, so it is not negative.
use ft_irc_duck.Base.{ℕ, Bool, false, []}
use ft_irc_duck.Text.{Text}

pub record Client : Type 0 where
  pub socket : ℕ
  pub is_authenticated : Bool
  pub is_registered : Bool
  pub username : Text
  pub realname : Text
  pub is_invisible : Bool
  pub nickname : Text
  pub host : Text

-- Client(int new_socket)
unfoldable pub new_client : ℕ → Client
new_client new_socket = record {
  socket = new_socket;
  is_authenticated = false;
  is_registered = false;
  username = [];
  realname = [];
  is_invisible = false;
  nickname = [];
  host = [];
}

-- Client(const Client &cpy)
unfoldable pub copy_client : Client → Client
copy_client cpy = record {
  socket = cpy.socket;
  is_authenticated = cpy.is_authenticated;
  is_registered = cpy.is_registered;
  username = cpy.username;
  realname = cpy.realname;
  is_invisible = cpy.is_invisible;
  nickname = cpy.nickname;
  host = cpy.host;
}

-- operator=, of two clients that are not the same object.
unfoldable pub assign_client : Client → Client → Client
assign_client c assign = record c {
  socket = assign.socket;
  is_authenticated = assign.is_authenticated;
  is_registered = assign.is_registered;
  realname = assign.realname;
  username = assign.username;
  is_invisible = assign.is_invisible;
  nickname = assign.nickname;
  host = assign.host;
}
