-- ===== src/Server.antt =====
-- srcs/server/Server.hpp and Server.cpp: the state of the server and its tools. Sockets, accept and
-- close are the operating system's: a connection comes in and goes as a file descriptor.
pub mod Sockets
pub mod Selecting
use ft_irc_duck.Base.{
  ℕ, suc, ◌+◌, Bool, true, false, ◌&&◌, Option, none, some, List, [], ◌∷◌, ◌++◌, map, if◌then◌else◌,
  is_empty, Outcome, ok, fault, end_iterator, ◌>>=◌,
}
use ft_irc_duck.Text.{Text, codes, text_eq}
use ft_irc_duck.Map.{Map, FdSet, lookup, insert, erase, member, add, remove, fd_key, text_key}
use ft_irc_duck.Reply.{
  Reply, template, rpl_welcome, rpl_yourhost, rpl_created, rpl_myinfo, rpl_isupport, rpl_youreoper,
  err_nosuchoper, err_passwdmismatch,
}
use ft_irc_duck.Client.{Client, new_client}
use ft_irc_duck.Message.{Message, copy, from_client, reply_format_all}
use ft_irc_duck.Channel.{Channel, Status}

-- What the program reads from outside: the date as `current_date` prints it, and the int that the
-- platform gives for a read through the end iterator of a channel's `_clients`, which is undefined
-- in C++ and is made by several commands.
pub record Env : Type 0 where
  pub current_date : Text
  pub end_status : Status

pub record Server : Type 0 where
  pub socket_id : ℕ
  pub pass : Text
  pub oper_socket : FdSet
  pub channel_list : Map Text Channel
  pub msgs : List Message
  pub client_list : Map ℕ Client
  -- `manual_quit` of the one Quit object
  pub manual_quit : Bool

abbrev oper_name : Text
oper_name = codes "Cthulhu"

abbrev oper_pass : Text
oper_pass = codes "R'lyeh"

abbrev pub i_support : Text
i_support =
    codes
      "CHANMODES=,ok,l,it CHANTYPES=# MODES=5 NETWORK=ircserv NICKLEN=9 PREFIX=(o)@ CASEMAPPING=ascii TARGMAX="

abbrev pub register_replies : List Reply
register_replies = rpl_welcome ∷ rpl_yourhost ∷ rpl_created ∷ rpl_myinfo ∷ rpl_isupport ∷ []

-- Server(int new_port, char *new_pass), once the socket is bound and listens.
unfoldable pub new_server : ℕ → Text → Server
new_server socket pass = record {
  socket_id = socket;
  pass = pass;
  oper_socket = [];
  channel_list = [];
  msgs = [];
  client_list = [];
  manual_quit = true;
}

-- msgs.push_back(msg)
unfoldable pub post : Message → Server → Server
unfolding copy
post m s = record s { msgs = s.msgs ++ copy m ∷ [] }

-- client_list.find(fd)->second
unfoldable pub client_at : Server → ℕ → Outcome Client
client_at s fd = elim (lookup fd s.client_list) [ none ↦ fault end_iterator | some c ↦ ok c ]

unfoldable pub set_client : ℕ → Client → Server → Server
set_client fd c s = record s { client_list = insert fd c s.client_list }

unfoldable pub set_channel : Text → Channel → Server → Server
set_channel name c s = record s { channel_list = insert name c s.channel_list }

-- add_client, for a connection that accept and getsockopt pass; std::map::insert keeps an old entry.
unfoldable pub add_client : ℕ → Server → Server
unfolding new_client
add_client fd s = elim (lookup fd s.client_list) [
  | none ↦ record s { client_list = insert fd (new_client fd) s.client_list }
  | some c ↦ s
]

-- del_client erases a client from `_oper_socket` where it does not find it there.
unfoldable pub del_client : ℕ → Server → Server
del_client fd s = elim (lookup fd s.client_list) [
  | none ↦ s
  | some c ↦ record s {
    client_list = erase fd s.client_list;
    oper_socket = if member fd s.oper_socket then s.oper_socket else remove fd s.oper_socket;
  }
]

find_nickname : Text → Map ℕ Client → Option ℕ
find_nickname nickname [] = none
find_nickname nickname ((fd, c) ∷ rest) =
    if text_eq nickname c.nickname then some fd else find_nickname nickname rest

-- `none` is -1.
unfoldable pub get_client_by_nickname : Server → Text → Option ℕ
unfolding find_nickname
get_client_by_nickname s nickname = find_nickname nickname s.client_list

-- `none` is NULL.
unfoldable pub get_channel_by_name : Server → Text → Option Channel
get_channel_by_name s name = lookup name s.channel_list

unfoldable pub oper_command_check : ℕ → Text → Text → Server → Reply × Server
oper_command_check client oper pass s =
    if text_eq oper_name oper
    then if text_eq oper_pass pass
      then (rpl_youreoper, record s { oper_socket = add client s.oper_socket })
      else (err_passwdmismatch, s)
    else (err_nosuchoper, s)

-- What a client must have before it is registered.
abbrev pub can_register : Client → Bool
can_register c =
    if c.is_registered
    then false
    else if is_empty c.nickname
    then false
    else if is_empty c.realname && is_empty c.username
    then false
    else true

unfoldable pub register_client_if_able : Env → ℕ → Server → Outcome Server
register_client_if_able env fd s = client_at s fd >>= λ c.
    if can_register c
    then (reply_format_all (from_client c) (map template register_replies)
          (c.nickname ∷ c.host ∷ env.current_date ∷ i_support ∷ [])
        >>= λ welcome. ok (post welcome (set_client fd (record c { is_registered = true }) s)))
    else ok s
