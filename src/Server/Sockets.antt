-- ===== src/Server/Sockets.antt =====
-- What a socket carries over from the client that had it before.
use ft_irc_duck.Base.{ℕ, true, some, ◌≡◌, arith, ==_iff}
use ft_irc_duck.Map.{lookup, erase, member, fd_key}
use ft_irc_duck.Map.Laws.{lookup-insert_self, lookup-erase}
use ft_irc_duck.Client.{Client, new_client}
use ft_irc_duck.Server.{Server, add_client, del_client}

-- A server operator who disconnects stays in the operator set: the next client on the same socket is
-- a new client, unauthenticated and unregistered, and is a server operator.
pub del_client_keeps_oper :
    (fd : ℕ) (s : Server) (c : Client)
    → lookup fd s.client_list ≡ some c
    → member fd s.oper_socket ≡ true
    → (lookup fd (add_client fd (del_client fd s)).client_list ≡ some (new_client fd))
      × (member fd (add_client fd (del_client fd s)).oper_socket ≡ true)
unfolding add_client del_client
del_client_keeps_oper fd s c e h = ground (
  arith,
  e,
  h,
  ==_iff fd fd,
  lookup-erase fd fd s.client_list,
  lookup-insert_self fd (new_client fd) (erase fd s.client_list),
)
