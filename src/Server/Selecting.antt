-- ===== src/Server/Selecting.antt =====
-- What Server::get_max_fd, get_read_fds and get_write_fds of srcs/server/Server.cpp give to select().
use ft_irc_duck.Base.{
  ℕ, ◌≤◌, Bool, true, false, ◌||◌, none, some, List, [], ◌∷◌, ◌≡◌, refl, arith, ltb, ◌==◌, ==_iff,
  if◌then◌else◌, ◌≢◌, ◌⊎◌, inl, inr, Option-cases,
}
use ft_irc_duck.Map.{Map, FdSet, lookup, member, add, fd_key}
use ft_irc_duck.Map.Laws.{member-add}
use ft_irc_duck.Client.{Client}
use ft_irc_duck.Message.{Message}
use ft_irc_duck.Server.{Server}

unfoldable pub max_socket : ℕ → Map ℕ Client → ℕ
max_socket max [] = max
max_socket max ((fd, c) ∷ rest) = max_socket (if ltb max fd then fd else max) rest

-- get_max_fd
unfoldable pub get_max_fd : Server → ℕ
unfolding max_socket
get_max_fd s = max_socket s.socket_id s.client_list

unfoldable pub add_sockets : Map ℕ Client → FdSet → FdSet
add_sockets [] fds = fds
add_sockets ((fd, c) ∷ rest) fds = add_sockets rest (add fd fds)

-- get_read_fds
unfoldable pub get_read_fds : Server → FdSet
unfolding add_sockets
get_read_fds s = add_sockets s.client_list (s.socket_id ∷ [])

unfoldable pub add_all : FdSet → FdSet → FdSet
add_all [] fds = fds
add_all (fd ∷ rest) fds = add_all rest (if member fd fds then fds else add fd fds)

unfoldable pub add_targets : List Message → FdSet → FdSet
unfolding add_all
add_targets [] fds = fds
add_targets (m ∷ ms) fds = add_targets ms (add_all m.target fds)

-- get_write_fds
unfoldable pub get_write_fds : Server → FdSet
unfolding add_targets
get_write_fds s = add_targets s.msgs []

max_socket_grows : (max : ℕ) (m : Map ℕ Client) → max ≤ max_socket max m
unfolding max_socket
max_socket_grows max [] = omega arith
max_socket_grows max ((fd, c) ∷ rest) =
    ground (arith, max_socket_grows fd rest, max_socket_grows max rest)

max_socket_bounds : (max fd : ℕ) (m : Map ℕ Client) → lookup fd m ≢ none → fd ≤ max_socket max m
unfolding max_socket lookup
max_socket_bounds max fd [] h = absurd (h refl)
max_socket_bounds max fd ((j, c) ∷ rest) h = ground (
  arith,
  ==_iff j fd,
  max_socket_grows (if ltb max j then j else max) rest,
  max_socket_bounds (if ltb max j then j else max) fd rest,
)

member-add_sockets :
    (fd : ℕ) (m : Map ℕ Client) (fds : FdSet)
    → member fd (add_sockets m fds)
      ≡ (member fd fds || (elim (lookup fd m) [ none ↦ false | some c ↦ true ]))
unfolding add_sockets lookup
member-add_sockets fd [] fds = ground arith
member-add_sockets fd ((j, c) ∷ rest) fds =
    ground (arith, member-add j fd fds, member-add_sockets fd rest (add j fds))

abbrev pub has_client : ℕ → Server → Bool
has_client fd s = elim (lookup fd s.client_list) [ none ↦ false | some c ↦ true ]

-- select() is asked to read from exactly the server's socket and the sockets of its clients, and
-- every one of these lies within the number that it is given.
pub get_read_fds_lem :
    (s : Server) (fd : ℕ)
    → (member fd (get_read_fds s) ≡ ((s.socket_id == fd) || has_client fd s))
      × ((member fd (get_read_fds s) ≡ false) ⊎ (fd ≤ get_max_fd s))
unfolding get_read_fds get_max_fd member
get_read_fds_lem s fd =
    let e = member-add_sockets fd s.client_list (s.socket_id ∷ []) in
    (
      ground (arith, e),
      elim (Option-cases (lookup fd s.client_list)) [
        | inl f ↦ ground (arith, e, f, max_socket_grows s.socket_id s.client_list)
        | inr (c, f) ↦ inr (max_socket_bounds s.socket_id fd s.client_list (λ g. cc))
      ],
    )

-- A socket is a target of one of the messages.
abbrev pub is_target : ℕ → List Message → Bool
is_target fd [] = false
is_target fd (m ∷ ms) = member fd m.target || is_target fd ms

member-add_all :
    (fd : ℕ) (xs fds : FdSet) → member fd (add_all xs fds) ≡ (member fd fds || member fd xs)
unfolding add_all member
member-add_all fd [] fds = ground arith
member-add_all fd (x ∷ xs) fds = ground (
  arith,
  ==_iff x fd,
  member-add x fd fds,
  member-add_all fd xs fds,
  member-add_all fd xs (add x fds),
)

member-add_targets :
    (fd : ℕ) (ms : List Message) (fds : FdSet)
    → member fd (add_targets ms fds) ≡ (member fd fds || is_target fd ms)
unfolding add_targets
member-add_targets fd [] fds = ground arith
member-add_targets fd (m ∷ ms) fds =
    ground (arith, member-add_all fd m.target fds, member-add_targets fd ms (add_all m.target fds))

-- select() is asked to write to exactly the clients that a message waits for.
pub member-get_write_fds : (s : Server) (fd : ℕ) → member fd (get_write_fds s) ≡ is_target fd s.msgs
unfolding get_write_fds member
member-get_write_fds s fd = ground (arith, member-add_targets fd s.msgs [])
