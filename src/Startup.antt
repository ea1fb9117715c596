-- ===== src/Startup.antt =====
-- srcs/main.cpp up to the loop, with the constructor of srcs/server/Server.cpp that opens the socket.
-- What the operating system's calls give is a parameter.
pub mod Port
use ft_irc_duck.Base.{
  ℕ, true, Bool, Option, none, some, List, [], ◌∷◌, ◌++◌, ◌==◌, leb, if◌then◌else◌, length, get_or,
  is_empty, map,
}
use Prim.Native.Nat.{◌%◌}
use ft_irc_duck.Text.{Text, codes, find_first_not_of}
use ft_irc_duck.Text.Decimal.{decimal}
use ft_irc_duck.Map.{Map}
use ft_irc_duck.Client.{Client}
use ft_irc_duck.Server.{Server, new_server}
use ft_irc_duck.Commands.Mode.Limit.{int_max, read_digits}
use ft_irc_duck.Logger.{
  Log, LogType, error_type, error_lvl, major_lvl, all_lvl, initial_log, accept_importance,
  open_log_file, close_log_file, log_entry,
}

-- What the calls of the operating system give: a socket, whether bind() takes a port, whether
-- listen() succeeds, the text of ctime(), and whether the log can be opened. `failed_port` is the int
-- after a read that failed: nobody has written it for an empty text, and for a number that is too
-- large it depends on the library.
pub record Os : Type 0 where
  pub socket : Option ℕ
  pub binds : ℕ → Bool
  pub listens : Bool
  pub now : Text
  pub opens_log : Bool
  pub failed_port : ℕ

abbrev pub err_badserverparam : Text
err_badserverparam = codes "001 ircserv :Wrong number of parameters\r\n"

abbrev pub err_sockcreatefail : Text
err_sockcreatefail = codes "002 ircserv :Server socket creation failed\r\n"

abbrev pub err_sockbindfail : Text
err_sockbindfail = codes "003 ircserv :Binding server socket to PORT failed\r\n"

abbrev pub err_socklistenfail : Text
err_socklistenfail = codes "004 ircserv :Server socket listen failed\r\n"

abbrev pub err_portnotanumber : Text
err_portnotanumber = codes "005 ircserv :<port> must be a numerical value\r\n"

abbrev pub rpl_usage : Text
rpl_usage = codes "000 ircserv usage : ./ircserv <port> <password>\r\n"

-- An exception with its text, or the port in network order that the socket is bound to, the server,
-- and the log.
pub data Opened : Type 0 where
  thrown : Text → Opened
  opened : ℕ → Server → Log → Opened

-- htons() takes the low 16 bits.
abbrev pub htons : ℕ → ℕ
htons port = port % 65536

-- Server(int new_port, char *new_pass)
unfoldable pub open_server : Os → ℕ → Text → Log → Opened
open_server os port pass l = elim os.socket [
  | none ↦ thrown err_sockcreatefail
  | some fd ↦
      if os.binds (htons port)
      then if os.listens
        then opened (htons port) (new_server fd pass) (
            log_entry none (some major_lvl) os.now
              (codes "Server started on socket [" ∷ decimal fd ∷ codes "]" ∷ []) l)
        else thrown err_socklistenfail
      else thrown err_sockbindfail
]

-- The sockets that ~Server closes.
unfoldable pub closed_sockets : Server → List ℕ
closed_sockets s = map (λ (entry : ℕ × Client). entry.0) s.client_list ++ s.socket_id ∷ []

-- `ss >> port`, for a text of digits.
unfoldable pub read_port : Os → Text → ℕ
read_port os t =
    if is_empty t
    then os.failed_port
    else if leb (read_digits 0 t) int_max
    then read_digits 0 t
    else os.failed_port

-- How main goes on: it returns 1, or enters the loop with a server on a port.
pub data Start : Type 0 where
  refused : Log → Start
  serving : ℕ → Server → Log → Start

-- An error that ends main.
unfoldable pub give_up : Os → List Text → Log → Start
give_up os ts l =
    refused (close_log_file (log_entry (some error_type) (some error_lvl) os.now ts l))

abbrev pub begin_log : Os → Log
begin_log os =
    accept_importance all_lvl (open_log_file os.opens_log (codes "server.log") initial_log)

unfoldable pub enter_loop : Os → Log → Opened → Start
enter_loop os l (thrown what) = give_up os (what ∷ []) l
enter_loop os l (opened port s l') = serving port s l'

-- main, with the words of the command line.
unfoldable pub main : Os → List Text → Start
main os av =
    let l = begin_log os in
    if length av == 3
    then elim (find_first_not_of (codes "0123456789") (get_or av 1 [])) [
      | none ↦ enter_loop os l (open_server os (read_port os (get_or av 1 [])) (get_or av 2 []) l)
      | some i ↦ give_up os (err_portnotanumber ∷ rpl_usage ∷ []) l
    ]
    else give_up os (err_badserverparam ∷ rpl_usage ∷ []) l
