-- ===== src/Commands/Login.antt =====
-- srcs/commands/server_connection: PASS, NICK and USER, by which a connection is registered.
pub mod Clients
pub mod Handlers
pub mod Connections
pub mod Params
pub mod Steps
pub mod Completing
use mathlib.Core.Option
use ft_irc_duck.Base.{
  ℕ, suc, ◌+◌, ◌-◌, Bool, true, false, not, ◌&&◌, ◌||◌, Option, none, some, List, [], ◌∷◌, map,
  ◌==◌, ltb, leb, if◌then◌else◌, length, take, drop, get_or, is_empty, Outcome, ok, ◌>>=◌,
}
use ft_irc_duck.Text.{Text, codes, text_eq, find_first_of, find_first_not_of, from_pos, to_lower}
use ft_irc_duck.Map.{Map}
use ft_irc_duck.Reply.{
  Reply, template, server_name, nick_good_characters, err_notregistered, err_nonicknamegiven,
  err_erroneusnickname, err_nicknameinuse, err_alreadyregistred, err_passwdmismatch,
  err_needmoreparams,
}
use ft_irc_duck.Client.{Client}
use ft_irc_duck.Message.{Message, reply_format}
use ft_irc_duck.Server.{Env, Server, client_at, set_client, register_client_if_able}

-- `setup_error` of Pass and Nick, and `setup_error_no_nickname` of User: the server is the sender.
unfoldable pub setup_error : Reply → Text → Server → Message → Outcome (Server × Message)
setup_error error value s m =
    reply_format (record m { emitter = s.socket_id; host = server_name }) (template error) value
      s.socket_id
    >>= λ e. ok (s, record e { target = m.emitter ∷ [] })

-- Pass::execute
unfoldable pub pass : Server → Message → Outcome (Server × Message)
pass s m = client_at s m.emitter >>= λ c.
    if c.is_registered || c.is_authenticated
    then setup_error err_alreadyregistred [] s m
    else if text_eq s.pass m.cmd_param
    then ok (set_client m.emitter (record c { is_authenticated = true }) s, record m { text = [] })
    else setup_error err_passwdmismatch [] s m

is_digit : ℕ → Bool
is_digit c = leb b'0' c && leb c b'9'

-- Nick::is_nickname_allowed
unfoldable pub is_nickname_allowed : Text → Bool
unfolding is_digit
is_nickname_allowed nickname =
    if ltb 9 (length nickname)
    then false
    else if is_digit (get_or nickname 0 0) || (get_or nickname 0 0 == b'-')
    then false
    else elim (find_first_not_of nick_good_characters nickname) [ none ↦ true | some i ↦ false ]

-- Nick::is_nick_unique, over the clients
unfoldable pub is_nick_unique : Text → Map ℕ Client → Bool
is_nick_unique nickname [] = true
is_nick_unique nickname ((fd, c) ∷ rest) =
    if text_eq (map to_lower nickname) (map to_lower c.nickname)
    then false
    else is_nick_unique nickname rest

-- Nick::add_nick_to_messages
unfoldable pub add_nick_to_messages : ℕ → Text → List Message → List Message
add_nick_to_messages emitter nickname [] = []
add_nick_to_messages emitter nickname (m ∷ ms) =
    (if m.emitter == emitter then record m { emitter_nick = nickname } else m)
    ∷ add_nick_to_messages emitter nickname ms

-- The end of Nick::execute, for a nickname that passed the tests.
unfoldable pub take_nickname : Env → Text → Client → Server → Message → Outcome (Server × Message)
take_nickname env nickname c s m =
    let named = set_client m.emitter (record c { nickname = nickname }) s in
    (if c.is_registered then ok named else register_client_if_able env m.emitter named) >>= λ s'.
    ok
      (record s' { msgs = add_nick_to_messages m.emitter nickname s'.msgs }, record m { text = [] })

-- Nick::execute
unfoldable pub nick : Env → Server → Message → Outcome (Server × Message)
nick env s m = client_at s m.emitter >>= λ c.
    if not c.is_authenticated
    then setup_error err_notregistered [] s m
    else if is_empty m.cmd_param
    then setup_error err_nonicknamegiven [] s m
    else if not (is_nickname_allowed m.cmd_param)
    then setup_error err_erroneusnickname m.cmd_param s m
    else if not (is_nick_unique m.cmd_param s.client_list)
    then setup_error err_nicknameinuse m.cmd_param s m
    else take_nickname env m.cmd_param c s m

pub record UserParams : Type 0 where
  pub username : Text
  pub host : Text
  pub realname : Text

abbrev blanks : Text
blanks = codes " \t"

abbrev real_name : Text → Text → Text → ℕ → Option UserParams
real_name params username host r =
    if (get_or params r 0 == b':')
      && not (is_empty username)
      && not (is_empty (drop (suc r) params))
    then some (record { username = username; host = host; realname = drop (suc r) params })
    else none

-- User::get_correct_user_params; `none` is -1.
unfoldable pub get_correct_user_params : Text → Option UserParams
get_correct_user_params params = Option.bind (find_first_of blanks params) λ name_end.
    Option.bind (from_pos (find_first_not_of blanks) name_end params) λ second.
      Option.bind (from_pos (find_first_of blanks) second params) λ second_end.
        Option.bind (from_pos (find_first_not_of blanks) second_end params) λ third.
          Option.bind (from_pos (find_first_of (codes ": \t")) third params) λ third_end.
            Option.bind (from_pos (find_first_not_of blanks) third_end params) λ r.
              real_name params (take name_end params) (take (third_end - third) (drop third params))
                r

-- User::execute
unfoldable pub user : Env → Server → Message → Outcome (Server × Message)
user env s m = client_at s m.emitter >>= λ c.
    if not c.is_authenticated
    then setup_error err_notregistered [] s m
    else if not (is_empty c.realname)
    then setup_error err_alreadyregistred [] s m
    else elim (get_correct_user_params m.cmd_param) [
      | none ↦ setup_error err_needmoreparams m.cmd s m
      | some p ↦
          register_client_if_able env m.emitter (
            set_client m.emitter
              (record c { username = p.username; realname = p.realname; host = p.host }) s)
          >>= λ s'. ok (s', m)
    ]
