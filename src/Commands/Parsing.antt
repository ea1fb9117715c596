-- ===== src/Commands/Parsing.antt =====
-- srcs/commands/parsing.cpp and Server::register_command: how a line is split, and which command it
-- calls. The commands are the handlers in the map `Server::commands`.
pub mod Crash
pub mod Gate
use ft_irc_duck.Base.{
  ℕ, suc, Bool, true, false, not, ◌&&◌, ◌||◌, Option, none, some, List, [], ◌∷◌, ltb, if◌then◌else◌,
  length, take, drop, is_empty, Outcome, ok, fault, out_of_range, ◌>>=◌,
}
use ft_irc_duck.Text.{Text, codes, text_eq, find, find_first_not_of, from_pos, contains, trim_right}
use ft_irc_duck.Map.{Map, lookup, insert, text_key}
use ft_irc_duck.Reply.{template, err_needmoreparams, err_notregistered}
use ft_irc_duck.Message.{Message, reply_format}
use ft_irc_duck.Server.{Server, client_at}

abbrev pub Handler : Type 0
Handler = Server → Message → Outcome (Server × Message)

-- Server::register_command: a second command of one name is refused.
unfoldable pub register_command : Text → Handler → Map Text Handler → Map Text Handler
register_command name h commands = elim (lookup name commands) [
  | none ↦ insert name h commands
  | some old ↦ commands
]

-- substr(i), which throws behind the end
unfoldable pub substr_from : ℕ → Text → Outcome Text
substr_from i t = if ltb (length t) i then fault out_of_range else ok (drop i t)

-- erase(i), which throws behind the end
unfoldable pub erase_from : ℕ → Text → Outcome Text
erase_from i t = if ltb (length t) i then fault out_of_range else ok (take i t)

-- The line up to its end; both positions were found before anything was erased.
unfoldable pub cut_line : Text → Outcome Text
unfolding erase_from
cut_line t = elim (find b'\n' t) [
  | none ↦ ok t
  | some newline ↦ elim (find b'\r' t) [
    | none ↦ ok (take newline t)
    | some carriage ↦ erase_from carriage (take newline t)
  ]
]

abbrev keeps_blanks : Text → Bool
keeps_blanks cmd = text_eq cmd (codes "USER") || text_eq cmd (codes "PRIVMSG")

-- The parameters from a space on, which was found before the line was cut.
unfoldable pub split_params : ℕ → Text → Outcome Text
unfolding substr_from
split_params space t = elim (from_pos (find_first_not_of (codes " \t")) space t) [
  | none ↦ substr_from space t
  | some start ↦ ok (drop start t)
]

abbrev trim_params : Text → Text → Text
trim_params cmd params = if keeps_blanks cmd then params else trim_right (codes " \t") params

-- A line without a space, by itself.
unfoldable pub single_word : Map Text Handler → Server → Text → Message → Outcome Message
single_word commands s t m =
    if is_empty t
    then ok (record m { text = [] })
    else if contains t (codes "QUIT")
    then ok (record m { cmd = codes "QUIT"; text = [] })
    else elim (lookup t commands) [
      | none ↦ ok (record m { text = [] })
      | some h ↦ reply_format (record m { text = t }) (template err_needmoreparams) t s.socket_id
    ]

-- parsing_cmds
unfoldable pub parsing_cmds : Map Text Handler → Server → Message → Outcome Message
parsing_cmds commands s m = elim (find_first_not_of (codes " \n\r\t") m.text) [
  | none ↦ ok m
  | some visible ↦ elim (find_first_not_of (codes " \t") m.text) [
    | none ↦ ok m
    | some start ↦
        let line = drop start m.text in
        cut_line line >>= λ t. elim (find b' ' line) [
          | none ↦ single_word commands s t m
          | some space ↦ split_params space t >>= λ params. ok (record m {
            cmd = take space t;
            cmd_param = trim_params (take space t) params;
            text = [];
          })
        ]
  ]
]

abbrev pub opens_session : Text → Bool
opens_session cmd =
    text_eq cmd (codes "PASS") || text_eq cmd (codes "NICK") || text_eq cmd (codes "USER")

-- What check_for_cmds does with a command that was found.
unfoldable pub call_command : Handler → Server → Message → Outcome (Server × Message)
call_command h s m = client_at s m.emitter >>= λ c.
    if not c.is_registered && not (opens_session m.cmd)
    then (reply_format m (template err_notregistered) [] s.socket_id >>= λ e. ok (s, e))
    else h s m

-- check_for_cmds
unfoldable pub check_for_cmds : Map Text Handler → Server → Message → Outcome (Server × Message)
check_for_cmds commands s m = parsing_cmds commands s m >>= λ parsed.
    if not (is_empty parsed.target) then ok (s, parsed) else elim (lookup parsed.cmd commands) [
      | none ↦ ok (s, parsed)
      | some h ↦ call_command h s parsed
    ]
