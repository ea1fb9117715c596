-- ===== src/Exchange/Receiving.antt =====
-- srcs/messages/receive_messages.cpp: the bytes that are read are cut into lines, and each line is a
-- command. What read() gives comes from outside.
pub mod Buffer
pub mod Lines
use mathlib.Core.Option
use ft_irc_duck.Base.{
  ℕ, zero, suc, Bool, true, false, not, ◌&&◌, ◌||◌, Option, none, some, List, [], ◌∷◌, ◌++◌, map,
  ◌==◌, if◌then◌else◌, length, take, drop, get_or, is_empty, Outcome, ok, fault, out_of_range,
  use_after_free, ◌>>=◌,
}
use ft_irc_duck.Text.{Text, text_eq, has, find}
use ft_irc_duck.Text.Split.{cut_by}
use ft_irc_duck.Map.{Map}
use ft_irc_duck.Client.{Client}
use ft_irc_duck.Message.{Message, from_client}
use ft_irc_duck.Server.{Server, post, client_at}
use ft_irc_duck.Commands.Parsing.{Handler, check_for_cmds}
use ft_irc_duck.Commands.Quit.{quit}

-- find_incomplete_msg; `none` is -1.
unfoldable pub find_incomplete : ℕ → List Message → Option ℕ
unfolding has
find_incomplete fd [] = none
find_incomplete fd (m ∷ ms) =
    let later = Option.map suc (find_incomplete fd ms) in
    if (m.emitter == fd) && not (has b'\n' m.text) then some 0 else later

-- msgs.at(i), with what a function does to it; it throws behind the end.
unfoldable pub get_msg : ℕ → List Message → Outcome Message
get_msg i [] = fault out_of_range
get_msg zero (m ∷ ms) = ok m
get_msg (suc i) (m ∷ ms) = get_msg i ms

unfoldable pub set_msg : ℕ → Message → List Message → List Message
set_msg i new [] = []
set_msg zero new (m ∷ ms) = new ∷ ms
set_msg (suc i) new (m ∷ ms) = m ∷ set_msg i new ms

unfoldable pub erase_msg : ℕ → List Message → List Message
erase_msg i [] = []
erase_msg zero (m ∷ ms) = ms
erase_msg (suc i) (m ∷ ms) = m ∷ erase_msg i ms

-- Whether the messages are where they were: as many, from the same senders, with the same texts.
unfoldable pub are_in_place : List Message → List Message → Bool
are_in_place [] [] = true
are_in_place [] (n ∷ ns) = false
are_in_place (m ∷ ms) [] = false
are_in_place (m ∷ ms) (n ∷ ns) =
    (m.emitter == n.emitter) && (text_eq m.text n.text && are_in_place ms ns)

-- A message that is not sent or kept.
abbrev is_done : Message → Bool
is_done m = is_empty m.text || is_empty m.target

-- The command of a line that completes message `i`. The command has a reference to the message in
-- the vector; where the command adds or erases messages the reference may not hold any more, and
-- that is a fault here whether or not the vector had room.
unfoldable pub call_at : Map Text Handler → ℕ → Text → Server → Outcome Server
call_at commands i line s = get_msg i s.msgs >>= λ m.
    let whole = record m { text = m.text ++ line } in
    let started = set_msg i whole s.msgs in
    check_for_cmds commands (record s { msgs = started }) whole >>= λ (s', m').
    if are_in_place started s'.msgs
    then ok (record s' { msgs = if is_done m' then erase_msg i s'.msgs else set_msg i m' s'.msgs })
    else fault use_after_free

-- The command of a line of its own.
unfoldable pub call_new : Map Text Handler → Client → Text → Server → Outcome Server
call_new commands c line s =
    check_for_cmds commands s (record (from_client c) { text = line }) >>= λ (s', m).
    ok (if is_done m then s' else post m s')

unfoldable pub call_lines : Map Text Handler → Client → List Text → Server → Outcome Server
call_lines commands c [] s = ok s
call_lines commands c (line ∷ lines) s =
    call_new commands c line s >>= λ s'. call_lines commands c lines s'

-- What stands behind the last line waits as a message.
unfoldable pub keep_rest : Client → Text → Server → Server
keep_rest c rest s = if is_empty rest then s else post (record (from_client c) { text = rest }) s

-- The lines of a text, each with its newline, and what stands behind the last one. Each round of
-- the loop takes a byte at least, so the length of the text is fuel enough.
unfoldable pub split_lines : Text → List Text × Text
split_lines t =
    let (lines, rest) = cut_by (find b'\n') 1 (length t) t in
    (map (λ (line : Text). line ++ b'\n' ∷ []) lines, rest)

-- The first line, which may complete message `i`.
unfoldable pub call_first :
    Map Text Handler → Client → Option ℕ → List Text → Server → Outcome Server
call_first commands c i [] s = ok s
call_first commands c none (line ∷ lines) s = call_lines commands c (line ∷ lines) s
call_first commands c (some i) (line ∷ lines) s =
    call_at commands i line s >>= λ s'. call_lines commands c lines s'

-- found_new_line
unfoldable pub found_new_line :
    Map Text Handler → Client → Text → Option ℕ → Server → Outcome Server
found_new_line commands c text i s = call_first commands c i (split_lines text).0 s >>= λ s'.
    ok (keep_rest c (split_lines text).1 s')

-- A text without a newline is kept.
unfoldable pub append_text : Client → Text → Option ℕ → Server → Outcome Server
append_text c text none s = ok (post (record (from_client c) { text = text }) s)
append_text c text (some i) s = get_msg i s.msgs >>= λ m.
    ok (record s { msgs = set_msg i (record m { text = m.text ++ text }) s.msgs })

-- found_text
unfoldable pub found_text : Map Text Handler → Client → Text → Server → Outcome Server
found_text commands c text s =
    let i = find_incomplete c.socket s.msgs in
    if has b'\n' text then found_new_line commands c text i s else append_text c text i s

-- What read() gave for a client: nothing, so that the connection is closed, or 512 bytes at most.
pub data Received : Type 0 where
  closed : Received
  bytes : Text → Received

-- The buffer is written from its start on, and what stood behind that stays.
abbrev pub overwrite : Text → Text → Text
overwrite t buffer = t ++ drop (length t) buffer

-- The text of a `char *` ends at its zero byte.
unfoldable pub c_string : Text → Text
c_string [] = []
c_string (c ∷ cs) = let rest = c_string cs in if c == 0 then [] else c ∷ rest

abbrev pub zeros : ℕ → Text
zeros zero = []
zeros (suc n) = 0 ∷ zeros n

-- The loop over the clients that select found readable, `none` for the others. No command takes a
-- client out of the map but a QUIT for a closed connection, which ends the loop.
unfoldable pub receive_all :
    Map Text Handler → (ℕ → Option Received) → List ℕ → Text → Server → Outcome Server
receive_all commands reads [] buffer s = ok s
receive_all commands reads (fd ∷ fds) buffer s = elim (reads fd) [
  | none ↦ receive_all commands reads fds buffer s
  | some closed ↦ client_at s fd >>= λ c.
      quit (record s { manual_quit = false }) (from_client c) >>= λ (s', m). ok s'
  | some (bytes t) ↦ client_at s fd >>= λ c.
      found_text commands c (c_string (overwrite t buffer)) s >>= λ s'.
      receive_all commands reads fds (overwrite t buffer) s'
]

abbrev pub sockets : Map ℕ Client → List ℕ
sockets = map λ (entry : ℕ × Client). entry.0

-- receive_messages
unfoldable pub receive_messages : Map Text Handler → (ℕ → Option Received) → Server → Outcome Server
receive_messages commands reads s =
    receive_all commands reads (sockets s.client_list) (zeros 1024) s
