-- ===== src/Message.antt =====
-- srcs/messages/Message.hpp and Message.cpp: a message on its way, and how a reply is written into
-- it. A copy of a message is the message itself, but for an empty user name.
pub mod Replace
pub mod Fill
pub mod Format
pub mod Short
pub mod Templates
pub mod Returns
use ft_irc_duck.Base.{
  ℕ, zero, suc, ◌+◌, ◌-◌, Bool, true, false, ◌&&◌, Option, none, some, List, [], ◌∷◌, ◌++◌, ◌==◌,
  leb, ltb, if◌then◌else◌, length, take, drop, get_or, is_empty, Outcome, ok, fault, out_of_range,
  end_iterator, ◌>>=◌,
}
use ft_irc_duck.Text.{Text, codes, has, find}
use ft_irc_duck.Map.{FdSet}
use ft_irc_duck.Reply.{server_name}
use ft_irc_duck.Client.{Client}

pub record Message : Type 0 where
  pub emitter : ℕ
  pub username : Text
  pub emitter_nick : Text
  pub host : Text
  pub target : FdSet
  pub text : Text
  pub cmd : Text
  pub cmd_param : Text

abbrev star_if_empty : Text → Text
star_if_empty t = if is_empty t then codes "*" else t

-- Message(const Message &cpy)
unfoldable pub copy : Message → Message
copy m = record m { username = star_if_empty m.username }

-- operator=, of two messages that are not the same object; std::vector moves its elements by it.
unfoldable pub assign_message : Message → Message → Message
assign_message m assign = record m {
  emitter = assign.emitter;
  username = assign.username;
  emitter_nick = assign.emitter_nick;
  host = assign.host;
  target = assign.target;
  text = assign.text;
  cmd = assign.cmd;
  cmd_param = assign.cmd_param;
}

-- Message(const Client &emitter)
unfoldable pub from_client : Client → Message
from_client c = record {
  emitter = c.socket;
  username = star_if_empty c.username;
  emitter_nick = c.nickname;
  host = c.host;
  target = [];
  text = [];
  cmd = [];
  cmd_param = [];
}

-- `find('>') + 1 - begin`, cut at the end of the text where it is negative.
cut_size : Text → ℕ → ℕ
cut_size t begin =
    let after : ℕ = elim (find b'>' t) [ none ↦ 0 | some e ↦ suc e ] in
    if leb begin after then after - begin else length t

-- From the first `<` to the first `>` the text is replaced; without a `<` the call of
-- std::string::replace throws.
unfoldable pub replace_rpl_err_text : Text → Text → Outcome Text
unfolding cut_size
replace_rpl_err_text t value = elim (find b'<' t) [
  | none ↦ fault out_of_range
  | some begin ↦ ok (take begin t ++ (value ++ drop (begin + cut_size t begin) t))
]

abbrev is_reply_custom : Text → Bool
is_reply_custom reply = (get_or reply 9 0 == b'!') && (get_or reply 16 0 == b'@')

abbrev sender_name : Message → Option ℕ → Text
sender_name m none = m.emitter_nick
sender_name m (some socket) = if m.emitter == socket then server_name else m.emitter_nick

-- The socket that stands for the server itself is `none` where the code passes -1.
unfoldable pub replace_prefix : Message → Text → Text → Option ℕ → Outcome Text
replace_prefix m text reply socket = replace_rpl_err_text text (sender_name m socket) >>= λ t.
    if is_reply_custom reply
    then (replace_rpl_err_text t m.username >>= λ u. replace_rpl_err_text u m.host)
    else ok t

-- reply_format(std::string, std::string, int)
unfoldable pub reply_format : Message → Text → Text → ℕ → Outcome Message
reply_format m reply value socket = replace_prefix m reply reply (some socket) >>= λ t.
    (if has b'<' t then replace_rpl_err_text t value else ok t) >>= λ u.
    ok (record m { target = m.emitter ∷ []; text = u })

-- The loop that fills the slots of the text; the values that are left are handed on.
unfoldable pub fill_slots : Text → List Text → Outcome (Text × List Text)
fill_slots text [] = if has b'<' text then fault end_iterator else ok (text, [])
fill_slots text (value ∷ values) =
    if has b'<' text
    then (replace_rpl_err_text text value >>= λ t. fill_slots t values)
    else ok (text, value ∷ values)

unfoldable pub append_replies : Message → Text → List Text → List Text → Outcome Text
append_replies m text [] values = ok text
append_replies m text (reply ∷ replies) values =
    replace_prefix m (text ++ reply) reply none >>= λ t.
    fill_slots t values >>= λ (u, rest). append_replies m u replies rest

-- reply_format(std::vector<std::string> &, std::vector<std::string> &)
unfoldable pub reply_format_all : Message → List Text → List Text → Outcome Message
reply_format_all m replies values =
    append_replies m [] replies values >>= λ t. ok (record m { target = m.emitter ∷ []; text = t })

abbrev pub repeat : ℕ → Text → Text
repeat zero t = []
repeat (suc n) t = t ++ repeat n t

unfoldable pub erase_at : Option ℕ → Text → Outcome Text
erase_at none t = fault out_of_range
erase_at (some i) t = ok (take i t ++ drop (suc i) t)

-- The part in curly brackets is left `replace_count - 1` times, and the brackets go.
unfoldable pub reply_replace_curly_brackets : Text → ℕ → Outcome Text
unfolding erase_at
reply_replace_curly_brackets reply replace_count = elim (find b'{' reply) [
  | none ↦ fault out_of_range
  | some start ↦
      let behind = drop (suc start) reply in
      let inner : Text = elim (find b'}' reply) [
        | none ↦ behind
        | some end ↦ if ltb start end then take (end - start - 1) behind else behind
      ] in
      let rest = drop (length inner) behind in
      let copies = repeat (replace_count - 1) inner in
      let opened = take start reply ++ (copies ++ rest) in erase_at (find b'}' opened) opened
]
