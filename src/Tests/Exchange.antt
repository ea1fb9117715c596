-- ===== src/Tests/Exchange.antt =====
-- Reading and sending at concrete inputs.
use ft_irc_duck.Base.{
  Option, if◌then◌else◌, ◌<◌, ◌+◌, length, ℕ, ◌≤◌, true, false, ◌||◌, some, List, [], ◌∷◌, ◌≡◌,
  refl, ◌⊎◌, ◌==◌, ok, arith,
}
use ft_irc_duck.Text.{Text, codes, has, find, find_by, text_eq, starts_with, contains}
use ft_irc_duck.Map.{lookup, member, remove, fd_key}
use ft_irc_duck.Message.{Message, from_client, copy}
use ft_irc_duck.Server.{Server, post}
use ft_irc_duck.Server.Selecting.{
  get_read_fds, get_max_fd, get_write_fds, has_client, is_target, get_read_fds_lem,
  member-get_write_fds,
}
use ft_irc_duck.Exchange.Receiving.{
  bytes, find_incomplete, found_text, split_lines, Received, append_text, receive_messages,
}
use ft_irc_duck.Exchange.Receiving.Buffer.{receive_messages_stale}
use ft_irc_duck.Exchange.Receiving.Lines.{split_lines-rejoin}
use ft_irc_duck.Exchange.Sending.{
  is_deletable, check_msgs_to_delete, merge_from, merge_msgs, find_same, resume, Sending,
  handle_leaving_clients, send_one, send_targets, send_fuel, send_all, send_messages,
}
use ft_irc_duck.Exchange.Sending.Fairness.{Once, is_sent, send_messages_fair}
use ft_irc_duck.Exchange.Sending.Progress.{send_messages_progress}
use ft_irc_duck.Exchange.Sending.Waiting.{waiting}
use ft_irc_duck.Exchange.Sending.Ordering.{send_messages_overtaken}
use ft_irc_duck.Exchange.Sending.Ending.{EndsWithin, send_targets_end}
use ft_irc_duck.Exchange.Sending.Merging.{said, merge_msgs-said, MergesTo, merge_from_ends}
use ft_irc_duck.Exchange.Sending.Partial.{send_messages_partial, check_msgs_to_delete_whole}
use ft_irc_duck.Tests.Samples.{alice, bob, server, line_of}

-- Both have sent the start of a line.
abbrev halves : Server
halves = record server {
  msgs = line_of alice (codes "TOPIC #duck :Que") ∷ line_of bob (codes "NICK bobby") ∷ [];
}

abbrev mixed : Message
mixed = line_of alice (codes "TOPIC #duck :QueNICK bobby")

send_messages_partial_example :
    (send_messages [] halves ≡ ok (record halves { msgs = mixed ∷ [] }, []))
    × (find_incomplete 4 (mixed ∷ []) ≡ some 0)
unfolding has
send_messages_partial_example =
    send_messages_partial (line_of alice (codes "TOPIC #duck :Que"))
      (line_of bob (codes "NICK bobby")) [] halves refl refl refl refl refl

-- Two answers, and a line for nobody.
abbrev answers : List Message
answers =
    record (line_of alice (codes "a\r\n")) { target = 4 ∷ 5 ∷ [] }
    ∷ record (line_of alice (codes "b\r\n")) { target = 5 ∷ [] }
    ∷ record (line_of alice (codes "c\r\n")) { target = 4 ∷ 5 ∷ [] }
    ∷ line_of bob (codes "d\r\n")
    ∷ []

merge_msgs-said_example : said (4 ∷ 5 ∷ []) (merge_msgs answers) ≡ said (4 ∷ 5 ∷ []) answers
merge_msgs-said_example = merge_msgs-said (4 ∷ 5 ∷ []) answers

merge_from_ends_example : MergesTo answers (merge_msgs answers)
merge_from_ends_example = merge_from_ends answers

check_msgs_to_delete_whole_example : check_msgs_to_delete false answers ≡ ok answers
unfolding has
check_msgs_to_delete_whole_example = check_msgs_to_delete_whole false answers (
  record { line = codes "a\r"; ends = refl; single = refl },
  (
    record { line = codes "b\r"; ends = refl; single = refl },
    (
      record { line = codes "c\r"; ends = refl; single = refl },
      (record { line = codes "d\r"; ends = refl; single = refl }, tt),
    ),
  ),
)

-- alice has sent the start of a line, and bob sends a shorter one in the same round.
abbrev short_text : Text
short_text = codes "PING x\r\n"

abbrev long_text : Text
long_text = codes "PRIVMSG bob :hel"

abbrev started : Server
started = record server { msgs = line_of alice long_text ∷ [] }

abbrev both_send : ℕ → Option Received
both_send fd = some (bytes (if fd == 4 then long_text else short_text))

receive_messages_stale_example :
    receive_messages [] both_send server ≡ found_text [] bob (codes "PING x\r\nbob :hel") started
unfolding has lookup found_text append_text find_incomplete post copy from_client
receive_messages_stale_example =
    receive_messages_stale [] both_send 4 5 alice bob long_text short_text server started refl refl
      refl refl refl (omega arith) (omega arith) refl refl

split_lines-rejoin_example :
    split_lines (codes "NICK a\r\nUSER b\nPI")
    ≡ (codes "NICK a\r\n" ∷ codes "USER b\n" ∷ [], codes "PI")
unfolding has
split_lines-rejoin_example =
    split_lines-rejoin (codes "NICK a\r" ∷ codes "USER b" ∷ []) (codes "PI") (refl, (refl, tt)) refl

get_read_fds_lem_example :
    (member 5 (get_read_fds server) ≡ ((3 == 5) || has_client 5 server))
    × ((member 5 (get_read_fds server) ≡ false) ⊎ (5 ≤ get_max_fd server))
get_read_fds_lem_example = get_read_fds_lem server 5

member-get_write_fds_example : member 5 (get_write_fds halves) ≡ is_target 5 halves.msgs
member-get_write_fds_example = member-get_write_fds halves 5

-- Both clients can be written to.
abbrev to_both : Message
to_both = record (line_of alice (codes "a\r\n")) { target = 4 ∷ 5 ∷ [] }

abbrev to_bob : Message
to_bob = record (line_of alice (codes "b\r\n")) { target = 5 ∷ [] }

abbrev two_waiting : Server
two_waiting = record server { msgs = to_both ∷ to_bob ∷ [] }

abbrev served : Server
served = record server { msgs = record to_both { target = 5 ∷ [] } ∷ [] }

abbrev sent_texts : List (ℕ × Text)
sent_texts = (4, codes "a\r\n") ∷ (5, codes "b\r\n") ∷ []

send_messages_overtaken_example : send_messages (4 ∷ 5 ∷ []) two_waiting ≡ ok (served, sent_texts)
unfolding handle_leaving_clients contains starts_with member remove
send_messages_overtaken_example =
    send_messages_overtaken (4 ∷ 5 ∷ []) two_waiting to_both to_bob 4 5 refl refl refl refl refl
      refl refl

send_runs : send_messages (4 ∷ 5 ∷ []) two_waiting ≡ ok (served, sent_texts)
unfolding send_messages check_msgs_to_delete merge_msgs merge_from find_same resume send_all
    send_targets send_one handle_leaving_clients member remove text_eq starts_with contains has find
    find_by is_deletable
send_runs = refl

send_messages_fair_example :
    Once sent_texts × ((is_sent 4 sent_texts ≡ false) ⊎ (member 4 (4 ∷ 5 ∷ []) ≡ true))
send_messages_fair_example =
    send_messages_fair (4 ∷ 5 ∷ []) two_waiting served sent_texts 4 send_runs

abbrev sending : Sending
sending = record { serv = two_waiting; writable = 5 ∷ []; sent = [] }

send_targets_end_example :
    EndsWithin 6 to_both []
      (4 ∷ 5 ∷ [])
      sending
      (send_targets (send_fuel (4 ∷ 5 ∷ [])) to_both [] (4 ∷ 5 ∷ []) sending)
send_targets_end_example = send_targets_end to_both sending

send_messages_progress_example :
    (0 < length sent_texts) × (waiting served.msgs + length sent_texts ≤ waiting two_waiting.msgs)
unfolding member contains starts_with
send_messages_progress_example =
    send_messages_progress (4 ∷ 5 ∷ []) two_waiting served sent_texts 4 refl refl send_runs
