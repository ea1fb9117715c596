-- ===== src/Exchange/Sending/Partial.antt =====
-- Lines that are not complete, and answers without clients, in send_messages.cpp.
use ft_irc_duck.Base.{
  Bool, true, false, some, List, [], ◌∷◌, ◌++◌, ◌≡◌, refl, ◌∙◌, ap, arith, ==_iff, length,
  length-append, All, ok,
}
use ft_irc_duck.Text.{Text, text_eq, has, find}
use ft_irc_duck.Text.Equality.{find-none, find-append, has-append}
use ft_irc_duck.Map.{FdSet}
use ft_irc_duck.Message.{Message}
use ft_irc_duck.Server.{Server}
use ft_irc_duck.Exchange.Receiving.{find_incomplete}
use ft_irc_duck.Exchange.Sending.{
  is_deletable, check_msgs_to_delete, find_same, resume, merge_from, merge_msgs, send_targets,
  send_all, send_messages,
}

is_deletable_partial : (m : Message) → has b'\n' m.text ≡ false → is_deletable m ≡ false
unfolding is_deletable
is_deletable_partial m h = rw (find-none b'\n' m.text h, is_deletable) refl

-- The parts of lines that two clients have sent have no target, so they are merged: the server keeps
-- one message, of the first client, with the texts of both, and takes it for the start of that client's
-- next line. Nothing is sent.
pub send_messages_partial :
    (a b : Message) (writable : FdSet) (s : Server)
    → s.msgs ≡ a ∷ b ∷ []
    → a.target ≡ []
    → b.target ≡ []
    → has b'\n' a.text ≡ false
    → has b'\n' b.text ≡ false
    → (send_messages writable s
        ≡ ok (record s { msgs = record a { text = a.text ++ b.text } ∷ [] }, []))
      × (find_incomplete a.emitter (record a { text = a.text ++ b.text } ∷ []) ≡ some 0)
unfolding send_messages check_msgs_to_delete merge_msgs merge_from find_same resume send_all
    send_targets find_incomplete text_eq
send_messages_partial a b writable s ms ta tb la lb = (
  ground (arith, is_deletable_partial a la, is_deletable_partial b lb),
  ground (arith, ==_iff a.emitter a.emitter, has-append b'\n' a.text b.text la lb),
)

-- One line, with its newline at the end.
pub record IsWhole (m : Message) : Type 0 where
  pub line : Text
  pub ends : m.text ≡ line ++ b'\n' ∷ []
  pub single : has b'\n' line ≡ false

is_deletable_whole : (m : Message) → IsWhole m → is_deletable m ≡ false
unfolding is_deletable
is_deletable_whole m w =
    let at = ap (find b'\n') w.ends ∙ find-append b'\n' w.line [] w.single in
    let len = ap length w.ends ∙ length-append w.line (b'\n' ∷ []) in
    rw (at, is_deletable) (ground (arith, len))

-- Answers of one line each are not deleted, also where no client is left to read them.
pub check_msgs_to_delete_whole :
    (others : Bool) (ms : List Message) → All IsWhole ms → check_msgs_to_delete others ms ≡ ok ms
unfolding check_msgs_to_delete
check_msgs_to_delete_whole others [] w = refl
check_msgs_to_delete_whole others (m ∷ []) w = rw (is_deletable_whole m w.0) refl
check_msgs_to_delete_whole others (m ∷ n ∷ ms) w =
    rw (is_deletable_whole m w.0, check_msgs_to_delete_whole true (n ∷ ms) w.1) refl
