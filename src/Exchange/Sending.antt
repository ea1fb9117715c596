-- ===== src/Exchange/Sending.antt =====
-- srcs/messages/send_messages.cpp: messages without a reader are deleted, messages for the same
-- clients are merged, and what select allows is sent. What send() takes is kept as a list.
pub mod Merging
pub mod Partial
pub mod Fairness
pub mod Ending
pub mod Ordering
pub mod Waiting
pub mod Progress
use ft_irc_duck.Base.{
  ℕ, zero, suc, ◌+◌, Bool, true, false, not, ◌&&◌, Option, none, some, List, [], ◌∷◌, ◌++◌, ◌==◌,
  leb, if◌then◌else◌, length, take, drop, is_empty, Outcome, ok, fault, end_iterator, ◌>>=◌,
}
use Prim.Native.Nat.{◌*◌}
use ft_irc_duck.Text.{Text, codes, text_eq, find, contains}
use ft_irc_duck.Map.{FdSet, member, remove}
use ft_irc_duck.Reply.{server_name}
use ft_irc_duck.Message.{Message}
use ft_irc_duck.Server.{Server, del_client}

-- The test of check_msgs_to_delete.
unfoldable pub is_deletable : Message → Bool
is_deletable m = elim (find b'\n' m.text) [
  | none ↦ false
  | some i ↦ (i + 2 == length m.text) && is_empty m.target
]

-- check_msgs_to_delete. After an erasure the loop steps over the message that moved up, and steps
-- past the end if the last message was erased while others are left.
unfoldable pub check_msgs_to_delete : Bool → List Message → Outcome (List Message)
check_msgs_to_delete others [] = ok []
check_msgs_to_delete others (m ∷ []) =
    if is_deletable m then (if others then fault end_iterator else ok []) else ok (m ∷ [])
check_msgs_to_delete others (m ∷ n ∷ ms) =
    let skipping = check_msgs_to_delete true ms in
    let going_on = check_msgs_to_delete true (n ∷ ms) in
    if is_deletable m
    then (skipping >>= λ rest. ok (n ∷ rest))
    else (going_on >>= λ rest. ok (m ∷ rest))

-- The first message for the given clients: what stands before it, the message, what stands behind.
pub record Found : Type 0 where
  pub before : List Message
  pub found : Message
  pub after : List Message

unfoldable pub find_same : FdSet → List Message → Option Found
find_same target [] = none
find_same target (m ∷ ms) =
    let later : Option Found = elim (find_same target ms) [
      | none ↦ none
      | some f ↦ some (record f { before = m ∷ f.before })
    ] in
    if text_eq target m.target then some (record { before = []; found = m; after = ms }) else later

abbrev pub absorb : Message → Message → Message
absorb m n = record m { text = m.text ++ n.text }

-- After a merge the outer loop goes on with the message before the one that was erased.
unfoldable pub resume :
    (List Message → List Message) → Message → List Message → List Message → List Message
resume go_on m [] after = go_on (m ∷ after)
resume go_on m (x ∷ xs) after = m ∷ resume go_on x xs after

-- The loops of merge_msgs from a message on. Each round finishes a message or erases one.
unfoldable pub merge_from : ℕ → List Message → List Message
merge_from zero ms = ms
merge_from (suc fuel) [] = []
merge_from (suc fuel) (m ∷ ms) = elim (find_same m.target ms) [
  | none ↦ m ∷ merge_from fuel ms
  | some f ↦ resume (merge_from fuel) (absorb m f.found) f.before f.after
]

-- merge_msgs; one message alone is left as it is.
unfoldable pub merge_msgs : List Message → List Message
merge_msgs ms = merge_from (length ms) ms

-- handle_leaving_clients
unfoldable pub handle_leaving_clients : Message → ℕ → Server → Server
handle_leaving_clients m client s =
    if (m.emitter == s.socket_id) && contains m.text (server_name ++ codes " ERROR :")
    then del_client client s
    else s

-- What the loops of send_messages change: the server, the sockets that may be written, and what has
-- been sent.
pub record Sending : Type 0 where
  pub serv : Server
  pub writable : FdSet
  pub sent : List (ℕ × Text)

abbrev pub is_sendable : Text → ℕ → Sending → Bool
is_sendable text fd st = member fd st.writable && contains text (codes "\r\n")

unfoldable pub send_one : Message → ℕ → Sending → Sending
send_one m fd st = record st {
  serv = handle_leaving_clients m fd st.serv;
  writable = remove fd st.writable;
  sent = st.sent ++ (fd, m.text) ∷ [];
}

-- The inner loop, with the targets that it has passed over, and the others. After a message was
-- sent the loop begins again behind the first target that is left.
unfoldable pub send_targets : ℕ → Message → FdSet → FdSet → Sending → FdSet × Sending
send_targets zero m front fds st = (front ++ fds, st)
send_targets (suc fuel) m front [] st = (front, st)
send_targets (suc fuel) m front (fd ∷ fds) st =
    let on = send_targets fuel m (front ++ fd ∷ []) fds st in
    let again =
      send_targets fuel m (take 1 (front ++ fds)) (drop 1 (front ++ fds)) (send_one m fd st) in
    if is_sendable m.text fd st then again else on

-- Every round passes over a target or takes one away.
abbrev pub send_fuel : FdSet → ℕ
send_fuel fds = suc (length fds * length fds + length fds)

-- The outer loop: a message without targets that are left is erased.
unfoldable pub send_all : List Message → Sending → List Message × Sending
send_all [] st = ([], st)
send_all (m ∷ ms) st =
    let (target, st') = send_targets (send_fuel m.target) m [] m.target st in
    let (later, st'') = send_all ms st' in
    (
      if is_empty target && not (is_empty m.target)
          then later
          else record m { target = target } ∷ later,
      st'',
    )

-- send_messages, with what select found writable: the server, and what was sent.
unfoldable pub send_messages : FdSet → Server → Outcome (Server × List (ℕ × Text))
send_messages writable s = check_msgs_to_delete false s.msgs >>= λ ms.
    let (left, st) =
      send_all (merge_msgs ms) (record { serv = s; writable = writable; sent = [] }) in
    ok (record st.serv { msgs = left }, st.sent)
