-- ===== src/Exchange/Sending/Ordering.antt =====
-- srcs/messages/send_messages.cpp: the order in which a client gets its messages.
use ft_irc_duck.Base.{ℕ, true, [], ◌∷◌, ◌≡◌, ok, arith}
use ft_irc_duck.Text.{codes, contains, text_eq}
use ft_irc_duck.Map.{FdSet, member, remove}
use ft_irc_duck.Message.{Message}
use ft_irc_duck.Server.{Server}
use ft_irc_duck.Exchange.Sending.{
  is_deletable, check_msgs_to_delete, find_same, merge_from, merge_msgs, handle_leaving_clients,
  send_one, send_targets, send_all, send_messages,
}

unmerged :
    (m n : Message) (a b : ℕ)
    → m.target ≡ a ∷ b ∷ []
    → n.target ≡ b ∷ []
    → merge_msgs (m ∷ n ∷ []) ≡ m ∷ n ∷ []
unfolding merge_msgs merge_from find_same text_eq
unmerged m n a b e f = ground (arith, e, f)

-- Of two messages, the first for two clients that can be written to and the second for the latter
-- of them alone, send_messages sends the first to the one client and the second to the other; the
-- other's copy of the first message is left to wait behind it.
pub send_messages_overtaken :
    (writable : FdSet) (s : Server) (m n : Message) (a b : ℕ)
    → s.msgs ≡ m ∷ n ∷ []
    → m.target ≡ a ∷ b ∷ []
    → n.target ≡ b ∷ []
    → contains m.text (codes "\r\n") ≡ true
    → contains n.text (codes "\r\n") ≡ true
    → member a writable ≡ true
    → member b (remove a writable) ≡ true
    → send_messages writable s
      ≡ ok (
        record (handle_leaving_clients n b (handle_leaving_clients m a s)) {
          msgs = record m { target = b ∷ [] } ∷ [];
        },
        (a, m.text) ∷ (b, n.text) ∷ [],
      )
unfolding send_messages check_msgs_to_delete send_all send_targets send_one is_deletable
send_messages_overtaken writable s m n a b h e f t u w v =
    ground (arith, h, e, f, t, u, w, v, unmerged m n a b e f)
