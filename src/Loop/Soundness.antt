-- ===== src/Loop/Soundness.antt =====
-- The clients over any number of rounds of the server.
use ft_irc_duck.Base.{
  ℕ, zero, suc, take, drop, ◌==◌, Bool, false, ◌&&◌, Option, none, some, List, [], ◌∷◌, ◌++◌, ◌≡◌,
  arith, inl, inr, ok, >>=-eq-ok, Option-cases, Bool-cases,
}
use ft_irc_duck.Text.{Text, codes, has, contains}
use ft_irc_duck.Reply.{server_name}
use ft_irc_duck.Map.{Map, lookup, fd_key, FdSet, member}
use ft_irc_duck.Client.{Client}
use ft_irc_duck.Message.{Message, from_client}
use ft_irc_duck.Server.{Server, new_server, client_at, post}
use ft_irc_duck.Commands.Parsing.{Handler, check_for_cmds}
use ft_irc_duck.Commands.Quit.{quit}
use ft_irc_duck.Commands.Login.Clients.{AreSound, erase-AreSound}
use ft_irc_duck.Commands.Clients.Leaving.{quit_effect}
use ft_irc_duck.Commands.Login.Connections.{add_client_sound, del_client_sound}
use ft_irc_duck.Exchange.Receiving.{
  Received, closed, bytes, get_msg, call_at, call_new, call_lines, call_first, keep_rest,
  split_lines, found_new_line, append_text, find_incomplete, found_text, overwrite, receive_all,
  receive_messages,
}
use ft_irc_duck.Exchange.Sending.{
  Sending, handle_leaving_clients, send_one, send_targets, send_fuel, send_all, merge_msgs,
  check_msgs_to_delete, send_messages,
}
use ft_irc_duck.Loop.{Selected, accept, round, Rounds, start, next, setup_commands}
use ft_irc_duck.Loop.Commands.{AllKeepSound, setup_commands-AllKeepSound, check_for_cmds_sound}

module _ (commands : Map Text Handler) (all : AllKeepSound commands) where
  call_at_sound :
      (i : ℕ) (line : Text) (s s' : Server)
      → AreSound s.client_list
      → call_at commands i line s ≡ ok s'
      → AreSound s'.client_list
  unfolding call_at
  call_at_sound i line s s' inv h =
      let (m, e, f) = >>=-eq-ok (get_msg i s.msgs) _ h in
      let ((t, m'), g, k) = >>=-eq-ok (check_for_cmds commands _ _) _ f in
      let same : s'.client_list ≡ t.client_list = ground (arith, k) in
      rw same (check_for_cmds_sound commands _ t _ m' all inv g)

  call_new_sound :
      (c : Client) (line : Text) (s s' : Server)
      → AreSound s.client_list
      → call_new commands c line s ≡ ok s'
      → AreSound s'.client_list
  unfolding call_new post
  call_new_sound c line s s' inv h =
      let ((t, m'), g, k) = >>=-eq-ok (check_for_cmds commands s _) _ h in
      let same : s'.client_list ≡ t.client_list = ground (arith, k) in
      rw same (check_for_cmds_sound commands s t _ m' all inv g)

  call_lines_sound :
      (c : Client) (lines : List Text) (s s' : Server)
      → AreSound s.client_list
      → call_lines commands c lines s ≡ ok s'
      → AreSound s'.client_list
  unfolding call_lines
  call_lines_sound c [] s s' inv h = let same : s' ≡ s = ground (arith, h) in rw same inv
  call_lines_sound c (line ∷ lines) s s' inv h =
      let (t, e, f) = >>=-eq-ok (call_new commands c line s) _ h in
      call_lines_sound c lines t s' (call_new_sound c line s t inv e) f

  call_first_sound :
      (c : Client) (i : Option ℕ) (lines : List Text) (s s' : Server)
      → AreSound s.client_list
      → call_first commands c i lines s ≡ ok s'
      → AreSound s'.client_list
  unfolding call_first
  call_first_sound c i [] s s' inv h = let same : s' ≡ s = ground (arith, h) in rw same inv
  call_first_sound c none (line ∷ lines) s s' inv h = call_lines_sound c (line ∷ lines) s s' inv h
  call_first_sound c (some i) (line ∷ lines) s s' inv h =
      let (t, e, f) = >>=-eq-ok (call_at commands i line s) _ h in
      call_lines_sound c lines t s' (call_at_sound i line s t inv e) f

  append_text_clients :
      (c : Client) (text : Text) (i : Option ℕ) (s s' : Server)
      → append_text c text i s ≡ ok s'
      → s'.client_list ≡ s.client_list
  unfolding append_text post
  append_text_clients c text none s s' h = ground (arith, h)
  append_text_clients c text (some i) s s' h = ground (arith, h)

  found_text_sound :
      (c : Client) (text : Text) (s s' : Server)
      → AreSound s.client_list
      → found_text commands c text s ≡ ok s'
      → AreSound s'.client_list
  unfolding found_text found_new_line keep_rest post
  found_text_sound c text s s' inv h = elim (Bool-cases (has 10 text)) [
    | inr e ↦
        rw
          (append_text_clients c text (find_incomplete c.socket s.msgs) s s' (ground (arith, e, h)))
          inv
    | inl e ↦
        let (t, f, g) =
          >>=-eq-ok (call_first commands c (find_incomplete c.socket s.msgs) (split_lines text).0 s)
            _ (rw (e, found_text) at h) in
        let same : s'.client_list ≡ t.client_list = ground (arith, g) in
        rw same (call_first_sound c _ (split_lines text).0 s t inv f)
  ]

  receive_all_sound :
      (reads : ℕ → Option Received) (fds : List ℕ) (buffer : Text) (s s' : Server)
      → AreSound s.client_list
      → receive_all commands reads fds buffer s ≡ ok s'
      → AreSound s'.client_list
  unfolding receive_all from_client
  receive_all_sound reads [] buffer s s' inv h =
      let same : s' ≡ s = ground (arith, h) in rw same inv
  receive_all_sound reads (fd ∷ fds) buffer s s' inv h = elim (Option-cases (reads fd)) [
    | inl e ↦ receive_all_sound reads fds buffer s s' inv (rw (e, receive_all) at h)
    | inr (bytes t, e) ↦
        let (c, f, g) = >>=-eq-ok (client_at s fd) _ (rw (e, receive_all) at h) in
        let (u, k, l) = >>=-eq-ok (found_text commands c _ s) _ g in
        receive_all_sound reads fds (overwrite t buffer) u s' (found_text_sound c _ s u inv k) l
    | inr (closed, e) ↦
        let (c, f, g) = >>=-eq-ok (client_at s fd) _ (rw (e, receive_all) at h) in
        let ((u, m), k, l) = >>=-eq-ok (quit _ _) _ g in
        let same : s' ≡ u = ground (arith, l) in rw same (quits c u m k)
  ]
    where
      quits :
          (c : Client) (u : Server) (m : Message)
          → quit (record s { manual_quit = false }) (from_client c) ≡ ok (u, m)
          → AreSound u.client_list
      quits c u m k = elim (quit_effect (record s { manual_quit = false }) u (from_client c) m k) [
        | inl same ↦ rw same inv
        | inr gone ↦ rw gone (erase-AreSound c.socket c s.client_list inv)
      ]

-- Sending closes connections, and changes the clients in no other way.
send_one_sound :
    (m : Message) (fd : ℕ) (st : Sending)
    → AreSound st.serv.client_list
    → AreSound (send_one m fd st).serv.client_list
unfolding send_one handle_leaving_clients
send_one_sound m fd st inv = elim (Bool-cases leaves) [
  | inl e ↦ rw e (del_client_sound fd st.serv inv)
  | inr e ↦ rw e inv
]
  where
    leaves : Bool
    leaves = (m.emitter == st.serv.socket_id) && contains m.text (server_name ++ codes " ERROR :")

send_targets_sound :
    (fuel : ℕ) (m : Message) (front fds : FdSet) (st : Sending)
    → AreSound st.serv.client_list
    → AreSound (send_targets fuel m front fds st).1.serv.client_list
unfolding send_targets
send_targets_sound zero m front fds st inv = inv
send_targets_sound (suc fuel) m front [] st inv = inv
send_targets_sound (suc fuel) m front (fd ∷ fds) st inv =
    elim (Bool-cases (member fd st.writable && contains m.text (codes "\r\n"))) [
      | inl e ↦ rw e (
          send_targets_sound fuel m (take 1 (front ++ fds)) (drop 1 (front ++ fds))
            (send_one m fd st) (send_one_sound m fd st inv))
      | inr e ↦ rw e (send_targets_sound fuel m (front ++ fd ∷ []) fds st inv)
    ]

send_all_sound :
    (ms : List Message) (st : Sending)
    → AreSound st.serv.client_list
    → AreSound (send_all ms st).1.serv.client_list
unfolding send_all
send_all_sound [] st inv = inv
send_all_sound (m ∷ ms) st inv =
    send_all_sound ms _ (send_targets_sound (send_fuel m.target) m [] m.target st inv)

send_messages_sound :
    (writable : FdSet) (s s' : Server) (sent : List (ℕ × Text))
    → AreSound s.client_list
    → send_messages writable s ≡ ok (s', sent)
    → AreSound s'.client_list
unfolding send_messages
send_messages_sound writable s s' sent inv h =
    let (ms, e, f) = >>=-eq-ok (check_msgs_to_delete false s.msgs) _ h in
    let started : Sending = record { serv = s; writable = writable; sent = [] } in
    let same : s'.client_list ≡ (send_all (merge_msgs ms) started).1.serv.client_list =
      ground (arith, f) in
    rw same (send_all_sound (merge_msgs ms) started inv)

accept_sound :
    (o : Option ℕ) (s : Server) → AreSound s.client_list → AreSound (accept o s).client_list
accept_sound none s inv = inv
accept_sound (some fd) s inv = add_client_sound fd s inv

round_sound :
    (sel : Selected) (s s' : Server) (sent : List (ℕ × Text))
    → AreSound s.client_list
    → round sel s ≡ ok (s', sent)
    → AreSound s'.client_list
unfolding round receive_messages
round_sound sel s s' sent inv h =
    let ((t, out), e, f) = >>=-eq-ok (send_messages sel.writable (accept sel.accepted s)) _ h in
    let (u, g, k) = >>=-eq-ok (receive_messages (setup_commands sel.env) sel.reads t) _ f in
    let same : s' ≡ u = ground (arith, k) in
    rw same (
      receive_all_sound (setup_commands sel.env) (setup_commands-AllKeepSound sel.env) sel.reads _ _
        t u
        (send_messages_sound sel.writable (accept sel.accepted s) t out
          (accept_sound sel.accepted s inv) e)
        g)

Rounds-sound : {s t : Server} → Rounds s t → AreSound s.client_list → AreSound t.client_list
Rounds-sound start inv = inv
Rounds-sound (next sel sent r ask h) inv = round_sound sel _ _ sent (Rounds-sound r inv) h

-- Over any number of rounds that return, from the start of the server on, whatever is connected,
-- read and sent, and whichever commands the lines are: a registered client has given the password
-- and has a nickname, every nickname given is allowed, and no two clients have nicknames that are
-- equal up to the case of their letters.
pub Rounds-AreSound :
    (socket : ℕ) (password : Text) (s : Server)
    → Rounds (new_server socket password) s
    → AreSound s.client_list
unfolding new_server lookup
Rounds-AreSound socket password s r =
    Rounds-sound r (record { sound = λ j d e. cc; apart = λ i j c d e f ne. cc })
