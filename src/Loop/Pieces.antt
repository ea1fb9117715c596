-- ===== src/Loop/Pieces.antt =====
-- Rounds of srcs/server/server_loop.cpp in which one client sends the start of a line.
use ft_irc_duck.Base.{
  ℕ, suc, ◌<◌, ◌≤◌, ◌-◌, false, none, some, List, [], ◌∷◌, ◌++◌, ◌≡◌, ◌≢◌, refl, sym, ap, ◌∙◌,
  arith, length, map, All, Option, Outcome, ok, ◌>>=◌, Bool-cases, inl, inr, ◌==◌, ==_iff,
  append_assoc, append-nil,
}
use ft_irc_duck.Text.{Text, concat, has}
use ft_irc_duck.Text.Equality.{find-none, has-append}
use ft_irc_duck.Map.{Map, FdSet, Rises, lookup, fd_key}
use ft_irc_duck.Client.{Client}
use ft_irc_duck.Message.{Message, from_client, copy}
use ft_irc_duck.Server.{Server, post}
use ft_irc_duck.Commands.Parsing.{Handler}
use ft_irc_duck.Exchange.Receiving.{
  Received, bytes, overwrite, zeros, c_string, sockets, find_incomplete, get_msg, set_msg,
  append_text, found_text, receive_all, receive_messages,
}
use ft_irc_duck.Exchange.Receiving.Buffer.{receive_one, first_written, first_read}
use ft_irc_duck.Exchange.Sending.{
  is_deletable, check_msgs_to_delete, find_same, merge_from, merge_msgs, send_targets, send_all,
  send_messages,
}
use ft_irc_duck.Loop.{Selected, setup_commands, round, server_loop}

-- The message of a client that holds the start of a line.
abbrev pub start_of : Client → Text → Message
start_of c t = copy (record (from_client c) { text = t })

-- A round in which nobody connects and only the client on the socket is read: up to 512 bytes, none of
-- them zero or a newline.
pub record Hears (fd : ℕ) (t : Text) (sel : Selected) : Type 0 where
  pub nobody_new : sel.accepted ≡ none
  pub heard : sel.reads fd ≡ some (bytes t)
  pub others : (j : ℕ) → j ≢ fd → sel.reads j ≡ none
  pub no_zero : has 0 t ≡ false
  pub no_newline : has b'\n' t ≡ false
  pub short : length t ≤ 512

receive_other :
    (commands : Map Text Handler) (reads : ℕ → Option Received) (j : ℕ) (fds : List ℕ)
    (buffer : Text) (s : Server)
    → reads j ≡ none
    → receive_all commands reads (j ∷ fds) buffer s ≡ receive_all commands reads fds buffer s
unfolding receive_all
receive_other commands reads j fds buffer s e = rw (e, receive_all) refl

-- No client behind the one on the socket is read.
receive_silent :
    (commands : Map Text Handler) (reads : ℕ → Option Received) (fd b : ℕ) (m : Map ℕ Client)
    (buffer : Text) (s : Server)
    → ((j : ℕ) → j ≢ fd → reads j ≡ none)
    → Rises b m
    → fd < b
    → receive_all commands reads (sockets m) buffer s ≡ ok s
unfolding receive_all
receive_silent commands reads fd b [] buffer s none_else rises below = refl
receive_silent commands reads fd b ((j, c) ∷ m) buffer s none_else rises below =
    rw (none_else j (λ e. ground (arith, e, rises.0)), receive_all)
      (receive_silent commands reads fd (suc j) m buffer s none_else rises.1
        (omega (arith, rises.0)))

-- The loop over the clients, where one of them is read.
receive_single :
    (commands : Map Text Handler) (reads : ℕ → Option Received) (fd b : ℕ) (m : Map ℕ Client)
    (c d : Client) (t buffer : Text) (s s' : Server)
    → ((j : ℕ) → j ≢ fd → reads j ≡ none)
    → Rises b m
    → lookup fd m ≡ some d
    → lookup fd s.client_list ≡ some c
    → reads fd ≡ some (bytes t)
    → found_text commands c (c_string (overwrite t buffer)) s ≡ ok s'
    → receive_all commands reads (sockets m) buffer s ≡ ok s'
unfolding lookup
receive_single commands reads fd b [] c d t buffer s s' none_else rises at_map found heard taken =
    cc
receive_single commands reads fd b ((j, x) ∷ m) c d t buffer s s' none_else rises at_map found heard
      taken =
    elim (Bool-cases (j == fd)) [
      | inl e ↦
          let same : j ≡ fd = (==_iff j fd).0 e in
          rw same (
            receive_one commands reads fd (sockets m) c t buffer s found heard
            ∙ ap
                (λ (o : Outcome Server).
                  o >>= receive_all commands reads (sockets m) (overwrite t buffer))
                taken
            ∙ receive_silent commands reads fd (suc j) m (overwrite t buffer) s' none_else rises.1
                (omega (arith, same)))
      | inr e ↦
          receive_other commands reads j (sockets m) buffer s
            (none_else j (λ q. ground (arith, e, (==_iff j fd).1 q)))
          ∙ receive_single commands reads fd (suc j) m c d t buffer s s' none_else rises.1
              (rw e at at_map) found heard taken
    ]

-- Nothing is sent while nothing waits, or the start of a line alone.
send_nothing : (writable : FdSet) (s : Server) → s.msgs ≡ [] → send_messages writable s ≡ ok (s, [])
unfolding send_messages check_msgs_to_delete merge_msgs merge_from send_all
send_nothing writable s e = ground (arith, e)

send_start :
    (writable : FdSet) (m : Message) (s : Server)
    → m.target ≡ []
    → has b'\n' m.text ≡ false
    → s.msgs ≡ m ∷ []
    → send_messages writable s ≡ ok (s, [])
unfolding send_messages check_msgs_to_delete is_deletable merge_msgs merge_from find_same send_all
    send_targets
send_start writable m s e h only = ground (arith, e, only, find-none b'\n' m.text h)

receive_piece :
    (commands : Map Text Handler) (fd : ℕ) (c : Client) (t : Text) (sel : Selected) (s s' : Server)
    → Hears fd t sel
    → Rises 0 s.client_list
    → lookup fd s.client_list ≡ some c
    → found_text commands c t s ≡ ok s'
    → receive_messages commands sel.reads s ≡ ok s'
unfolding receive_messages
receive_piece commands fd c t sel s s' hears rises found taken =
    receive_single commands sel.reads fd 0 s.client_list c c t (zeros 1024) s s' hears.others rises
      found found hears.heard
      (ap (λ (u : Text). found_text commands c u s)
          (ap c_string (first_written 1024 t (omega (arith, hears.short)))
            ∙ first_read (1024 - length t) t hears.no_zero)
        ∙ taken)

round_piece :
    (fd : ℕ) (c : Client) (t : Text) (sel : Selected) (s s' : Server)
    → Hears fd t sel
    → Rises 0 s.client_list
    → lookup fd s.client_list ≡ some c
    → send_messages sel.writable s ≡ ok (s, [])
    → found_text (setup_commands sel.env) c t s ≡ ok s'
    → round sel s ≡ ok (s', [])
unfolding round
round_piece fd c t sel s s' hears rises found sent taken =
    rw
      (
        hears.nobody_new,
        sent,
        receive_piece (setup_commands sel.env) fd c t sel s s' hears rises found taken,
      )
      refl

-- What a round does with the next piece of a line.
module _ (c : Client) (s : Server) (idle : s.msgs ≡ []) where
  abbrev pub begun : Text → Server
  begun t = record s { msgs = start_of c t ∷ [] }

  found_first :
      (commands : Map Text Handler) (t : Text)
      → has b'\n' t ≡ false
      → found_text commands c t s ≡ ok (begun t)
  unfolding found_text append_text find_incomplete post copy
  found_first commands t h = ground (arith, idle, h)

  found_next :
      (commands : Map Text Handler) (t u : Text)
      → has b'\n' t ≡ false
      → has b'\n' u ≡ false
      → found_text commands c u (begun t) ≡ ok (begun (t ++ u))
  unfolding found_text append_text find_incomplete get_msg set_msg copy from_client
  found_next commands t u h k = ground (arith, h, k, ==_iff c.socket c.socket)

  module _ (fd : ℕ) (rises : Rises 0 s.client_list) (found : lookup fd s.client_list ≡ some c) where
    loop_next :
        (ps : List (Text × Selected)) (t : Text)
        → has b'\n' t ≡ false
        → All (λ (p : Text × Selected). Hears fd p.0 p.1) ps
        → server_loop (map (λ (p : Text × Selected). some p.1) ps) (begun t)
          ≡ ok (begun (t ++ concat (map (λ (p : Text × Selected). p.0) ps)))
    unfolding server_loop
    loop_next [] t h hears = ap (λ (u : Text). ok (begun u)) (sym (append-nil t))
    loop_next ((u, sel) ∷ ps) t h hears =
        let one =
          round_piece fd c u sel (begun t) (begun (t ++ u)) hears.0 rises found
            (send_start sel.writable (start_of c t) (begun t) (unfold copy from_client in refl)
              (unfold copy in h) refl)
            (found_next (setup_commands sel.env) t u h hears.0.no_newline) in
        rw one (
          loop_next ps (t ++ u) (has-append b'\n' t u h hears.0.no_newline) hears.1
          ∙ ap (λ (v : Text). ok (begun v))
              (append_assoc {0} t u (concat (map (λ (p : Text × Selected). p.0) ps))))

    -- In whatever pieces the start of a line comes, one in each round, the server holds it as one message
    -- then, and has done nothing else: where nothing waited before, nobody connects, and no other client
    -- is read in these rounds. A piece is of 512 bytes at most, none of them zero or a newline, the
    -- map of the clients is sorted, and what may be written is arbitrary.
    pub server_loop_pieces :
        (t : Text) (sel : Selected) (ps : List (Text × Selected))
        → All (λ (p : Text × Selected). Hears fd p.0 p.1) ((t, sel) ∷ ps)
        → server_loop (map (λ (p : Text × Selected). some p.1) ((t, sel) ∷ ps)) s
          ≡ ok (record s {
            msgs = start_of c (concat (map (λ (p : Text × Selected). p.0) ((t, sel) ∷ ps))) ∷ [];
          })
    unfolding server_loop
    server_loop_pieces t sel ps hears =
        let one =
          round_piece fd c t sel s (begun t) hears.0 rises found (send_nothing sel.writable s idle)
            (found_first (setup_commands sel.env) t hears.0.no_newline) in
        rw one (loop_next ps t hears.0.no_newline hears.1)
