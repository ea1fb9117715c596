-- ===== src/Exchange/Sending/Fairness.antt =====
-- Who is sent something in one run of send_messages.
use ft_irc_duck.Base.{
  ℕ, zero, suc, Bool, true, false, ◌||◌, List, [], ◌∷◌, ◌++◌, ◌≡◌, ◌⊎◌, refl, arith, inl, inr, ok,
  >>=-eq-ok, ◌==◌, ==_iff, Bool-cases, take, drop,
}
use ft_irc_duck.Text.{Text}
use ft_irc_duck.Map.{FdSet, member}
use ft_irc_duck.Map.Laws.{member-remove}
use ft_irc_duck.Message.{Message}
use ft_irc_duck.Server.{Server}
use ft_irc_duck.Exchange.Sending.{
  Sending, is_sendable, send_one, send_targets, send_fuel, send_all, merge_msgs,
  check_msgs_to_delete, send_messages,
}

-- Something was sent to the socket.
abbrev pub is_sent : ℕ → List (ℕ × Text) → Bool
is_sent fd [] = false
is_sent fd (e ∷ es) = (e.0 == fd) || is_sent fd es

-- No socket stands twice in the list.
abbrev pub Once : List (ℕ × Text) → Type 0
Once [] = Unit {0}
Once (e ∷ es) = (is_sent e.0 es ≡ false) × Once es

record IsFair (writable : FdSet) (st : Sending) : Type 0 where
  allowed : (fd : ℕ) → is_sent fd st.sent ≡ true → member fd writable ≡ true
  cleared : (fd : ℕ) → is_sent fd st.sent ≡ true → member fd st.writable ≡ false
  within : (fd : ℕ) → member fd st.writable ≡ true → member fd writable ≡ true
  once : Once st.sent

is_sent-append :
    (fd j : ℕ) (t : Text) (es : List (ℕ × Text))
    → is_sent j (es ++ (fd, t) ∷ []) ≡ (is_sent j es || (fd == j))
is_sent-append fd j t [] = ground arith
is_sent-append fd j t (e ∷ es) = ground (arith, is_sent-append fd j t es)

append-Once :
    (fd : ℕ) (t : Text) (es : List (ℕ × Text))
    → Once es
    → is_sent fd es ≡ false
    → Once (es ++ (fd, t) ∷ [])
append-Once fd t [] o h = (refl, tt)
append-Once fd t (e ∷ es) o h = (
  ground (arith, o.0, h, is_sent-append fd e.0 t es, ==_iff fd e.0, ==_iff e.0 fd),
  append-Once fd t es o.1 (ground (arith, h)),
)

send_one-IsFair :
    (writable : FdSet) (m : Message) (fd : ℕ) (st : Sending)
    → IsFair writable st
    → member fd st.writable ≡ true
    → IsFair writable (send_one m fd st)
unfolding send_one
send_one-IsFair writable m fd st fair h = record {
  allowed = λ j e. ground (
    arith,
    e,
    h,
    is_sent-append fd j m.text st.sent,
    fair.allowed j,
    fair.within fd,
    ==_iff fd j,
  );
  cleared = λ j e. ground (
    arith,
    e,
    is_sent-append fd j m.text st.sent,
    fair.cleared j,
    member-remove fd j st.writable,
  );
  within = λ j e. ground (arith, e, fair.within j, member-remove fd j st.writable);
  once = append-Once fd m.text st.sent fair.once (ground (arith, h, fair.cleared fd));
}

send_targets-IsFair :
    (writable : FdSet) (fuel : ℕ) (m : Message) (front fds : FdSet) (st : Sending)
    → IsFair writable st
    → IsFair writable (send_targets fuel m front fds st).1
unfolding send_targets
send_targets-IsFair writable zero m front fds st fair = fair
send_targets-IsFair writable (suc fuel) m front [] st fair = fair
send_targets-IsFair writable (suc fuel) m front (fd ∷ fds) st fair =
    elim (Bool-cases (is_sendable m.text fd st)) [
      | inl e ↦ rw e (
          send_targets-IsFair writable fuel m (take 1 (front ++ fds)) (drop 1 (front ++ fds))
            (send_one m fd st) (send_one-IsFair writable m fd st fair (ground (arith, e))))
      | inr e ↦ rw e (send_targets-IsFair writable fuel m (front ++ fd ∷ []) fds st fair)
    ]

send_all-IsFair :
    (writable : FdSet) (ms : List Message) (st : Sending)
    → IsFair writable st
    → IsFair writable (send_all ms st).1
unfolding send_all
send_all-IsFair writable [] st fair = fair
send_all-IsFair writable (m ∷ ms) st fair =
    send_all-IsFair writable ms _
      (send_targets-IsFair writable (send_fuel m.target) m [] m.target st fair)

-- One run of send_messages that returns sends at most once to each client, and only to clients that
-- select found writable.
pub send_messages_fair :
    (writable : FdSet) (s s' : Server) (sent : List (ℕ × Text)) (fd : ℕ)
    → send_messages writable s ≡ ok (s', sent)
    → Once sent × ((is_sent fd sent ≡ false) ⊎ (member fd writable ≡ true))
unfolding send_messages
send_messages_fair writable s s' sent fd h =
    let (ms, e, f) = >>=-eq-ok (check_msgs_to_delete false s.msgs) _ h in
    let started : Sending = record { serv = s; writable = writable; sent = [] } in
    let fair =
      send_all-IsFair writable (merge_msgs ms) started
        (record { allowed = λ j. cc; cleared = λ j. cc; within = λ j q. q; once = tt }) in
    let same : sent ≡ (send_all (merge_msgs ms) started).1.sent = ground (arith, f) in
    rw same (
      fair.once,
      elim (Bool-cases (is_sent fd (send_all (merge_msgs ms) started).1.sent)) [
        | inl q ↦ inr (fair.allowed fd q)
        | inr q ↦ inl q
      ],
    )
