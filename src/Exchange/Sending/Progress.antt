-- ===== src/Exchange/Sending/Progress.antt =====
-- What one run of send_messages takes away from what waits.
use ft_irc_duck.Base.{
  ℕ, zero, suc, ◌+◌, ◌≤◌, ◌<◌, true, false, ◌&&◌, List, [], ◌∷◌, ◌++◌, ◌≡◌, ◌⊎◌, refl, ap, arith,
  ok, length, length-append, take, drop, Bool-cases, inl, inr, ==_iff, >>=-eq-ok,
}
use ft_irc_duck.Text.{Text, contains}
use ft_irc_duck.Map.{FdSet, member}
use ft_irc_duck.Message.{Message}
use ft_irc_duck.Server.{Server}
use ft_irc_duck.Exchange.Sending.{
  Sending, is_sendable, send_one, send_targets, send_fuel, send_all, check_msgs_to_delete,
  merge_msgs, send_messages,
}
use ft_irc_duck.Exchange.Sending.Ending.{length-split}
use ft_irc_duck.Exchange.Sending.Waiting.{waiting, is_waiting, crlf, prepared-KeepsWaiting}

length-send_one :
    (m : Message) (fd : ℕ) (st : Sending) → length (send_one m fd st).sent ≡ length st.sent + 1
unfolding send_one
length-send_one m fd st = omega (arith, length-append st.sent ((fd, m.text) ∷ []))

-- Each text that is sent takes a target away.
send_targets-length :
    (fuel : ℕ) (m : Message) (front fds : FdSet) (st : Sending)
    → length (send_targets fuel m front fds st).0 + length (send_targets fuel m front fds st).1.sent
      ≡ length front + length fds + length st.sent
unfolding send_targets
send_targets-length zero m front fds st = omega (arith, length-append front fds)
send_targets-length (suc fuel) m front [] st = omega arith
send_targets-length (suc fuel) m front (fd ∷ fds) st =
    elim (Bool-cases (is_sendable m.text fd st)) [
      | inl e ↦ rw e (
          omega (
            arith,
            send_targets-length fuel m (take 1 (front ++ fds)) (drop 1 (front ++ fds))
                (send_one m fd st),
            length-split (front ++ fds),
            length-append front fds,
            length-send_one m fd st,
          ))
      | inr e ↦ rw e (
          omega (
            arith,
            send_targets-length fuel m (front ++ fd ∷ []) fds st,
            length-append front (fd ∷ []),
          ))
    ]

-- Either nothing happens, or more has been sent.
abbrev Grows : Sending → Sending → Type 0
Grows st st' = (st' ≡ st) ⊎ (length st.sent < length st'.sent)

Grows-le : (st st' : Sending) → Grows st st' → length st.sent ≤ length st'.sent
Grows-le st st' (inl same) = omega (arith, ap (λ (t : Sending). length t.sent) same)
Grows-le st st' (inr more) = omega arith

trans-Grows : (st t u : Sending) → Grows st t → Grows t u → Grows st u
trans-Grows st t u (inl same) k = rw (← same) k
trans-Grows st t u (inr more) k = inr (omega (arith, Grows-le t u k))

send_one_longer :
    (m : Message) (fd : ℕ) (st st' : Sending)
    → Grows (send_one m fd st) st'
    → length st.sent < length st'.sent
send_one_longer m fd st st' h =
    omega (arith, length-send_one m fd st, Grows-le (send_one m fd st) st' h)

send_targets-Grows :
    (fuel : ℕ) (m : Message) (front fds : FdSet) (st : Sending)
    → Grows st (send_targets fuel m front fds st).1
unfolding send_targets
send_targets-Grows zero m front fds st = inl refl
send_targets-Grows (suc fuel) m front [] st = inl refl
send_targets-Grows (suc fuel) m front (fd ∷ fds) st = elim (Bool-cases (is_sendable m.text fd st)) [
  | inl e ↦ rw e (
      inr (
        send_one_longer m fd st _ (
          send_targets-Grows fuel m (take 1 (front ++ fds)) (drop 1 (front ++ fds))
            (send_one m fd st))))
  | inr e ↦ rw e (send_targets-Grows fuel m (front ++ fd ∷ []) fds st)
]

-- A complete message goes to some target, if one can be written to.
send_targets_sends :
    (fuel fd : ℕ) (m : Message) (front fds : FdSet) (st : Sending)
    → length fds < fuel
    → contains m.text crlf ≡ true
    → member fd st.writable ≡ true
    → member fd fds ≡ true
    → length st.sent < length (send_targets fuel m front fds st).1.sent
unfolding send_targets member
send_targets_sends zero fd m front fds st h c w t = absurd (omega arith)
send_targets_sends (suc fuel) fd m front [] st h c w t = cc
send_targets_sends (suc fuel) fd m front (j ∷ fds) st h c w t =
    elim (Bool-cases (is_sendable m.text j st)) [
      | inl e ↦ rw e (
          send_one_longer m j st _ (
            send_targets-Grows fuel m (take 1 (front ++ fds)) (drop 1 (front ++ fds))
              (send_one m j st)))
      | inr e ↦ rw e (
          send_targets_sends fuel fd m (front ++ j ∷ []) fds st (omega arith) c w
            (ground (arith, t, e, c, w, ==_iff j fd)))
    ]

send_all-Grows : (ms : List Message) (st : Sending) → Grows st (send_all ms st).1
unfolding send_all
send_all-Grows [] st = inl refl
send_all-Grows (m ∷ ms) st =
    let st' : Sending = (send_targets (send_fuel m.target) m [] m.target st).1 in
    trans-Grows st st' (send_all ms st').1
      (send_targets-Grows (send_fuel m.target) m [] m.target st) (send_all-Grows ms st')

send_all-waiting :
    (ms : List Message) (st : Sending)
    → waiting (send_all ms st).0 + length (send_all ms st).1.sent ≡ waiting ms + length st.sent
unfolding send_all
send_all-waiting [] st = omega arith
send_all-waiting (m ∷ ms) st = ground (
  arith,
  send_targets-length (send_fuel m.target) m [] m.target st,
  send_all-waiting ms (send_targets (send_fuel m.target) m [] m.target st).1,
)

send_all_sends :
    (fd : ℕ) (ms : List Message) (st : Sending)
    → is_waiting fd ms ≡ true
    → member fd st.writable ≡ true
    → length st.sent < length (send_all ms st).1.sent
unfolding send_all
send_all_sends fd [] st h w = cc
send_all_sends fd (m ∷ ms) st h w =
    elim (send_targets-Grows (send_fuel m.target) m [] m.target st) [
      | inl same ↦ elim (Bool-cases (member fd m.target && contains m.text crlf)) [
        | inl e ↦ absurd (
            omega (
              arith,
              send_targets_sends (send_fuel m.target) fd m [] m.target st (omega arith)
                  (ground (arith, e)) w (ground (arith, e)),
              ap (λ (t : Sending). length t.sent) same,
            ))
        | inr e ↦ omega (
          arith,
          send_all_sends fd ms st (ground (arith, h, e)) w,
          ap (λ (t : Sending). length (send_all ms t).1.sent) same,
        )
      ]
      | inr more ↦ omega (arith, Grows-le _ _ (send_all-Grows ms _))
    ]

-- Where a complete message waits for a client that can be written to, a run of send_messages that
-- returns sends something, and after it less is waiting by as much as was sent, or still less.
pub send_messages_progress :
    (writable : FdSet) (s s' : Server) (sent : List (ℕ × Text)) (fd : ℕ)
    → member fd writable ≡ true
    → is_waiting fd s.msgs ≡ true
    → send_messages writable s ≡ ok (s', sent)
    → (0 < length sent) × (waiting s'.msgs + length sent ≤ waiting s.msgs)
unfolding send_messages
send_messages_progress writable s s' sent fd w h e =
    let (ms, q, f) = >>=-eq-ok (check_msgs_to_delete false s.msgs) _ e in
    let started : Sending = record { serv = s; writable = writable; sent = [] } in
    let kept = prepared-KeepsWaiting fd s.msgs ms q in
    let still : is_waiting fd (merge_msgs ms) ≡ true = ground (arith, kept, h) in
    ground (
      arith,
      f,
      kept,
      send_all-waiting (merge_msgs ms) started,
      send_all_sends fd (merge_msgs ms) started still w,
    )
