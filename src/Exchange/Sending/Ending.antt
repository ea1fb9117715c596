-- ===== src/Exchange/Sending/Ending.antt =====
-- The inner loop of send_messages ends.
use ft_irc_duck.Base.{
  true, false, ℕ, zero, suc, ◌+◌, ◌≤◌, ◌<◌, [], ◌∷◌, ◌++◌, ◌≡◌, arith, inl, inr, Bool-cases, take,
  drop, length, length-append,
}
use Prim.Native.Nat.{◌*◌}
use ft_irc_duck.Map.{FdSet}
use ft_irc_duck.Message.{Message}
use ft_irc_duck.Exchange.Sending.{Sending, is_sendable, send_one, send_targets, send_fuel}

-- The rounds that are left, with so many targets and so many of them ahead.
abbrev rounds_left : ℕ → ℕ → ℕ
rounds_left targets ahead = targets * targets + ahead

square_suc : (k : ℕ) → suc k * suc k ≡ k * k + k + k + 1
square_suc k = grind arith

pub length-split : (xs : FdSet) → length (take 1 xs) + length (drop 1 xs) ≡ length xs
length-split [] = omega arith
length-split (x ∷ xs) = omega arith

-- A run of the inner loop in so many rounds, from the targets that it has passed over and those ahead
-- to the targets that are left and what is sent.
pub data SendRun (m : Message) : ℕ → FdSet → FdSet → Sending → FdSet × Sending → Type 0 where
  stop : (front : FdSet) (st : Sending) → SendRun m 0 front [] st (front, st)
  pass :
      {n : ℕ} {r : FdSet × Sending} (front fds : FdSet) (fd : ℕ) (st : Sending)
      → is_sendable m.text fd st ≡ false
      → SendRun m n (front ++ fd ∷ []) fds st r
      → SendRun m (suc n) front (fd ∷ fds) st r
  send :
      {n : ℕ} {r : FdSet × Sending} (front fds : FdSet) (fd : ℕ) (st : Sending)
      → is_sendable m.text fd st ≡ true
      → SendRun m n (take 1 (front ++ fds)) (drop 1 (front ++ fds)) (send_one m fd st) r
      → SendRun m (suc n) front (fd ∷ fds) st r

-- A run that ends with what is given, within the given number of rounds.
abbrev pub EndsWithin : ℕ → Message → FdSet → FdSet → Sending → FdSet × Sending → Type 0
EndsWithin bound m front fds st r = (n : ℕ) × (n ≤ bound) × SendRun m n front fds st r

send_targets_runs :
    (fuel k : ℕ) (m : Message) (front fds : FdSet) (st : Sending)
    → length front + length fds ≡ k
    → rounds_left k (length fds) < fuel
    → EndsWithin (rounds_left k (length fds)) m front fds st (send_targets fuel m front fds st)
unfolding send_targets
send_targets_runs zero k m front fds st e h = absurd (omega arith)
send_targets_runs (suc fuel) k m front [] st e h = (0, omega arith, stop front st)
send_targets_runs (suc fuel) zero m front (fd ∷ fds) st e h = absurd (omega arith)
send_targets_runs (suc fuel) (suc k) m front (fd ∷ fds) st e h =
    elim (Bool-cases (is_sendable m.text fd st)) [
      | inl q ↦
          let (n, le, run) =
            send_targets_runs fuel k m (take 1 (front ++ fds)) (drop 1 (front ++ fds))
              (send_one m fd st) split (omega (arith, square, split)) in
          (suc n, omega (arith, le, square, split), rw q (send front fds fd st q run))
      | inr q ↦
          let (n, le, run) =
            send_targets_runs fuel (suc k) m (front ++ fd ∷ []) fds st
              (omega (arith, length-append front (fd ∷ []))) (omega arith) in
          (suc n, omega (arith, le), rw q (pass front fds fd st q run))
    ]
  where
    split : length (take 1 (front ++ fds)) + length (drop 1 (front ++ fds)) ≡ k
    split = omega (arith, length-split (front ++ fds), length-append front fds)

    square : suc k * suc k ≡ k * k + k + k + 1
    square = square_suc k

-- The inner loop of send_messages ends, whatever is writable: from the targets of a message, a run of
-- its rounds reaches the end of the targets after at most n * n + n rounds for n targets, and leaves
-- what the model gives.
pub send_targets_end :
    (m : Message) (st : Sending)
    → EndsWithin
        (length m.target * length m.target + length m.target)
        m
        []
        m.target
        st
        (send_targets (send_fuel m.target) m [] m.target st)
send_targets_end m st =
    send_targets_runs (send_fuel m.target) (length m.target) m [] m.target st (omega arith)
      (omega arith)
