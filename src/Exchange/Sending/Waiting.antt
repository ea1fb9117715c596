-- ===== src/Exchange/Sending/Waiting.antt =====
-- What waits to be sent, before and after the messages are deleted and merged.
use ft_irc_duck.Base.{
  ℕ, zero, suc, ◌+◌, ◌≤◌, Bool, true, false, ◌&&◌, ◌||◌, List, [], ◌∷◌, ◌++◌, ◌≡◌, refl, ap, arith,
  ok, length, Option-cases, Bool-cases, inl, inr, ◌⊎◌, is_empty, >>=-eq-ok,
}
use ft_irc_duck.Text.{Text, codes, contains, starts_with, find}
use ft_irc_duck.Map.{member}
use ft_irc_duck.Message.{Message}
use ft_irc_duck.Exchange.Sending.{
  is_deletable, check_msgs_to_delete, Found, find_same, absorb, resume, merge_from, merge_msgs,
}
use ft_irc_duck.Exchange.Sending.Merging.{IsFound, find_same-IsFound}

-- How many texts the clients wait for.
abbrev pub waiting : List Message → ℕ
waiting [] = 0
waiting (m ∷ ms) = length m.target + waiting ms

abbrev pub crlf : Text
crlf = codes "\r\n"

-- A complete message waits for the client.
abbrev pub is_waiting : ℕ → List Message → Bool
is_waiting fd [] = false
is_waiting fd (m ∷ ms) = (member fd m.target && contains m.text crlf) || is_waiting fd ms

starts_with-append : (a b t : Text) → starts_with a t ≡ true → starts_with (a ++ b) t ≡ true
unfolding starts_with
starts_with-append [] [] [] h = refl
starts_with-append [] (y ∷ b) [] h = refl
starts_with-append [] b (z ∷ t) h = cc
starts_with-append (x ∷ a) b [] h = refl
starts_with-append (x ∷ a) b (z ∷ t) h = ground (arith, h, starts_with-append a b t)

contains-append_left : (a b : Text) → contains a crlf ≡ true → contains (a ++ b) crlf ≡ true
unfolding contains starts_with
contains-append_left [] b h = cc
contains-append_left (x ∷ a) b h =
    ground (arith, h, starts_with-append (x ∷ a) b crlf, contains-append_left a b)

contains-append_right : (a b : Text) → contains b crlf ≡ true → contains (a ++ b) crlf ≡ true
unfolding contains
contains-append_right [] b h = h
contains-append_right (x ∷ a) b h = ground (arith, h, contains-append_right a b h)

waiting-append : (ms ns : List Message) → waiting (ms ++ ns) ≡ waiting ms + waiting ns
waiting-append [] ns = omega arith
waiting-append (m ∷ ms) ns = omega (arith, waiting-append ms ns)

is_waiting-append :
    (fd : ℕ) (ms ns : List Message)
    → is_waiting fd (ms ++ ns) ≡ (is_waiting fd ms || is_waiting fd ns)
is_waiting-append fd [] ns = refl
is_waiting-append fd (m ∷ ms) ns = ground (arith, is_waiting-append fd ms ns)

-- Nothing comes to wait, and for a client that a complete message waits for one still does.
abbrev pub KeepsWaiting : ℕ → List Message → List Message → Type 0
KeepsWaiting fd ms ns =
    (waiting ns ≤ waiting ms) × ((is_waiting fd ms ≡ false) ⊎ (is_waiting fd ns ≡ true))

resume-KeepsWaiting :
    (fd : ℕ) (go_on : List Message → List Message)
    → ((ms : List Message) → KeepsWaiting fd ms (go_on ms))
    → (m : Message) (before after : List Message)
    → KeepsWaiting fd (m ∷ before ++ after) (resume go_on m before after)
unfolding resume
resume-KeepsWaiting fd go_on h m [] after = h (m ∷ after)
resume-KeepsWaiting fd go_on h m (x ∷ xs) after =
    ground (arith, resume-KeepsWaiting fd go_on h x xs after)

absorb-KeepsWaiting :
    (fd : ℕ) (m : Message) (ms : List Message) (f : Found)
    → IsFound m.target ms f
    → KeepsWaiting fd (m ∷ ms) (absorb m f.found ∷ f.before ++ f.after)
absorb-KeepsWaiting fd m ms f k =
    let w = ap waiting k.parts in
    let b = ap (is_waiting fd) k.parts in
    ground (
      arith,
      w,
      b,
      k.same,
      waiting-append f.before (f.found ∷ f.after),
      waiting-append f.before f.after,
      is_waiting-append fd f.before (f.found ∷ f.after),
      is_waiting-append fd f.before f.after,
      contains-append_left m.text f.found.text,
      contains-append_right m.text f.found.text,
    )

trans-KeepsWaiting :
    (fd : ℕ) (ms ns ps : List Message)
    → KeepsWaiting fd ms ns
    → KeepsWaiting fd ns ps
    → KeepsWaiting fd ms ps
trans-KeepsWaiting fd ms ns ps h k = ground arith

merge_from-KeepsWaiting :
    (fuel fd : ℕ) (ms : List Message) → KeepsWaiting fd ms (merge_from fuel ms)
unfolding merge_from
merge_from-KeepsWaiting zero fd ms = ground arith
merge_from-KeepsWaiting (suc fuel) fd [] = ground arith
merge_from-KeepsWaiting (suc fuel) fd (m ∷ ms) = elim (Option-cases (find_same m.target ms)) [
  | inl e ↦ rw (e, merge_from) (ground (arith, merge_from-KeepsWaiting fuel fd ms))
  | inr (f, e) ↦
      rw (e, merge_from)
        (trans-KeepsWaiting fd (m ∷ ms) (absorb m f.found ∷ f.before ++ f.after) _
          (absorb-KeepsWaiting fd m ms f (find_same-IsFound m.target ms f e))
          (resume-KeepsWaiting fd (merge_from fuel) (merge_from-KeepsWaiting fuel fd)
            (absorb m f.found) f.before f.after))
]

is_deletable-target : (m : Message) → is_deletable m ≡ true → is_empty m.target ≡ true
unfolding is_deletable
is_deletable-target m h = elim (Option-cases (find b'\n' m.text)) [
  | inl e ↦ ground (arith, e, h)
  | inr (i, e) ↦ ground (arith, e, h)
]

deletable : (fd : ℕ) (m : Message) → is_empty m.target ≡ true → member fd m.target ≡ false
unfolding member
deletable fd m h = ground (arith, h)

check-KeepsWaiting :
    (others : Bool) (fd : ℕ) (ms ns : List Message)
    → check_msgs_to_delete others ms ≡ ok ns
    → KeepsWaiting fd ms ns
unfolding check_msgs_to_delete
check-KeepsWaiting others fd [] ns h = ground (arith, h)
check-KeepsWaiting others fd (m ∷ []) ns h = elim (Bool-cases (is_deletable m)) [
  | inl e ↦ ground (arith, h, e, is_deletable-target m e, deletable fd m)
  | inr e ↦ ground (arith, h, e)
]
check-KeepsWaiting others fd (m ∷ n ∷ ms) ns h = elim (Bool-cases (is_deletable m)) [
  | inl e ↦
      let (rest, q, r) =
        >>=-eq-ok (check_msgs_to_delete true ms) (λ rest. ok (n ∷ rest)) (rw e at h) in
      ground
        (arith, r, is_deletable-target m e, deletable fd m, check-KeepsWaiting true fd ms rest q)
  | inr e ↦
      let (rest, q, r) =
        >>=-eq-ok (check_msgs_to_delete true (n ∷ ms)) (λ rest. ok (m ∷ rest)) (rw e at h) in
      ground (arith, r, check-KeepsWaiting true fd (n ∷ ms) rest q)
]

-- What is deleted and merged before something is sent.
pub prepared-KeepsWaiting :
    (fd : ℕ) (ms ns : List Message)
    → check_msgs_to_delete false ms ≡ ok ns
    → KeepsWaiting fd ms (merge_msgs ns)
unfolding merge_msgs
prepared-KeepsWaiting fd ms ns h =
    trans-KeepsWaiting fd ms ns (merge_from (length ns) ns) (check-KeepsWaiting false fd ms ns h)
      (merge_from-KeepsWaiting (length ns) fd ns)
