-- ===== src/Exchange/Receiving/Buffer.antt =====
-- The buffer of receive_messages, which is not cleared between two clients.
use ft_irc_duck.Base.{
  bind_ok, List, Outcome, ok, ◌>>=◌, ◌-◌, ==_iff, ℕ, zero, suc, ◌≤◌, false, Option, some, [], ◌∷◌,
  ◌++◌, ◌≡◌, refl, ◌∙◌, ap, arith, length, drop, append-nil,
}
use ft_irc_duck.Text.{Text, has}
use ft_irc_duck.Map.{Map, lookup, fd_key}
use ft_irc_duck.Client.{Client}
use ft_irc_duck.Server.{Server, client_at}
use ft_irc_duck.Commands.Parsing.{Handler}
use ft_irc_duck.Exchange.Receiving.{
  Received, bytes, overwrite, c_string, zeros, found_text, receive_all, sockets, receive_messages,
}

c_string-append : (t u : Text) → has 0 t ≡ false → c_string (t ++ u) ≡ t ++ c_string u
unfolding c_string has
c_string-append [] u h = refl
c_string-append (x ∷ xs) u h = ground (arith, c_string-append xs u)

c_string-zeros : (n : ℕ) → c_string (zeros n) ≡ []
unfolding c_string
c_string-zeros zero = refl
c_string-zeros (suc n) = refl

has-drop : (n : ℕ) (t : Text) → has 0 t ≡ false → has 0 (drop n t) ≡ false
unfolding has
has-drop zero t h = h
has-drop (suc n) [] h = refl
has-drop (suc n) (x ∷ xs) h = ground (arith, has-drop n xs)

drop-append : (n : ℕ) (t u : Text) → n ≤ length t → drop n (t ++ u) ≡ drop n t ++ u
drop-append zero t u h = refl
drop-append (suc n) [] u h = absurd (omega arith)
drop-append (suc n) (x ∷ xs) u h = drop-append n xs u (omega arith)

drop-zeros : (k n : ℕ) → k ≤ n → drop k (zeros n) ≡ zeros (n - k)
drop-zeros zero n h = ap zeros (omega arith)
drop-zeros (suc k) zero h = absurd (omega arith)
drop-zeros (suc k) (suc n) h = drop-zeros k n (omega arith) ∙ ap zeros (omega arith)

-- What is found in a buffer that holds a text and zeros behind it, once another text is written over
-- its start.
overwritten :
    (n : ℕ) (first t : Text)
    → has 0 first ≡ false
    → has 0 t ≡ false
    → length t ≤ length first
    → c_string (overwrite t (first ++ zeros n)) ≡ t ++ drop (length t) first
overwritten n first t hf ht le =
    ap (λ (u : Text). c_string (t ++ u)) (drop-append (length t) first (zeros n) le)
    ∙ c_string-append t _ ht
    ∙ ap (◌++◌ t) (
        c_string-append (drop (length t) first) (zeros n) (has-drop (length t) first hf)
        ∙ ap (◌++◌ (drop (length t) first)) (c_string-zeros n)
        ∙ append-nil (drop (length t) first))

pub first_written :
    (n : ℕ) (first : Text)
    → length first ≤ n
    → overwrite first (zeros n) ≡ first ++ zeros (n - length first)
first_written n first le = ap (◌++◌ first) (drop-zeros (length first) n le)

pub first_read : (n : ℕ) (first : Text) → has 0 first ≡ false → c_string (first ++ zeros n) ≡ first
first_read n first h =
    c_string-append first (zeros n) h ∙ ap (◌++◌ first) (c_string-zeros n) ∙ append-nil first

lookup_head : (fd : ℕ) (c : Client) (m : Map ℕ Client) → lookup fd ((fd, c) ∷ m) ≡ some c
unfolding lookup
lookup_head fd c m = ground (arith, ==_iff fd fd)

-- One round of the loop over the clients.
pub receive_one :
    (commands : Map Text Handler) (reads : ℕ → Option Received) (fd : ℕ) (fds : List ℕ) (c : Client)
    (t buffer : Text) (s : Server)
    → lookup fd s.client_list ≡ some c
    → reads fd ≡ some (bytes t)
    → receive_all commands reads (fd ∷ fds) buffer s ≡ (
        found_text commands c (c_string (overwrite t buffer)) s
        >>= receive_all commands reads fds (overwrite t buffer))
unfolding receive_all client_at
receive_one commands reads fd fds c t buffer s found e =
    rw (e, receive_all) (rw (found, client_at) refl)

stale_from :
    (commands : Map Text Handler) (reads : ℕ → Option Received) (n fd gd : ℕ) (c d : Client)
    (first t : Text) (s s' : Server)
    → lookup fd s.client_list ≡ some c
    → reads fd ≡ some (bytes first)
    → reads gd ≡ some (bytes t)
    → has 0 first ≡ false
    → has 0 t ≡ false
    → length t ≤ length first
    → length first ≤ n
    → found_text commands c first s ≡ ok s'
    → lookup gd s'.client_list ≡ some d
    → receive_all commands reads (fd ∷ gd ∷ []) (zeros n) s
      ≡ found_text commands d (t ++ drop (length t) first) s'
stale_from commands reads n fd gd c d first t s s' fc rf rg hf ht le room one fd' =
    let rest : ℕ = n - length first in
    receive_one commands reads fd (gd ∷ []) c first (zeros n) s fc rf
    ∙ ap
        (λ (b : Text).
          found_text commands c (c_string b) s >>= receive_all commands reads (gd ∷ []) b)
        (first_written n first room)
    ∙ ap
        (λ (u : Text).
          found_text commands c u s >>= receive_all commands reads (gd ∷ []) (first ++ zeros rest))
        (first_read rest first hf)
    ∙ ap (λ (o : Outcome Server). o >>= receive_all commands reads (gd ∷ []) (first ++ zeros rest))
        one
    ∙ receive_one commands reads gd [] d t (first ++ zeros rest) s' fd' rg
    ∙ ap
        (λ (u : Text).
          found_text commands d u s'
          >>= receive_all commands reads [] (overwrite t (first ++ zeros rest)))
        (overwritten rest first t hf ht le)
    ∙ unfold receive_all in bind_ok (found_text commands d (t ++ drop (length t) first) s')

-- Of the only two clients of the server, read in one round, the first in the order of their sockets
-- sends up to 512 bytes, which are taken without a fault, and the second, which is still there then, no more bytes
-- than the first; none of the bytes is zero. The server takes the second to have sent its own bytes
-- and then what is left of the first client's.
pub receive_messages_stale :
    (commands : Map Text Handler) (reads : ℕ → Option Received) (fd gd : ℕ) (c d : Client)
    (first t : Text) (s s' : Server)
    → s.client_list ≡ (fd, c) ∷ (gd, d) ∷ []
    → reads fd ≡ some (bytes first)
    → reads gd ≡ some (bytes t)
    → has 0 first ≡ false
    → has 0 t ≡ false
    → length t ≤ length first
    → length first ≤ 512
    → found_text commands c first s ≡ ok s'
    → lookup gd s'.client_list ≡ some d
    → receive_messages commands reads s ≡ found_text commands d (t ++ drop (length t) first) s'
unfolding receive_messages
receive_messages_stale commands reads fd gd c d first t s s' two rf rg hf ht le room one there =
    ap (λ (m : Map ℕ Client). receive_all commands reads (sockets m) (zeros 1024) s) two
    ∙ stale_from commands reads 1024 fd gd c d first t s s'
        (rw two (lookup_head fd c ((gd, d) ∷ []))) rf rg hf ht le (omega arith) one there
