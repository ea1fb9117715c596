-- ===== src/Commands/Quit/Gone.antt =====
-- A client that has quit, and the channels.
use ft_irc_duck.Base.{
  ℕ, true, false, some, [], ◌∷◌, ◌++◌, ◌≡◌, arith, inl, inr, ok, ◌>>=◌, >>=-eq-ok, Outcome-cases,
  All,
}
use ft_irc_duck.Text.{Text}
use ft_irc_duck.Map.{Map, FdSet, lookup, fd_key, text_key}
use ft_irc_duck.Client.{Client}
use ft_irc_duck.Channel.{Channel}
use ft_irc_duck.Message.{Message, from_client, reply_format}
use ft_irc_duck.Server.{Server, post, client_at, del_client}
use ft_irc_duck.Membership.{leave}
use ft_irc_duck.Membership.Leaving.{leave-ok-membership}
use ft_irc_duck.Commands.Quit.{
  Farewell, is_member_of, leave_one, leave_each, leave_all_channels, del_client_from_msgs,
  quit_comment, clean_up, goodbye, quit,
}

-- The client is a member of none of the channels.
abbrev pub IsGone : ℕ → Map Text Channel → Type 0
IsGone fd = All λ (entry : Text × Channel). is_member_of fd entry.1 ≡ false

append-IsGone :
    (fd : ℕ) (xs ys : Map Text Channel) → IsGone fd xs → IsGone fd ys → IsGone fd (xs ++ ys)
append-IsGone fd [] ys h k = k
append-IsGone fd (x ∷ xs) ys h k = (h.0, append-IsGone fd xs ys h.1 k)

leave_one-IsGone :
    (fd : ℕ) (name : Text) (c : Channel) (s : Server) (target : FdSet) (f : Farewell)
    → leave_one fd name c s target ≡ ok f
    → IsGone fd f.channels
unfolding leave_one
leave_one-IsGone fd name c s target f h = elim (Outcome-cases (leave fd c s)) [
  | inl ((c', t), q) ↦
      let gone = (leave-ok-membership fd c c' s t q).0 in ground (arith, h, q, gone)
  | inr (x, q) ↦ ground (arith, h, q)
]

leave_each-IsGone :
    (fd : ℕ) (channels : Map Text Channel) (s : Server) (target : FdSet) (f : Farewell)
    → leave_each fd channels s target ≡ ok f
    → IsGone fd f.channels
unfolding leave_each
leave_each-IsGone fd [] s target f h = let same : f.channels ≡ [] = ground (arith, h) in rw same tt
leave_each-IsGone fd ((name, c) ∷ rest) s target f h =
    let (first, e, g) = >>=-eq-ok (leave_one fd name c s target) _ h in
    let (later, d, k) = >>=-eq-ok (leave_each fd rest first.serv first.target) _ g in
    let same : f.channels ≡ first.channels ++ later.channels = ground (arith, k) in
    rw same (
      append-IsGone fd first.channels later.channels (leave_one-IsGone fd name c s target first e)
        (leave_each-IsGone fd rest first.serv first.target later d))

clean_up-IsGone :
    (fd : ℕ) (cl : Client) (comment : Text) (s s' : Server)
    → clean_up fd cl comment s ≡ ok s'
    → IsGone fd s'.channel_list
unfolding clean_up leave_all_channels post
clean_up-IsGone fd cl comment s s' h =
    let (t, e, f) = >>=-eq-ok (leave_all_channels fd cl comment s) _ h in
    let (w, a, b) = >>=-eq-ok (reply_format (from_client cl) _ comment s.socket_id) _ e in
    let (farewell, d, k) = >>=-eq-ok (leave_each fd s.channel_list s []) _ b in
    let (ms, c, g) = >>=-eq-ok (del_client_from_msgs fd false t.msgs) _ f in
    let same : s'.channel_list ≡ farewell.channels = ground (arith, g, k) in
    rw same (leave_each-IsGone fd s.channel_list s [] farewell d)

goodbye_channels :
    (s s' : Server) (m m' : Message) → goodbye s m ≡ ok (s', m') → s'.channel_list ≡ s.channel_list
unfolding goodbye del_client
goodbye_channels s s' m m' h = ground arith

-- Where QUIT of a registered client returns, on its own wish or as its connection is closed, the
-- client is a member of no channel.
pub quit-IsGone :
    (s s' : Server) (m m' : Message) (cl : Client)
    → lookup m.emitter s.client_list ≡ some cl
    → cl.is_registered ≡ true
    → quit s m ≡ ok (s', m')
    → IsGone m.emitter s'.channel_list
unfolding quit client_at
quit-IsGone s s' m m' cl found registered h =
    let cleaned : (clean_up m.emitter cl (quit_comment m.cmd_param) s >>= λ t. goodbye t m)
        ≡ ok (s', m') =
      ground (arith, found, registered, h) in
    let (t, e, f) = >>=-eq-ok (clean_up m.emitter cl (quit_comment m.cmd_param) s) _ cleaned in
    rw (goodbye_channels t s' m m' f)
      (clean_up-IsGone m.emitter cl (quit_comment m.cmd_param) s t e)
