-- ===== src/Commands/Clients/Leaving.antt =====
-- QUIT and the clients of the server.
use ft_irc_duck.Base.{
  ℕ, Bool, true, false, ◌⊎◌, [], ◌∷◌, ◌≡◌, ◌∙◌, ap, arith, inl, inr, ok, >>=-eq-ok, if◌then◌else◌,
  Option-cases, Outcome-cases,
}
use ft_irc_duck.Text.{Text}
use ft_irc_duck.Map.{Map, FdSet, lookup, erase, fd_key, text_key}
use ft_irc_duck.Client.{Client}
use ft_irc_duck.Channel.{Channel}
use ft_irc_duck.Message.{Message, from_client, reply_format}
use ft_irc_duck.Server.{Server, post, client_at, del_client}
use ft_irc_duck.Membership.{leave}
use ft_irc_duck.Commands.Quit.{del_client_from_msgs, goodbye, quit_comment}
use ft_irc_duck.Commands.Quit.{Farewell, leave_one, leave_each, leave_all_channels, clean_up, quit}
use ft_irc_duck.Commands.Clients.{SameClients, leave-SameClients}

leave_each_clients :
    (fd : ℕ) (channels : Map Text Channel) (s : Server) (target : FdSet) (f : Farewell)
    → leave_each fd channels s target ≡ ok f
    → SameClients s f.serv
unfolding leave_each leave_one
leave_each_clients fd [] s target f h = ground arith
leave_each_clients fd ((name, c) ∷ rest) s target f h =
    let (first, e, g) = >>=-eq-ok (leave_one fd name c s target) _ h in
    let (later, d, k) = >>=-eq-ok (leave_each fd rest first.serv first.target) _ g in
    let same : f.serv ≡ later.serv = ground (arith, k) in
    rw same (leave_each_clients fd rest first.serv first.target later d ∙ left first e)
  where
    left : (first : Farewell) → leave_one fd name c s target ≡ ok first → SameClients s first.serv
    left first e = elim (Outcome-cases (leave fd c s)) [
      | inr (x, q) ↦ ground (arith, q, e)
      | inl ((c', t), q) ↦ ground (arith, q, e, leave-SameClients fd c c' s t q)
    ]

leave_all_clients :
    (fd : ℕ) (cl : Client) (comment : Text) (s s' : Server)
    → leave_all_channels fd cl comment s ≡ ok s'
    → SameClients s s'
unfolding leave_all_channels post
leave_all_clients fd cl comment s s' h =
    let (w, e, g) = >>=-eq-ok (reply_format (from_client cl) _ comment s.socket_id) _ h in
    let (f, d, k) = >>=-eq-ok (leave_each fd s.channel_list s []) _ g in
    ground (arith, k, leave_each_clients fd s.channel_list s [] f d)

clean_up_clients :
    (fd : ℕ) (cl : Client) (comment : Text) (s s' : Server)
    → clean_up fd cl comment s ≡ ok s'
    → SameClients s s'
unfolding clean_up
clean_up_clients fd cl comment s s' h =
    let (t, e, f) = >>=-eq-ok (leave_all_channels fd cl comment s) _ h in
    let (ms, d, g) = >>=-eq-ok (del_client_from_msgs fd false t.msgs) _ f in
    ground (arith, g, leave_all_clients fd cl comment s t e)

maybe_clean_up_clients :
    (registered : Bool) (fd : ℕ) (cl : Client) (comment : Text) (s s' : Server)
    → (if registered then clean_up fd cl comment s else ok s) ≡ ok s'
    → SameClients s s'
maybe_clean_up_clients true fd cl comment s s' h = clean_up_clients fd cl comment s s' h
maybe_clean_up_clients false fd cl comment s s' h = ground arith

goodbye_effect :
    (s s' : Server) (m m' : Message)
    → goodbye s m ≡ ok (s', m')
    → SameClients s s' ⊎ (s'.client_list ≡ erase m.emitter s.client_list)
unfolding goodbye del_client
goodbye_effect s s' m m' h = elim (Option-cases (lookup m.emitter s.client_list)) [
  | inl e ↦ inl (ground (arith, e, h))
  | inr (c, e) ↦ ground (arith, e, h)
]

-- A client that quits is told so, or is gone where its connection is closed.
pub quit_effect :
    (s s' : Server) (m m' : Message)
    → quit s m ≡ ok (s', m')
    → SameClients s s' ⊎ (s'.client_list ≡ erase m.emitter s.client_list)
unfolding quit
quit_effect s s' m m' h =
    let (cl, e, f) = >>=-eq-ok (client_at s m.emitter) _ h in
    let (t, d, g) =
      >>=-eq-ok
        (if cl.is_registered then clean_up m.emitter cl (quit_comment m.cmd_param) s else ok s) _
        f in
    let same =
      maybe_clean_up_clients cl.is_registered m.emitter cl (quit_comment m.cmd_param) s t d in
    elim (goodbye_effect t s' m m' g) [
      | inl k ↦ inl (k ∙ same)
      | inr k ↦ inr (k ∙ ap (erase m.emitter) same)
    ]
