-- ===== src/Commands/Quit.antt =====
-- srcs/commands/management/Quit.cpp: a client leaves the server.
pub mod Gone
use ft_irc_duck.Base.{
  ℕ, Bool, true, false, not, none, some, List, [], ◌∷◌, ◌++◌, ◌==◌, if◌then◌else◌, is_empty,
  Outcome, ok, fault, end_iterator, ◌>>=◌,
}
use ft_irc_duck.Text.{Text, codes}
use ft_irc_duck.Map.{Map, FdSet, lookup, remove, fd_key}
use ft_irc_duck.Reply.{template, quit_manual, rpl_error, rpl_quit}
use ft_irc_duck.Client.{Client}
use ft_irc_duck.Message.{Message, from_client, reply_format}
use ft_irc_duck.Channel.{Channel}
use ft_irc_duck.Server.{Server, post, client_at, del_client}
use ft_irc_duck.Membership.{leave}
use ft_irc_duck.Commands.Kick.{add_members}

-- What the loop of leave_all_channels has done: the channels so far, and who is told.
pub record Farewell : Type 0 where
  pub channels : Map Text Channel
  pub serv : Server
  pub target : FdSet

abbrev pub is_member_of : ℕ → Channel → Bool
is_member_of fd c = elim (lookup fd c.clients) [ none ↦ false | some st ↦ st.is_member ]

-- One round of the loop of Quit::leave_all_channels.
unfoldable pub leave_one : ℕ → Text → Channel → Server → FdSet → Outcome Farewell
leave_one fd name c s target =
    if is_member_of fd c
    then (leave fd c s >>= λ (c', s').
        ok (record {
          channels = (name, c') ∷ [];
          serv = s';
          target = add_members c'.clients target;
        }))
    else ok (record { channels = (name, c) ∷ []; serv = s; target = target })

-- The loop; leaving a channel reads no other channel.
unfoldable pub leave_each : ℕ → Map Text Channel → Server → FdSet → Outcome Farewell
leave_each fd [] s target = ok (record { channels = []; serv = s; target = target })
leave_each fd ((name, c) ∷ rest) s target = leave_one fd name c s target >>= λ first.
    leave_each fd rest first.serv first.target >>= λ later.
    ok (record later { channels = first.channels ++ later.channels })

-- Quit::leave_all_channels
unfoldable pub leave_all_channels : ℕ → Client → Text → Server → Outcome Server
leave_all_channels fd cl comment s =
    reply_format (from_client cl) (template rpl_quit) comment s.socket_id >>= λ warning.
    leave_each fd s.channel_list s [] >>= λ f.
    let s' = record f.serv { channel_list = f.channels } in
    ok (if is_empty f.target then s' else post (record warning { target = f.target }) s')

-- The size of a set is 1, and the client is in it.
unfoldable pub is_only_target : ℕ → FdSet → Bool
is_only_target fd [] = false
is_only_target fd (x ∷ []) = x == fd
is_only_target fd (x ∷ y ∷ xs) = false

-- Quit::del_client_from_msgs. After an erasure the loop steps over the message that moved up, and
-- steps past the end if the last message was erased while others are left.
unfoldable pub del_client_from_msgs : ℕ → Bool → List Message → Outcome (List Message)
del_client_from_msgs fd others [] = ok []
del_client_from_msgs fd others (m ∷ []) =
    if is_only_target fd m.target
    then (if others then fault end_iterator else ok [])
    else ok (record m { target = remove fd m.target } ∷ [])
del_client_from_msgs fd others (m ∷ n ∷ ms) =
    let skipping = del_client_from_msgs fd true ms in
    let going_on = del_client_from_msgs fd true (n ∷ ms) in
    if is_only_target fd m.target
    then (skipping >>= λ rest. ok (n ∷ rest))
    else (going_on >>= λ rest. ok (record m { target = remove fd m.target } ∷ rest))

abbrev pub quit_comment : Text → Text
quit_comment param = codes "Quit: " ++ param

-- What only a registered client leaves behind.
unfoldable pub clean_up : ℕ → Client → Text → Server → Outcome Server
clean_up fd cl comment s = leave_all_channels fd cl comment s >>= λ s'.
    del_client_from_msgs fd false s'.msgs >>= λ msgs. ok (record s' { msgs = msgs })

-- The end of Quit::execute: the client of a closed connection goes, any other is told so.
unfoldable pub goodbye : Server → Message → Outcome (Server × Message)
goodbye s m =
    let m' = record m { emitter = s.socket_id } in
    if not s.manual_quit
    then ok (del_client m.emitter (record s { manual_quit = true }), m')
    else (reply_format m' (template rpl_error) quit_manual s.socket_id >>= λ e.
        ok (s, record e { target = m.emitter ∷ [] }))

-- Quit::execute
unfoldable pub quit : Server → Message → Outcome (Server × Message)
quit s m = client_at s m.emitter >>= λ cl.
    (if cl.is_registered then clean_up m.emitter cl (quit_comment m.cmd_param) s else ok s)
    >>= λ s'. goodbye s' m
