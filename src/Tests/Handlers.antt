-- ===== src/Tests/Handlers.antt =====
-- Command handlers at concrete inputs.
use ft_irc_duck.Base.{Outcome, true, false, some, [], ◌∷◌, ◌≡◌, refl, ok, fault, arith}
use ft_irc_duck.Text.{
  Text, codes, has, text_eq, text_lt, find, find_by, find_first_not_of, trim_right,
}
use ft_irc_duck.Map.{Map, lookup, insert, add, remove, erase, fd_key, text_key}
use ft_irc_duck.Client.{Client, new_client}
use ft_irc_duck.Channel.{Channel, plain_member, no_status}
use ft_irc_duck.Message.{
  Message, from_client, copy, reply_format_all, append_replies, fill_slots,
  reply_replace_curly_brackets, reply_format, replace_rpl_err_text, replace_prefix,
}
use ft_irc_duck.Reply.{template}
use ft_irc_duck.Server.{Server, post, set_channel, get_channel_by_name, client_at}
use ft_irc_duck.Commands.Info.{answer, ping}
use ft_irc_duck.Commands.Kick.{kick, kick_if_allowed}
use ft_irc_duck.Commands.Kick.Authority.{IsNoOperator, kick_keeps}
use ft_irc_duck.Commands.Kick.{add_members}
use ft_irc_duck.Commands.Quit.{
  quit, clean_up, leave_all_channels, leave_each, leave_one, del_client_from_msgs, is_only_target,
  goodbye,
}
use ft_irc_duck.Commands.Quit.Gone.{IsGone, quit-IsGone}
use ft_irc_duck.Commands.Parsing.{parsing_cmds, check_for_cmds}
use ft_irc_duck.Commands.Parsing.{Handler, cut_line, split_params}
use ft_irc_duck.Commands.Parsing.Gate.{check_for_cmds_unregistered}
use ft_irc_duck.Membership.{status_of, leave, lower_member, any_status}
use ft_irc_duck.Commands.Join.{
  join_check_existing_chan, refusal, enter, new_chan_member_success, member_names, other_members,
}
use ft_irc_duck.Commands.Join.Admission.{MayEnter, join_check_existing_chan_admits}
use ft_irc_duck.Tests.Samples.{env, bob, duck, server, operator, line_of, command_of}

-- One client has connected and given the password.
abbrev connected_client : Client
connected_client = record {
  socket = 4;
  is_authenticated = true;
  is_registered = false;
  username = [];
  realname = [];
  is_invisible = false;
  nickname = [];
  host = [];
}

abbrev connected : Server
connected = record {
  socket_id = 3;
  pass = codes "secret";
  oper_socket = [];
  channel_list = [];
  msgs = [];
  client_list =
      (
        4,
        record {
          socket = 4;
          is_authenticated = true;
          is_registered = false;
          username = [];
          realname = [];
          is_invisible = false;
          nickname = [];
          host = [];
        },
      )
      ∷ [];
  manual_quit = true;
}

-- bob, a plain member, tries to remove alice.
abbrev attempt : Message
attempt = command_of bob (codes "KICK") (codes "#duck alice")

abbrev denied : Message
denied = record (command_of bob (codes "KICK") (codes "alice")) {
  target = 5 ∷ [];
  text = codes "482 bob #duck :You're not channel operator\r\n";
}

no_operator : IsNoOperator 5 server
unfolding lookup
no_operator name c st e f = ground (arith, e, f)

kick-denied : kick server attempt ≡ ok (server, denied)
unfolding kick kick_if_allowed get_channel_by_name answer lookup text_eq reply_format replace_prefix
    replace_rpl_err_text template has find
kick-denied = refl

kick_keeps_example : ◌≡◌ {A = Server} server server
kick_keeps_example = kick_keeps server server attempt denied no_operator kick-denied

-- WHO from a connection that has not logged in.
abbrev stranger : Server
stranger = record connected { socket_id = 3 }

abbrev who_line : Message
who_line = line_of (new_client 4) (codes "WHO #duck\r\n")

abbrev who_parsed : Message
who_parsed = command_of (new_client 4) (codes "WHO") (codes "#duck")

abbrev handlers : Map Text Handler
handlers = (codes "WHO", ping) ∷ []

who_parses : parsing_cmds handlers stranger who_line ≡ ok who_parsed
unfolding parsing_cmds cut_line split_params find find_by find_first_not_of has trim_right
    new_client text_eq
who_parses = refl

check_for_cmds_unregistered_example :
    (u : Text) × (check_for_cmds handlers stranger who_line
      ≡ ok (stranger, record who_parsed { target = 4 ∷ []; text = u }))
unfolding lookup text_eq new_client
check_for_cmds_unregistered_example =
    check_for_cmds_unregistered handlers ping stranger who_line who_parsed connected_client
      who_parses refl refl refl refl refl refl refl

-- bob may enter a channel that asks for an invitation, if he is invited.
abbrev pond : Channel
pond = record duck {
  name = codes "#pond";
  is_invite_only = true;
  clients = (4, operator) ∷ (5, record no_status { invited = true }) ∷ [];
}

abbrev pond_server : Server
pond_server = record server { channel_list = (codes "#pond", pond) ∷ [] }

abbrev result_or : Server → Outcome Server → Server
result_or s (ok t) = t
result_or s (fault f) = s

abbrev joined : Server
joined = result_or server (join_check_existing_chan env [] (codes "#pond") pond bob 5 pond_server)

bob_joins : join_check_existing_chan env [] (codes "#pond") pond bob 5 pond_server ≡ ok joined
unfolding join_check_existing_chan refusal enter status_of lookup insert set_channel
    new_chan_member_success member_names other_members reply_format reply_format_all append_replies
    fill_slots replace_prefix replace_rpl_err_text reply_replace_curly_brackets template has find
    client_at from_client post copy text_eq text_lt add
bob_joins = refl

join_check_existing_chan_admits_example :
    (MayEnter [] (status_of env 5 pond.clients) pond
      → lookup (codes "#pond") joined.channel_list
        ≡ some (record pond { clients = insert 5 plain_member pond.clients }))
    × (¬ MayEnter [] (status_of env 5 pond.clients) pond
        → joined.channel_list ≡ pond_server.channel_list)
unfolding status_of lookup
join_check_existing_chan_admits_example =
    join_check_existing_chan_admits env [] (codes "#pond") pond bob 5 pond_server joined refl
      bob_joins

-- bob quits.
abbrev leaving : Message
leaving = command_of bob (codes "QUIT") (codes "bye")

abbrev answer_or : Server × Message → Outcome (Server × Message) → Server × Message
answer_or a (ok r) = r
answer_or a (fault f) = a

abbrev left : Server × Message
left = answer_or (server, leaving) (quit server leaving)

bob_quits : quit server leaving ≡ ok left
unfolding quit clean_up leave_all_channels leave_each leave_one leave lower_member any_status
    add_members add del_client_from_msgs is_only_target goodbye reply_format replace_prefix
    replace_rpl_err_text template has find client_at from_client post lookup insert remove erase
bob_quits = refl

quit-IsGone_example : IsGone 5 left.0.channel_list
unfolding lookup
quit-IsGone_example = quit-IsGone server left.0 leaving left.1 bob refl refl bob_quits
