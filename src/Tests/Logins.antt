-- ===== src/Tests/Logins.antt =====
-- Logging in, entering a channel and writing to it at concrete inputs.
use ft_irc_duck.Base.{
  ℕ, true, not, ◌&&◌, some, [], ◌∷◌, ◌≡◌, refl, arith, ok, fault, end_iterator, ◌==◌, inl, inr,
}
use ft_irc_duck.Text.{Text, codes, has, text_eq, find_by, find_first_not_of, to_lower}
use ft_irc_duck.Map.{Map, lookup, insert, member, fd_key, text_key}
use ft_irc_duck.Client.{Client, new_client}
use ft_irc_duck.Channel.{Channel, Status, plain_member, no_status}
use ft_irc_duck.Message.{Message, from_client}
use ft_irc_duck.Message.Format.{IsSenderClean}
use ft_irc_duck.Membership.{status_of}
use ft_irc_duck.Membership.Returning.{IsKnown}
use ft_irc_duck.Server.{Server}
use ft_irc_duck.Commands.Login.{is_nickname_allowed, is_nick_unique, get_correct_user_params}
use ft_irc_duck.Commands.Login.Params.{AreWords, get_correct_user_params-line}
use ft_irc_duck.Commands.Login.Completing.{log_in, CanLogIn, log_in_registers}
use ft_irc_duck.Commands.Join.{join_check_existing_chan}
use ft_irc_duck.Commands.Join.Quoting.{IsChannelClean}
use ft_irc_duck.Commands.Join.Entering.{
  join_check_existing_chan_enters, join_check_existing_chan_short,
}
use ft_irc_duck.Commands.Privmsg.{privmsg}
use ft_irc_duck.Commands.Privmsg.Reach.{has_entry, IsTargetName, privmsg_reaches}
use ft_irc_duck.Tests.Samples.{env, alice, bob, operator, duck, server, command_of}

words : AreWords (codes "guest") (codes "0") (codes "home") (codes "Real Name")
unfolding has
words = record {
  name_given = refl;
  mode_given = refl;
  host_given = refl;
  realname_given = refl;
  name_word = (refl, (refl, (refl, (refl, (refl, tt)))));
  mode_word = (refl, tt);
  host_word = (refl, (refl, (refl, (refl, tt))));
}

get_correct_user_params-line_example :
    get_correct_user_params (codes "guest 0 home :Real Name")
    ≡ some (record { username = codes "guest"; host = codes "home"; realname = codes "Real Name" })
get_correct_user_params-line_example =
    get_correct_user_params-line (codes "guest") (codes "0") (codes "home") (codes "Real Name")
      words

-- A third client has connected to the server of alice and bob.
abbrev crowded : Server
crowded = record server { client_list = (4, alice) ∷ (5, bob) ∷ (6, new_client 6) ∷ [] }

abbrev says : Text → Text → Message
says cmd param = command_of (record alice { socket = 6 }) cmd param

can_log_in :
    CanLogIn env crowded
      (codes "carol")
      (codes "guest")
      (codes "0")
      (codes "home")
      (codes "Real Name")
unfolding has is_nickname_allowed is_nick_unique find_first_not_of find_by text_eq to_lower
    new_client
can_log_in = record {
  nick_given = refl;
  allowed = refl;
  unique = refl;
  words = words;
  name_clean = record { no_open = refl; no_close = refl };
  host_clean = record { no_open = refl; no_close = refl };
  date_clean = record { no_open = refl; no_close = refl };
}

log_in_registers_example :
    (r : Server × Message) × (log_in env crowded
        (says (codes "PASS") (codes "secret"))
        (says (codes "NICK") (codes "carol"))
        (says (codes "USER") (codes "guest 0 home :Real Name"))
      ≡ ok r)
    × (lookup 6 r.0.client_list
        ≡ some (record alice {
          socket = 6;
          nickname = codes "carol";
          username = codes "guest";
          realname = codes "Real Name";
          host = codes "home";
        }))
unfolding lookup new_client
log_in_registers_example =
    log_in_registers env crowded (says (codes "PASS") (codes "secret"))
      (says (codes "NICK") (codes "carol")) (says (codes "USER") (codes "guest 0 home :Real Name"))
      (codes "carol") (codes "guest") (codes "0") (codes "home") (codes "Real Name") refl refl refl
      refl refl refl can_log_in

abbrev carol : Client
carol = record alice { socket = 6; nickname = codes "carol" }

abbrev busy : Server
busy = record server { client_list = (4, alice) ∷ (5, bob) ∷ (6, carol) ∷ [] }

alice_clean : IsSenderClean (from_client alice)
unfolding has from_client
alice_clean = record {
  nick_clean = record { no_open = refl; no_close = refl };
  user_clean = record { no_open = refl; no_close = refl };
  host_clean = record { no_open = refl; no_close = refl };
}

bob_clean : IsSenderClean (from_client bob)
unfolding has from_client
bob_clean = record {
  nick_clean = record { no_open = refl; no_close = refl };
  user_clean = record { no_open = refl; no_close = refl };
  host_clean = record { no_open = refl; no_close = refl };
}

carol_clean : IsSenderClean (from_client carol)
unfolding has from_client
carol_clean = record {
  nick_clean = record { no_open = refl; no_close = refl };
  user_clean = record { no_open = refl; no_close = refl };
  host_clean = record { no_open = refl; no_close = refl };
}

alice-IsKnown : IsKnown busy 4
unfolding lookup
alice-IsKnown = record { client = alice; found = refl; clean = alice_clean }

bob-IsKnown : IsKnown busy 5
unfolding lookup
bob-IsKnown = record { client = bob; found = refl; clean = bob_clean }

carol-IsKnown : IsKnown busy 6
unfolding lookup
carol-IsKnown = record { client = carol; found = refl; clean = carol_clean }

abbrev invited_only : Status
invited_only = record no_status { invited = true }

-- alice has invited bob.
abbrev lake : Channel
lake = record duck { name = codes "#lake"; clients = (4, operator) ∷ (5, invited_only) ∷ [] }

lake_clean : (c : Map ℕ Status) → IsChannelClean (codes "#lake") (record lake { clients = c })
unfolding has
lake_clean c = record {
  name_clean = record { no_open = refl; no_close = refl };
  topic_clean = record { no_open = refl; no_close = refl };
  author_clean = record { no_open = refl; no_close = refl };
  date_clean = record { no_open = refl; no_close = refl };
}

join_check_existing_chan_enters_example :
    (s' : Server) × (join_check_existing_chan env [] (codes "#lake") lake bob 5 busy ≡ ok s')
    × (lookup (codes "#lake") s'.channel_list
        ≡ some (record lake { clients = (4, operator) ∷ (5, plain_member) ∷ [] }))
unfolding lookup status_of insert
join_check_existing_chan_enters_example =
    join_check_existing_chan_enters env [] (codes "#lake") lake bob 5 busy invited_only refl refl
      (record { room = tt; key = refl; door = inl refl }) (lake_clean lake.clients)
      (alice-IsKnown, (bob-IsKnown, tt)) bob_clean (omega arith, (omega arith, tt))
      (inr refl, (inl refl, tt))

-- alice has invited carol too; bob, who has not come yet, keeps her out.
abbrev waiting : Channel
waiting = record lake { clients = (4, operator) ∷ (5, invited_only) ∷ (6, invited_only) ∷ [] }

join_check_existing_chan_short_example :
    join_check_existing_chan env [] (codes "#lake") waiting carol 6 busy ≡ fault end_iterator
unfolding lookup status_of
join_check_existing_chan_short_example =
    join_check_existing_chan_short env [] (codes "#lake") waiting carol 6 busy invited_only refl
      refl (record { room = tt; key = refl; door = inl refl }) (lake_clean waiting.clients)
      (alice-IsKnown, (bob-IsKnown, (carol-IsKnown, tt))) carol_clean 5 invited_only (omega arith)
      refl refl

abbrev hello : Message
hello = command_of bob (codes "PRIVMSG") (codes "#duck :hello")

duck_name : IsTargetName (codes "#duck")
unfolding has
duck_name = record {
  no_colon = refl;
  no_comma = refl;
  no_blank = (refl, (refl, (refl, (refl, (refl, tt)))));
  clean = record { no_open = refl; no_close = refl };
}

privmsg_reaches_example :
    (m' : Message) × (privmsg env server hello ≡ ok (server, m'))
    × (m'.text ≡ codes ":bob!bo@home PRIVMSG #duck :hello\r\n")
    × ((k : ℕ) → member k m'.target ≡ (has_entry k duck.clients && not (k == 5)))
unfolding lookup has text_eq
privmsg_reaches_example =
    privmsg_reaches env server hello duck plain_member (codes "#duck") (codes "hello") 4 refl refl
      refl refl refl duck_name
      (record {
        nick_clean = record { no_open = refl; no_close = refl };
        user_clean = record { no_open = refl; no_close = refl };
        host_clean = record { no_open = refl; no_close = refl };
      })
      (record { no_open = refl; no_close = refl }) refl refl
