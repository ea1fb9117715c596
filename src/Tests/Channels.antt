-- ===== src/Tests/Channels.antt =====
-- Channels at concrete inputs.
use ft_irc_duck.Base.{
  fault, use_after_free, false, ℕ, ◌⊎◌, true, some, none, [], ◌∷◌, ◌≡◌, refl, ◌≢◌, ok, arith,
}
use ft_irc_duck.Text.{codes, text_eq, has, find}
use ft_irc_duck.Map.{lookup, insert, erase, member, fd_key, text_key}
use ft_irc_duck.Client.{new_client}
use ft_irc_duck.Channel.{Channel}
use ft_irc_duck.Message.{
  Message, reply_format, replace_rpl_err_text, replace_prefix, from_client, copy,
}
use ft_irc_duck.Reply.{template}
use ft_irc_duck.Server.{Server, add_client, del_client, client_at, post, get_channel_by_name}
use ft_irc_duck.Server.Sockets.{del_client_keeps_oper}
use ft_irc_duck.Membership.{
  leave, lower_member, assign_next_chanop, promote_first, any_status, are_there_other_chanops,
  has_member,
}
use ft_irc_duck.Message.Format.{IsSenderClean}
use ft_irc_duck.Membership.Returning.{AreKnown}
use ft_irc_duck.Membership.Leaving.{membership, leave-membership, leave_keeps_operator}
use ft_irc_duck.Commands.Part.{part_one}
use ft_irc_duck.Commands.Part.LastMember.{part_one_alone}
use ft_irc_duck.Tests.Samples.{alice, bob, duck, server, operator}

-- What is left when alice goes: bob is the operator, and is told so.
abbrev duck_after : Channel
duck_after = record duck { clients = (5, operator) ∷ [] }

abbrev told : Message
told = record (from_client_bob) {
  target = 5 ∷ [];
  text = codes ":bob!bo@home #duck :You are now a channel operator\r\n";
}
  where
    from_client_bob : Message
    from_client_bob = record {
      emitter = 5;
      username = codes "bo";
      emitter_nick = codes "bob";
      host = codes "home";
      target = [];
      text = [];
      cmd = [];
      cmd_param = [];
    }

alice_leaves : leave 4 duck server ≡ ok (duck_after, record server { msgs = told ∷ [] })
unfolding leave lower_member assign_next_chanop promote_first any_status lookup insert erase
    client_at from_client reply_format replace_prefix replace_rpl_err_text template post copy has
    find
alice_leaves = refl

alice_clean : IsSenderClean (from_client alice)
unfolding from_client has
alice_clean = record {
  nick_clean = record { no_open = refl; no_close = refl };
  user_clean = record { no_open = refl; no_close = refl };
  host_clean = record { no_open = refl; no_close = refl };
}

bob_clean : IsSenderClean (from_client bob)
unfolding from_client has
bob_clean = record {
  nick_clean = record { no_open = refl; no_close = refl };
  user_clean = record { no_open = refl; no_close = refl };
  host_clean = record { no_open = refl; no_close = refl };
}

duck_known : AreKnown duck.clients server
unfolding lookup
duck_known = (
  record { client = alice; found = refl; clean = alice_clean },
  (record { client = bob; found = refl; clean = bob_clean }, tt),
)

leave_keeps_operator_example :
    (r : Channel × Server) × (leave 4 duck server ≡ ok r)
    × ((has_member r.0.clients ≡ false) ⊎ (are_there_other_chanops r.0.clients ≡ true))
unfolding lookup any_status
leave_keeps_operator_example =
    leave_keeps_operator 4 operator duck server duck_known (omega arith) refl refl refl

leave-membership_example :
    (r : Channel × Server) × (leave 4 duck server ≡ ok r)
    × (lookup 4 r.0.clients ≡ none)
    × ((j : ℕ) → ◌≢◌ {A = ℕ} 4 j → membership j r.0.clients ≡ membership j duck.clients)
leave-membership_example = leave-membership 4 duck server duck_known

abbrev lonely : Server
lonely = record server {
  channel_list = (codes "#duck", record duck { clients = (4, operator) ∷ [] }) ∷ [];
}

part_one_alone_example : part_one [] (codes "#duck") alice 4 lonely ≡ fault use_after_free
unfolding get_channel_by_name lookup text_eq has from_client
part_one_alone_example =
    part_one_alone [] (codes "#duck") 4 operator (record duck { clients = (4, operator) ∷ [] })
      alice lonely refl refl refl
      (record {
        nick_clean = record { no_open = refl; no_close = refl };
        user_clean = record { no_open = refl; no_close = refl };
        host_clean = record { no_open = refl; no_close = refl };
      })
      (record { no_open = refl; no_close = refl }) (record { no_open = refl; no_close = refl })

abbrev opered : Server
opered = record server { oper_socket = 4 ∷ [] }

del_client_keeps_oper_example :
    (lookup 4 (add_client 4 (del_client 4 opered)).client_list ≡ some (new_client 4))
    × (member 4 (add_client 4 (del_client 4 opered)).oper_socket ≡ true)
unfolding lookup member
del_client_keeps_oper_example = del_client_keeps_oper 4 opered alice refl refl
