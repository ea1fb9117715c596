-- ===== src/Tests/Modes.antt =====
-- MODE at concrete inputs.
use ft_irc_duck.Base.{true, some, [], ◌∷◌, ◌≡◌, refl, Outcome, ok, fault, arith}
use ft_irc_duck.Text.{codes, has, text_eq, text_lt, find, find_by, find_first_of}
use ft_irc_duck.Text.Decimal.{decimal}
use ft_irc_duck.Map.{lookup, insert, add, fd_key, text_key}
use ft_irc_duck.Channel.{Channel, plain_member}
use ft_irc_duck.Message.{
  Message, from_client, copy, reply_format_all, append_replies, fill_slots, reply_format,
  replace_rpl_err_text, replace_prefix,
}
use ft_irc_duck.Reply.{template}
use ft_irc_duck.Server.{
  Server, post, set_channel, get_channel_by_name, get_client_by_nickname, client_at,
}
use ft_irc_duck.Membership.{status_of}
use ft_irc_duck.Commands.Info.{answer}
use ft_irc_duck.Commands.Mode.Flags.{
  FlagStatus, unchanged, Modes, flag_of, fill_params, mode_string, get_mode_params, map_mode_params,
  get_param, fill_mode, fill_mod_maps, signed_modes, collect, format_replymodes,
}
use ft_irc_duck.Commands.Mode.Flags.Answer.{format_replymodes_lem}
use ft_irc_duck.Commands.Mode.Changes.{
  switch, channel_i, channel_t, change_key, channel_k, find_in_channel, change_operator,
  give_operator, operator_named, switch_chanop, channel_o,
}
use ft_irc_duck.Commands.Mode.Limit.{read_limit, change_limit, channel_l}
use ft_irc_duck.Commands.Mode.{
  add_clients, send_changed, warn_times, apply_channel, answer_changed, change_channel, read_modes,
  change_modes, change_if_signed, mode_words, mode_of, mode,
}
use ft_irc_duck.Commands.Mode.Answering.{channel_l-limit_param}
use ft_irc_duck.Commands.Mode.Members.{membership_in, mode_keeps_members}
use ft_irc_duck.Commands.Mode.Authority.{mode_keeps_channels}
use ft_irc_duck.Tests.Samples.{env, alice, bob, duck, server, command_of}

abbrev run : Outcome (Server × Message) → Server × Message
run (ok r) = r
run (fault f) = (server, command_of alice [] [])

-- alice makes bob an operator, sets a key and a limit, and takes the topic lock away.
abbrev change : Message
change = command_of alice (codes "MODE") (codes "#duck +ok-t+l bob pond 12")

abbrev changed : Server × Message
changed = run (mode env server change)

change_runs : mode env server change ≡ ok changed
unfolding mode mode_of mode_words change_if_signed change_modes read_modes get_mode_params
    fill_params mode_string fill_mod_maps fill_mode map_mode_params get_param flag_of warn_times
    change_channel apply_channel channel_i channel_t channel_k change_key channel_o switch_chanop
    operator_named find_in_channel change_operator give_operator channel_l read_limit change_limit
    answer_changed send_changed add_clients format_replymodes signed_modes collect switch status_of
    lookup insert add text_eq text_lt has find find_by find_first_of get_channel_by_name
    get_client_by_nickname client_at set_channel post copy from_client reply_format reply_format_all
    append_replies fill_slots replace_prefix replace_rpl_err_text template
change_runs = refl

change_answer : changed.1.text ≡ codes ":alice!al@home MODE #duck :+klo-t pond 12 bob\r\n"
unfolding mode mode_of mode_words change_if_signed change_modes read_modes get_mode_params
    fill_params mode_string fill_mod_maps fill_mode map_mode_params get_param flag_of warn_times
    change_channel apply_channel channel_i channel_t channel_k change_key channel_o switch_chanop
    operator_named find_in_channel change_operator give_operator channel_l read_limit change_limit
    answer_changed send_changed add_clients format_replymodes signed_modes collect switch status_of
    lookup insert add text_eq text_lt has find find_by find_first_of get_channel_by_name
    get_client_by_nickname client_at set_channel post copy from_client reply_format reply_format_all
    append_replies fill_slots replace_prefix replace_rpl_err_text template
change_answer = refl

mode_keeps_members_example :
    membership_in (codes "#duck") 5 changed.0 ≡ membership_in (codes "#duck") 5 server
mode_keeps_members_example =
    mode_keeps_members env server changed.0 change changed.1 (codes "#duck") 5 change_runs

-- bob, who is no operator, tries the same.
abbrev attempt : Message
attempt = command_of bob (codes "MODE") (codes "#duck -t")

abbrev denied : Server × Message
denied = run (mode env server attempt)

attempt_runs : mode env server attempt ≡ ok denied
unfolding mode mode_of mode_words change_if_signed change_modes read_modes get_mode_params
    fill_params mode_string fill_mod_maps fill_mode map_mode_params get_param flag_of warn_times
    change_channel answer status_of lookup insert text_eq has find find_by find_first_of
    get_channel_by_name get_client_by_nickname reply_format replace_prefix replace_rpl_err_text
    template
attempt_runs = refl

mode_keeps_channels_example : lookup (codes "#duck") denied.0.channel_list ≡ some duck
unfolding lookup text_eq
mode_keeps_channels_example =
    mode_keeps_channels env server denied.0 attempt denied.1 (codes "#duck") duck plain_member refl
      refl refl attempt_runs

-- #duck with a limit, and +l with what is answered for it.
abbrev limited : Channel
limited = record duck { member_limit = some 2147483647 }

abbrev limit_again : Modes
limit_again = record {
  all_usermodes = [];
  all_chanmodes = (b'l', FlagStatus.add) ∷ [];
  mode_params = record { mode = b'l'; value = codes "2147483647" } ∷ [];
}

channel_l-limit_param_example :
    (md' : Modes) × (channel_l change limit_again duck server ≡ ok (md', limited, server))
unfolding flag_of get_param lookup decimal
channel_l-limit_param_example =
    channel_l-limit_param change limit_again limited duck server 2147483647 refl (omega arith) refl
      refl

abbrev opened : Modes
opened = record {
  all_usermodes = [];
  all_chanmodes =
      (b'i', FlagStatus.remove)
      ∷ (b'k', FlagStatus.add)
      ∷ (b'l', unchanged)
      ∷ (b'o', FlagStatus.remove)
      ∷ (b't', FlagStatus.add)
      ∷ [];
  mode_params =
      record { mode = b'k'; value = codes "pond" }
      ∷ record { mode = b'o'; value = codes "bob" }
      ∷ [];
}

format_replymodes_lem_example : format_replymodes true opened ≡ codes "+kt-io pond bob"
unfolding has
format_replymodes_lem_example =
    format_replymodes_lem true opened
      ((refl, refl), ((refl, refl), ((refl, refl), ((refl, refl), ((refl, refl), tt)))))
