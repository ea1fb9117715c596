-- ===== src/Loop/Commands.antt =====
-- The clients stay sound under every command of the server.
use ft_irc_duck.Base.{
  not, ◌&&◌, some, [], ◌≡◌, refl, arith, inl, inr, ok, >>=-eq-ok, some-inj, Option-cases,
  Bool-cases, is_empty,
}
use ft_irc_duck.Text.{Text, text_eq}
use ft_irc_duck.Map.{Map, lookup, fd_key, text_key}
use ft_irc_duck.Map.Laws.{lookup-insert}
use ft_irc_duck.Client.{Client}
use ft_irc_duck.Message.{Message}
use ft_irc_duck.Server.{Env, Server, client_at}
use ft_irc_duck.Commands.Parsing.{
  Handler, register_command, parsing_cmds, call_command, check_for_cmds, opens_session,
}
use ft_irc_duck.Commands.Login.{pass, nick, user}
use ft_irc_duck.Commands.Login.Clients.{AreSound, update-AreSound, erase-AreSound}
use ft_irc_duck.Commands.Login.Handlers.{pass_sound, nick_sound, user_sound}
use ft_irc_duck.Commands.Clients.{
  SameClients, ping-SameClients, who-SameClients, oper-SameClients, topic-SameClients,
  invite-SameClients, privmsg-SameClients,
}
use ft_irc_duck.Commands.Clients.Channels.{kick-SameClients, part-SameClients, join-SameClients}
use ft_irc_duck.Commands.Clients.Leaving.{quit_effect}
use ft_irc_duck.Commands.Quit.{quit}
use ft_irc_duck.Commands.Info.{ping, who, oper}
use ft_irc_duck.Commands.Topic.{topic}
use ft_irc_duck.Commands.Kick.{kick}
use ft_irc_duck.Commands.Part.{part}
use ft_irc_duck.Commands.Invite.{invite}
use ft_irc_duck.Commands.Join.{join}
use ft_irc_duck.Commands.Privmsg.{privmsg}
use ft_irc_duck.Loop.{setup_commands}
use ft_irc_duck.Commands.Mode.{mode}
use ft_irc_duck.Commands.Mode.Visibility.{mode-Visibility}

-- A command of a client that is there keeps the clients sound.
abbrev pub KeepsSound : Handler → Type 0
KeepsSound h =
    (s s' : Server) (m m' : Message) (c : Client)
    → lookup m.emitter s.client_list ≡ some c
    → AreSound s.client_list
    → h s m ≡ ok (s', m')
    → AreSound s'.client_list

abbrev pub AllKeepSound : Map Text Handler → Type 0
AllKeepSound commands = (name : Text) (h : Handler) → lookup name commands ≡ some h → KeepsSound h

register_command-AllKeepSound :
    (name : Text) (h : Handler) (commands : Map Text Handler)
    → KeepsSound h
    → AllKeepSound commands
    → AllKeepSound (register_command name h commands)
unfolding register_command
register_command-AllKeepSound name h commands k all = elim (Option-cases (lookup name commands)) [
  | inr (old, e) ↦ rw (e, register_command) all
  | inl e ↦
      rw (e, register_command)
        λ j g f. elim (Bool-cases (text_eq name j)) [
          | inl q ↦ let same : h ≡ g = some-inj (rw (lookup-insert, q) at f) in rw (← same) k
          | inr q ↦ all j g (rw (lookup-insert, q) at f)
        ]
]

pub quit_sound : KeepsSound quit
quit_sound s s' m m' c e inv h = elim (quit_effect s s' m m' h) [
  | inl same ↦ rw same inv
  | inr gone ↦ rw gone (erase-AreSound m.emitter c s.client_list inv)
]

mode_sound : (env : Env) → KeepsSound (mode env)
mode_sound env s s' m m' c e inv h = elim (mode-Visibility env s s' m m' h) [
  | inl same ↦ rw same inv
  | inr d ↦ rw d.shown (
      update-AreSound m.emitter (record d.client { is_invisible = d.on }) s.client_list inv d.client
        d.found refl
        (record {
          named = (inv.sound m.emitter d.client d.found).named;
          authenticated = (inv.sound m.emitter d.client d.found).authenticated;
          has_nickname = (inv.sound m.emitter d.client d.found).has_nickname;
        }))
]

same_sound :
    (h : Handler)
    → ((s s' : Server) (m m' : Message) → h s m ≡ ok (s', m') → SameClients s s')
    → KeepsSound h
same_sound h k s s' m m' c e inv f = rw (k s s' m m' f) inv

no_commands : AllKeepSound []
unfolding lookup
no_commands name h e = cc

pub setup_commands-AllKeepSound : (env : Env) → AllKeepSound (setup_commands env)
unfolding setup_commands
setup_commands-AllKeepSound env =
    register_command-AllKeepSound _ who _ (same_sound who who-SameClients) (
      register_command-AllKeepSound _ ping _ (same_sound ping ping-SameClients) (
        register_command-AllKeepSound _ kick _ (same_sound kick kick-SameClients) (
          register_command-AllKeepSound _ (topic env) _
            (same_sound (topic env) (topic-SameClients env))
            (register_command-AllKeepSound _ invite _ (same_sound invite invite-SameClients) (
              register_command-AllKeepSound _ part _ (same_sound part part-SameClients) (
                register_command-AllKeepSound _ (join env) _
                  (same_sound (join env) (join-SameClients env))
                  (register_command-AllKeepSound _ quit _ quit_sound (
                    register_command-AllKeepSound _ oper _ (same_sound oper oper-SameClients) (
                      register_command-AllKeepSound _ (privmsg env) _
                        (same_sound (privmsg env) (privmsg-SameClients env))
                        (register_command-AllKeepSound _ (mode env) _ (mode_sound env) (
                          register_command-AllKeepSound _ (user env) _ (user_sound env) (
                            register_command-AllKeepSound _ (nick env) _ (nick_sound env) (
                              register_command-AllKeepSound _ pass _ pass_sound
                                no_commands)))))))))))))

call_command_sound :
    (h : Handler) (s s' : Server) (m m' : Message)
    → KeepsSound h
    → AreSound s.client_list
    → call_command h s m ≡ ok (s', m')
    → AreSound s'.client_list
unfolding call_command client_at
call_command_sound h s s' m m' k inv e = elim (Option-cases (lookup m.emitter s.client_list)) [
  | inl f ↦ absurd (ground (arith, f, e))
  | inr (c, f) ↦ elim (Bool-cases (not c.is_registered && not (opens_session m.cmd))) [
    | inl g ↦ let same : s' ≡ s = ground (arith, f, g, e) in rw same inv
    | inr g ↦ k s s' m m' c f inv (ground (arith, f, g, e))
  ]
]

pub check_for_cmds_sound :
    (commands : Map Text Handler) (s s' : Server) (m m' : Message)
    → AllKeepSound commands
    → AreSound s.client_list
    → check_for_cmds commands s m ≡ ok (s', m')
    → AreSound s'.client_list
unfolding check_for_cmds
check_for_cmds_sound commands s s' m m' all inv h =
    let (parsed, e, f) = >>=-eq-ok (parsing_cmds commands s m) _ h in
    elim (Bool-cases (is_empty parsed.target)) [
      | inr g ↦ let same : s' ≡ s = ground (arith, g, f) in rw same inv
      | inl g ↦ elim (Option-cases (lookup parsed.cmd commands)) [
        | inl k ↦ let same : s' ≡ s = ground (arith, g, k, f) in rw same inv
        | inr (c, k) ↦
            call_command_sound c s s' parsed m' (all parsed.cmd c k) inv (ground (arith, g, k, f))
      ]
    ]
