-- ===== src/Commands/Parsing/Gate.antt =====
-- What a client may do before it is registered.
use ft_irc_duck.Base.{false, some, [], ◌∷◌, ◌≡◌, refl, arith, ok}
use ft_irc_duck.Text.{Text, codes, text_eq}
use ft_irc_duck.Map.{Map, lookup, fd_key, text_key}
use ft_irc_duck.Client.{Client}
use ft_irc_duck.Reply.{err_notregistered}
use ft_irc_duck.Reply.Shape.{shape}
use ft_irc_duck.Message.{Message}
use ft_irc_duck.Message.Returns.{reply_format_returns}
use ft_irc_duck.Server.{Server, client_at}
use ft_irc_duck.Commands.Parsing.{Handler, call_command, parsing_cmds, check_for_cmds}

-- A command that has a handler, other than PASS, NICK and USER, in a line that is parsed without an
-- error, is not called for a client that is not registered: whatever the handlers are, the server
-- stays as it is and the client alone gets an answer.
pub check_for_cmds_unregistered :
    (commands : Map Text Handler) (h : Handler) (s : Server) (m parsed : Message) (c : Client)
    → parsing_cmds commands s m ≡ ok parsed
    → parsed.target ≡ []
    → lookup parsed.cmd commands ≡ some h
    → lookup parsed.emitter s.client_list ≡ some c
    → c.is_registered ≡ false
    → text_eq parsed.cmd (codes "PASS") ≡ false
    → text_eq parsed.cmd (codes "NICK") ≡ false
    → text_eq parsed.cmd (codes "USER") ≡ false
    → (answer : Text) × (check_for_cmds commands s m
        ≡ ok (s, record parsed { target = parsed.emitter ∷ []; text = answer }))
unfolding check_for_cmds call_command client_at
check_for_cmds_unregistered commands h s m parsed c e t l known new no_pass no_nick no_user =
    let (u, q) =
      reply_format_returns parsed err_notregistered [] s.socket_id (unfold shape in refl) in
    (u, ground (arith, e, t, l, known, new, no_pass, no_nick, no_user, q))
