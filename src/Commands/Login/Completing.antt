-- ===== src/Commands/Login/Completing.antt =====
-- PASS, NICK and USER in a row.
use ft_irc_duck.Base.{true, false, some, ◌≡◌, refl, arith, ok, ◌>>=◌, Outcome, is_empty}
use ft_irc_duck.Text.{Text}
use ft_irc_duck.Map.{lookup, fd_key}
use ft_irc_duck.Map.Laws.{lookup-insert_self}
use ft_irc_duck.Client.{Client, new_client}
use ft_irc_duck.Message.{Message}
use ft_irc_duck.Message.Replace.{IsClean}
use ft_irc_duck.Server.{Env, Server, set_client}
use ft_irc_duck.Commands.Login.{pass, is_nickname_allowed, is_nick_unique, nick, user}
use ft_irc_duck.Commands.Login.Steps.{
  is_nick_unique-insert, lower-nameless, pass_right, nick_taken, nick-IsClean, user_read,
}
use ft_irc_duck.Commands.Login.Params.{user_line, AreWords}

-- The three commands in a row, each with the server that the one before has left.
abbrev pub log_in : Env → Server → Message → Message → Message → Outcome (Server × Message)
log_in env s m m' m'' = pass s m >>= λ r. nick env r.0 m' >>= λ r'. user env r'.0 m''

-- What the client's words must be like.
pub record CanLogIn (env : Env) (s : Server) (nickname name mode host realname : Text)
    : Type 0 where
  pub nick_given : is_empty nickname ≡ false
  pub allowed : is_nickname_allowed nickname ≡ true
  pub unique : is_nick_unique nickname s.client_list ≡ true
  pub words : AreWords name mode host realname
  pub name_clean : IsClean name
  pub host_clean : IsClean host
  pub date_clean : IsClean env.current_date

-- A new connection that gives the right password, an allowed nickname that no other client has, and
-- the words of USER is registered under them: the three commands return. The name, the host and the
-- date hold no angle bracket, and the words of USER stand one blank apart.
pub log_in_registers :
    (env : Env) (s : Server) (m m' m'' : Message) (nickname name mode host realname : Text)
    → lookup m.emitter s.client_list ≡ some (new_client m.emitter)
    → m'.emitter ≡ m.emitter
    → m''.emitter ≡ m.emitter
    → m.cmd_param ≡ s.pass
    → m'.cmd_param ≡ nickname
    → m''.cmd_param ≡ user_line name mode host realname
    → CanLogIn env s nickname name mode host realname
    → (r : Server × Message) × (log_in env s m m' m'' ≡ ok r)
      × (lookup m.emitter r.0.client_list
          ≡ some (record (new_client m.emitter) {
            is_authenticated = true;
            is_registered = true;
            nickname = nickname;
            username = name;
            realname = realname;
            host = host;
          }))
unfolding new_client set_client
log_in_registers env s m m' m'' nickname name mode host realname found from' from'' right nick_param
      user_param can =
    let fresh : Client = new_client m.emitter in
    let c1 : Client = record fresh { is_authenticated = true } in
    let s1 : Server = set_client m.emitter c1 s in
    let c2 : Client = record c1 { nickname = nickname } in
    let at1 : lookup m'.emitter s1.client_list ≡ some c1 =
      rw from' (lookup-insert_self m.emitter c1 s.client_list) in
    let unique1 : is_nick_unique m'.cmd_param s1.client_list ≡ true = rw nick_param (
      is_nick_unique-insert nickname m.emitter c1 s.client_list can.unique
        (lower-nameless nickname can.nick_given)) in
    let (s2, e2, l2) =
      nick_taken env s1 m' c1 at1 refl refl refl refl (rw nick_param can.nick_given)
        (rw nick_param can.allowed) unique1 in
    let at2 : lookup m''.emitter s2.client_list ≡ some c2 =
      ground
        (arith, l2, from', from'', nick_param, lookup-insert_self m.emitter c2 s1.client_list) in
    let (r, e3, l3) =
      user_read env s2 m'' c2 name mode host realname at2 refl refl refl can.nick_given user_param
        can.words (nick-IsClean nickname can.allowed) can.name_clean can.host_clean
        can.date_clean in
    (r, rw (pass_right s m fresh found refl refl right, e2) e3, rw from'' at l3)
