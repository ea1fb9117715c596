-- ===== src/Commands/Login/Handlers.antt =====
-- The effect of PASS, NICK and USER on the clients.
use ft_irc_duck.Base.{
  ℕ, Bool, true, false, none, some, [], ◌≡◌, refl, ◌≢◌, ◌⊎◌, inl, inr, arith, if◌then◌else◌, ok,
  >>=-eq-ok, Option-cases, is_empty,
}
use ft_irc_duck.Text.{Text}
use ft_irc_duck.Map.{lookup, insert, fd_key}
use ft_irc_duck.Map.Laws.{lookup-insert_self}
use ft_irc_duck.Reply.{
  Reply, err_alreadyregistred, err_passwdmismatch, err_notregistered, err_nonicknamegiven,
  err_erroneusnickname, err_nicknameinuse, err_needmoreparams,
}
use ft_irc_duck.Client.{Client}
use ft_irc_duck.Message.{Message}
use ft_irc_duck.Server.{
  Env, Server, client_at, set_client, can_register, post, register_client_if_able,
}
use ft_irc_duck.Commands.Login.{
  UserParams, is_nickname_allowed, is_nick_unique, setup_error, pass, take_nickname, nick, user,
  get_correct_user_params,
}
use ft_irc_duck.Commands.Login.Clients.{
  AreSound, insert-AreSound, update-AreSound, is_nick_unique-Apart,
}

register_effect :
    (env : Env) (fd : ℕ) (s s' : Server) (c : Client)
    → lookup fd s.client_list ≡ some c
    → register_client_if_able env fd s ≡ ok s'
    → (s'.client_list ≡ s.client_list)
      ⊎ ((can_register c ≡ true)
          × (s'.client_list ≡ insert fd (record c { is_registered = true }) s.client_list))
unfolding register_client_if_able client_at post set_client
register_effect env fd s s' c e h = ground (arith, e)

setup_error-keeps :
    (s s' : Server) (m m' : Message) (r : Reply) (v : Text)
    → setup_error r v s m ≡ ok (s', m')
    → s' ≡ s
unfolding setup_error
setup_error-keeps s s' m m' r v h = ground arith

client_at-some :
    (s : Server) (fd : ℕ) (c : Client) → lookup fd s.client_list ≡ some c → client_at s fd ≡ ok c
unfolding client_at
client_at-some s fd c e = rw (e, client_at)

-- The effect of a handler on the clients: none, or a new value for the sender.
abbrev Changed : Server → Server → ℕ → Client → Type 0
Changed s s' fd c' = s'.client_list ≡ insert fd c' s.client_list

pass_effect :
    (s s' : Server) (m m' : Message) (c : Client)
    → lookup m.emitter s.client_list ≡ some c
    → pass s m ≡ ok (s', m')
    → (s'.client_list ≡ s.client_list)
      ⊎ ((c.is_registered ≡ false) × Changed s s' m.emitter (record c { is_authenticated = true }))
unfolding pass set_client
pass_effect s s' m m' c e h = ground (
  arith,
  client_at-some s m.emitter c e,
  setup_error-keeps s s' m m' err_alreadyregistred [],
  setup_error-keeps s s' m m' err_passwdmismatch [],
)

register_sound :
    (env : Env) (fd : ℕ) (s s' : Server) (c : Client)
    → lookup fd s.client_list ≡ some c
    → c.is_authenticated ≡ true
    → AreSound s.client_list
    → register_client_if_able env fd s ≡ ok s'
    → AreSound s'.client_list
register_sound env fd s s' c e auth inv h = elim (register_effect env fd s s' c e h) [
  | inl same ↦ rw same inv
  | inr (able, changed) ↦ rw changed (
      update-AreSound fd (record c { is_registered = true }) s.client_list inv c e refl
        (record {
          named = (inv.sound fd c e).named;
          authenticated = λ _. auth;
          has_nickname = λ _. named_of c able;
        }))
]
  where
    named_of : (c : Client) → can_register c ≡ true → c.nickname ≢ []
    named_of c able = ground (arith, able)

pub pass_sound :
    (s s' : Server) (m m' : Message) (c : Client)
    → lookup m.emitter s.client_list ≡ some c
    → AreSound s.client_list
    → pass s m ≡ ok (s', m')
    → AreSound s'.client_list
pass_sound s s' m m' c e inv h = elim (pass_effect s s' m m' c e h) [
  | inl same ↦ rw same inv
  | inr (new, changed) ↦ rw changed (
      update-AreSound m.emitter (record c { is_authenticated = true }) s.client_list inv c e refl
        (record {
          named = (inv.sound m.emitter c e).named;
          authenticated = λ _. refl;
          has_nickname = (inv.sound m.emitter c e).has_nickname;
        }))
]

-- NICK changes nothing, or gives the sender an allowed and free nickname and may register it.
nick_effect :
    (env : Env) (s s' : Server) (m m' : Message) (c : Client)
    → lookup m.emitter s.client_list ≡ some c
    → nick env s m ≡ ok (s', m')
    → (s'.client_list ≡ s.client_list)
      ⊎ ((c.is_authenticated ≡ true)
          × (is_nickname_allowed m.cmd_param ≡ true)
          × (is_nick_unique m.cmd_param s.client_list ≡ true)
          × (is_empty m.cmd_param ≡ false)
          × (take_nickname env m.cmd_param c s m ≡ ok (s', m')))
unfolding nick
nick_effect env s s' m m' c e h = ground (
  arith,
  client_at-some s m.emitter c e,
  setup_error-keeps s s' m m' err_notregistered [],
  setup_error-keeps s s' m m' err_nonicknamegiven [],
  setup_error-keeps s s' m m' err_erroneusnickname m.cmd_param,
  setup_error-keeps s s' m m' err_nicknameinuse m.cmd_param,
)

maybe_register_sound :
    (env : Env) (fd : ℕ) (s s' : Server) (c : Client) (b : Bool)
    → lookup fd s.client_list ≡ some c
    → c.is_authenticated ≡ true
    → AreSound s.client_list
    → (if b then ok s else register_client_if_able env fd s) ≡ ok s'
    → AreSound s'.client_list
maybe_register_sound env fd s s' c true e auth inv h = let same : s' ≡ s = cc in rw same inv
maybe_register_sound env fd s s' c false e auth inv h = register_sound env fd s s' c e auth inv h

take_nickname_sound :
    (env : Env) (s s' : Server) (m m' : Message) (c : Client) (nickname : Text)
    → AreSound s.client_list
    → c.is_authenticated ≡ true
    → is_nickname_allowed nickname ≡ true
    → is_nick_unique nickname s.client_list ≡ true
    → nickname ≢ []
    → take_nickname env nickname c s m ≡ ok (s', m')
    → AreSound s'.client_list
unfolding take_nickname set_client
take_nickname_sound env s s' m m' c nickname inv auth allowed free given h =
    let c' : Client = record c { nickname = nickname } in
    let named : Server = set_client m.emitter c' s in
    let sound : AreSound named.client_list =
      insert-AreSound m.emitter c' s.client_list inv
        (record { named = λ _. allowed; authenticated = λ _. auth; has_nickname = λ _. given })
        (λ j d f _. is_nick_unique-Apart nickname s.client_list j d free f) in
    let (t, q, r) =
      >>=-eq-ok (if c.is_registered then ok named else register_client_if_able env m.emitter named)
        _ h in
    let same : s'.client_list ≡ t.client_list = ground (arith, r) in
    rw same (
      maybe_register_sound env m.emitter named t c' c.is_registered
        (lookup-insert_self m.emitter c' s.client_list) auth sound q)

pub nick_sound :
    (env : Env) (s s' : Server) (m m' : Message) (c : Client)
    → lookup m.emitter s.client_list ≡ some c
    → AreSound s.client_list
    → nick env s m ≡ ok (s', m')
    → AreSound s'.client_list
nick_sound env s s' m m' c e inv h = elim (nick_effect env s s' m m' c e h) [
  | inl same ↦ rw same inv
  | inr (auth, allowed, free, given, taken) ↦
      take_nickname_sound env s s' m m' c m.cmd_param inv auth allowed free
        (not_empty m.cmd_param given) taken
]
  where
    not_empty : (t : Text) → is_empty t ≡ false → t ≢ []
    not_empty t h = ground (arith, h)

abbrev with_params : Client → UserParams → Client
with_params c p = record c { username = p.username; realname = p.realname; host = p.host }

user_effect_none :
    (env : Env) (s s' : Server) (m m' : Message) (c : Client)
    → lookup m.emitter s.client_list ≡ some c
    → get_correct_user_params m.cmd_param ≡ none
    → user env s m ≡ ok (s', m')
    → s' ≡ s
unfolding user
user_effect_none env s s' m m' c e q h = ground (
  arith,
  q,
  client_at-some s m.emitter c e,
  setup_error-keeps s s' m m' err_notregistered [],
  setup_error-keeps s s' m m' err_alreadyregistred [],
  setup_error-keeps s s' m m' err_needmoreparams m.cmd,
)

user_effect :
    (env : Env) (s s' : Server) (m m' : Message) (c : Client) (p : UserParams)
    → lookup m.emitter s.client_list ≡ some c
    → get_correct_user_params m.cmd_param ≡ some p
    → user env s m ≡ ok (s', m')
    → (s' ≡ s)
      ⊎ ((c.is_authenticated ≡ true)
          × (register_client_if_able env m.emitter (set_client m.emitter (with_params c p) s)
              ≡ ok s'))
unfolding user
user_effect env s s' m m' c p e q h = ground (
  arith,
  q,
  client_at-some s m.emitter c e,
  setup_error-keeps s s' m m' err_notregistered [],
  setup_error-keeps s s' m m' err_alreadyregistred [],
)

pub user_sound :
    (env : Env) (s s' : Server) (m m' : Message) (c : Client)
    → lookup m.emitter s.client_list ≡ some c
    → AreSound s.client_list
    → user env s m ≡ ok (s', m')
    → AreSound s'.client_list
unfolding set_client
user_sound env s s' m m' c e inv h = elim (Option-cases (get_correct_user_params m.cmd_param)) [
  | inl q ↦ rw (user_effect_none env s s' m m' c e q h) inv
  | inr (p, q) ↦ elim (user_effect env s s' m m' c p e q h) [
    | inl same ↦ rw same inv
    | inr (auth, r) ↦
        register_sound env m.emitter (set_client m.emitter (with_params c p) s) s' (with_params c p)
          (lookup-insert_self m.emitter (with_params c p) s.client_list) auth
          (update-AreSound m.emitter (with_params c p) s.client_list inv c e refl (record {
            named = (inv.sound m.emitter c e).named;
            authenticated = (inv.sound m.emitter c e).authenticated;
            has_nickname = (inv.sound m.emitter c e).has_nickname;
          }))
          r
  ]
]
