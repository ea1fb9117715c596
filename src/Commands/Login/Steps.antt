-- ===== src/Commands/Login/Steps.antt =====
-- PASS, NICK and USER, each as it goes well.
use ft_irc_duck.Base.{
  ℕ, true, false, none, some, List, [], ◌∷◌, ◌≡◌, refl, ap, ◌∙◌, arith, ok, map, is_empty,
  Option-cases, ==_iff, inl, inr,
}
use ft_irc_duck.Text.{Text, has, text_eq, find_by, find_first_not_of, to_lower}
use ft_irc_duck.Text.Equality.{text_eq_refl}
use ft_irc_duck.Map.{Map, lookup, insert, fd_key}
use ft_irc_duck.Map.Laws.{lookup-insert_self}
use ft_irc_duck.Reply.{nick_good_characters}
use ft_irc_duck.Reply.Shape.{shape}
use ft_irc_duck.Client.{Client}
use ft_irc_duck.Message.{Message, from_client}
use ft_irc_duck.Message.Replace.{IsClean}
use ft_irc_duck.Message.Format.{IsSenderClean, all_filled}
use ft_irc_duck.Message.Templates.{is_clean, is_clean_sound, reply_format_all-templates}
use ft_irc_duck.Server.{
  Env, Server, client_at, set_client, register_client_if_able, i_support, register_replies, post,
}
use ft_irc_duck.Commands.Login.{
  pass, is_nickname_allowed, is_nick_unique, add_nick_to_messages, take_nickname, nick,
  get_correct_user_params, user,
}
use ft_irc_duck.Commands.Login.Params.{user_line, AreWords, get_correct_user_params-line}

-- A text of allowed characters has no other one.
has-allowed :
    (set t : Text) (c : ℕ) → find_first_not_of set t ≡ none → has c set ≡ false → has c t ≡ false
unfolding find_first_not_of find_by has
has-allowed set [] c e h = refl
has-allowed set (x ∷ xs) c e h = elim (Option-cases (find_first_not_of set xs)) [
  | inl q ↦ ground (arith, q, e, h, has-allowed set xs c q h, ==_iff x c)
  | inr (i, q) ↦ ground (arith, q, e)
]

i_support-clean : IsClean i_support
unfolding is_clean has
i_support-clean = is_clean_sound i_support refl

pub is_nick_unique-insert :
    (nickname : Text) (fd : ℕ) (c : Client) (m : Map ℕ Client)
    → is_nick_unique nickname m ≡ true
    → text_eq (map to_lower nickname) (map to_lower c.nickname) ≡ false
    → is_nick_unique nickname (insert fd c m) ≡ true
unfolding is_nick_unique insert
is_nick_unique-insert nickname fd c [] u e = rw e refl
is_nick_unique-insert nickname fd c ((j, d) ∷ m) u e =
    ground (arith, e, is_nick_unique-insert nickname fd c m)

pub lower-nameless :
    (t : Text) → is_empty t ≡ false → text_eq (map to_lower t) (map to_lower []) ≡ false
unfolding text_eq
lower-nameless [] h = cc
lower-nameless (x ∷ xs) h = refl

-- A client that has all it needs is registered, and welcomed.
register_client_if_able_returns :
    (env : Env) (fd : ℕ) (s : Server) (c : Client)
    → lookup fd s.client_list ≡ some c
    → c.is_registered ≡ false
    → is_empty c.nickname ≡ false
    → is_empty c.username ≡ false
    → IsSenderClean (from_client c)
    → IsClean c.nickname
    → IsClean c.host
    → IsClean env.current_date
    → (s' : Server) × (register_client_if_able env fd s ≡ ok s')
      × (lookup fd s'.client_list ≡ some (record c { is_registered = true }))
unfolding register_client_if_able client_at set_client post shape
register_client_if_able_returns env fd s c found new nick_given name_given sender nc hc dc = (
  post
      (record (from_client c) {
        target = (from_client c).emitter ∷ [];
        text = all_filled (from_client c) (map shape register_replies) values;
      })
      (set_client fd (record c { is_registered = true }) s),
  ground (
    arith,
    found,
    new,
    nick_given,
    name_given,
    reply_format_all-templates (from_client c) register_replies values sender
        (nc, (hc, (dc, (i_support-clean, tt)))) (omega arith),
  ),
  lookup-insert_self fd (record c { is_registered = true }) s.client_list,
)
  where
    values : List Text
    values = c.nickname ∷ c.host ∷ env.current_date ∷ i_support ∷ []

pub pass_right :
    (s : Server) (m : Message) (c : Client)
    → lookup m.emitter s.client_list ≡ some c
    → c.is_registered ≡ false
    → c.is_authenticated ≡ false
    → m.cmd_param ≡ s.pass
    → pass s m
      ≡ ok (set_client m.emitter (record c { is_authenticated = true }) s, record m { text = [] })
unfolding pass client_at
pass_right s m c found new unauthenticated right =
    ground (arith, found, new, unauthenticated, right, text_eq_refl s.pass)

pub nick_taken :
    (env : Env) (s : Server) (m : Message) (c : Client)
    → lookup m.emitter s.client_list ≡ some c
    → c.is_registered ≡ false
    → c.is_authenticated ≡ true
    → c.username ≡ []
    → c.realname ≡ []
    → is_empty m.cmd_param ≡ false
    → is_nickname_allowed m.cmd_param ≡ true
    → is_nick_unique m.cmd_param s.client_list ≡ true
    → (s' : Server) × (nick env s m ≡ ok (s', record m { text = [] }))
      × (s'.client_list ≡ insert m.emitter (record c { nickname = m.cmd_param }) s.client_list)
unfolding nick client_at take_nickname register_client_if_able set_client
nick_taken env s m c found new authenticated no_name no_realname given allowed unique = (
  record s {
    client_list = insert m.emitter (record c { nickname = m.cmd_param }) s.client_list;
    msgs = add_nick_to_messages m.emitter m.cmd_param s.msgs;
  },
  ground (
    arith,
    found,
    new,
    authenticated,
    no_name,
    no_realname,
    given,
    allowed,
    unique,
    lookup-insert_self m.emitter (record c { nickname = m.cmd_param }) s.client_list,
  ),
  refl,
)

pub nick-IsClean : (t : Text) → is_nickname_allowed t ≡ true → IsClean t
unfolding is_nickname_allowed has
nick-IsClean t h = elim (Option-cases (find_first_not_of nick_good_characters t)) [
  | inl q ↦ record {
    no_open = has-allowed nick_good_characters t b'<' q refl;
    no_close = has-allowed nick_good_characters t b'>' q refl;
  }
  | inr (i, q) ↦ absurd (ground (arith, h, q))
]

pub user_read :
    (env : Env) (s : Server) (m : Message) (c : Client) (name mode host realname : Text)
    → lookup m.emitter s.client_list ≡ some c
    → c.is_registered ≡ false
    → c.is_authenticated ≡ true
    → c.realname ≡ []
    → is_empty c.nickname ≡ false
    → m.cmd_param ≡ user_line name mode host realname
    → AreWords name mode host realname
    → IsClean c.nickname
    → IsClean name
    → IsClean host
    → IsClean env.current_date
    → (r : Server × Message) × (user env s m ≡ ok r)
      × (lookup m.emitter r.0.client_list
          ≡ some (record c {
            is_registered = true;
            username = name;
            realname = realname;
            host = host;
          }))
unfolding user client_at set_client from_client
user_read env s m c name mode host realname found new authenticated no_realname nick_given param w
      nc uc hc dc =
    let called : Client = record c { username = name; realname = realname; host = host } in
    let (s', e, at_end) =
      register_client_if_able_returns env m.emitter (set_client m.emitter called s) called
        (lookup-insert_self m.emitter called s.client_list) new nick_given w.name_given
        (record {
          nick_clean = nc;
          user_clean = ground (arith, uc.no_open, uc.no_close, w.name_given);
          host_clean = hc;
        })
        nc hc dc in
    (
      (s', m),
      ground (
        arith,
        found,
        authenticated,
        no_realname,
        ap get_correct_user_params param ∙ get_correct_user_params-line name mode host realname w,
        e,
      ),
      at_end,
    )
