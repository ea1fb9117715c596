-- ===== src/Commands/Privmsg/Reach.antt =====
-- Who gets a text that a member sends to a channel.
use ft_irc_duck.Base.{
  ℕ, suc, Bool, true, false, not, ◌&&◌, ◌||◌, none, some, [], ◌∷◌, ◌++◌, ◌≡◌, refl, sym, ap, ◌∙◌,
  arith, length, take, drop, is_empty, All, ok, ◌==◌, ==_iff, take-append_length, drop-length_add,
  append_assoc, append-nil,
}
use ft_irc_duck.Text.{Text, codes, has, find, trim_right}
use ft_irc_duck.Text.Equality.{find-append, has-append}
use ft_irc_duck.Text.Splitting.{cut_commas-rejoin}
use ft_irc_duck.Map.{Map, FdSet, lookup, insert, member, add, fd_key, text_key}
use ft_irc_duck.Map.Laws.{member-add}
use ft_irc_duck.Channel.{Channel, Status}
use ft_irc_duck.Message.{Message}
use ft_irc_duck.Message.Replace.{IsClean}
use ft_irc_duck.Message.Format.{IsSenderClean, all_filled, reply_format_all-filled}
use ft_irc_duck.Membership.{status_of}
use ft_irc_duck.Server.{Env, Server, get_channel_by_name}
use ft_irc_duck.Commands.Privmsg.{
  name_set, get_targets, add_others, add_correct_target, add_correct_targets, privmsg_text, privmsg,
}
use ft_irc_duck.Commands.Privmsg.Bracket.{one_target, curly_one, one_target-IsWellFormed}

-- Whether the map has an entry.
abbrev pub has_entry : ℕ → Map ℕ Status → Bool
has_entry j m = elim (lookup j m) [ none ↦ false | some st ↦ true ]

-- Every other client of the map is added, and nobody else.
member-add_others :
    (fd : ℕ) (m : Map ℕ Status) (targets : FdSet) (j : ℕ)
    → member j (add_others fd m targets) ≡ (member j targets || (has_entry j m && not (j == fd)))
unfolding add_others lookup
member-add_others fd [] targets j = ground arith
member-add_others fd ((i, st) ∷ m) targets j = ground (
  arith,
  member-add_others fd m targets j,
  member-add_others fd m (add i targets) j,
  member-add i j targets,
  ==_iff i j,
  ==_iff i fd,
  ==_iff j fd,
)

trim_right-word :
    (set t : Text) (c : ℕ)
    → All (λ x. has x set ≡ false) t
    → has c set ≡ true
    → trim_right set (t ++ c ∷ []) ≡ t
unfolding trim_right
trim_right-word set [] c h e = rw e refl
trim_right-word set (x ∷ []) c h e = ground (arith, e, h.0)
trim_right-word set (x ∷ y ∷ xs) c h e = rw (trim_right-word set (y ∷ xs) c h.1 e) refl

-- A name that the parameters of a command can carry.
pub record IsTargetName (name : Text) : Type 0 where
  pub no_colon : has b':' name ≡ false
  pub no_comma : has b',' name ≡ false
  pub no_blank : All (λ x. has x (codes " \t") ≡ false) name
  pub clean : IsClean name

get_targets-name :
    (name : Text) → IsTargetName name → get_targets (name ++ b' ' ∷ []) ≡ (name, tt) ∷ []
unfolding get_targets name_set insert has
get_targets-name name n =
    rw
      (
        cut_commas-rejoin [] (name ++ b' ' ∷ []) tt
            (has-append b',' name (b' ' ∷ []) n.no_comma refl),
        trim_right-word (codes " \t") name b' ' n.no_blank refl,
      )
      refl

-- PRIVMSG as a client sends it to one name.
abbrev pub privmsg_param : Text → Text → Text
privmsg_param name text = name ++ b' ' ∷ b':' ∷ text

privmsg_text_one :
    (m : Message) (name text : Text)
    → IsSenderClean m
    → IsClean name
    → IsClean text
    → privmsg_text (name ∷ []) text m
      ≡ ok (record m {
        target = m.emitter ∷ [];
        text = all_filled m (one_target ∷ []) (name ∷ text ∷ []);
      })
unfolding privmsg_text
privmsg_text_one m name text sc cn ct = rw curly_one (
    reply_format_all-filled m (one_target ∷ []) (name ∷ text ∷ []) sc (one_target-IsWellFormed, tt)
      (cn, (ct, tt)) (omega arith))

-- The text as it arrives.
abbrev pub privmsg_line : Message → Text → Text → Text
privmsg_line m name text =
    b':'
    ∷ (m.emitter_nick
        ++ b'!'
          ∷ (m.username
              ++ b'@'
                ∷ (m.host
                    ++ (codes " PRIVMSG " ++ (name ++ (codes " :" ++ (text ++ codes "\r\n")))))))

all_filled-privmsg :
    (m : Message) (name text : Text)
    → all_filled m (one_target ∷ []) (name ∷ text ∷ []) ≡ privmsg_line m name text
all_filled-privmsg m name text = simp (append_assoc, append-nil)

colon_found :
    (name text : Text)
    → has b':' name ≡ false
    → find b':' (privmsg_param name text) ≡ some (length (name ++ b' ' ∷ []))
unfolding has
colon_found name text h =
    ap (find b':') (sym (append_assoc {0} name (b' ' ∷ []) (b':' ∷ text)))
    ∙ find-append b':' (name ++ b' ' ∷ []) text (has-append b':' name (b' ' ∷ []) h refl)

text_dropped :
    (name text : Text) → drop (suc (length (name ++ b' ' ∷ []))) (privmsg_param name text) ≡ text
text_dropped name text =
    ap (drop (suc (length (name ++ b' ' ∷ []))))
      (sym (append_assoc {0} name (b' ' ∷ []) (b':' ∷ text)))
    ∙ ap (λ (n : ℕ). drop n ((name ++ b' ' ∷ []) ++ b':' ∷ text))
        {x = suc (length (name ++ b' ' ∷ []))} (omega arith)
    ∙ drop-length_add (name ++ b' ' ∷ []) (b':' ∷ text) 1

name_taken :
    (name text : Text)
    → take (length (name ++ b' ' ∷ [])) (privmsg_param name text) ≡ name ++ b' ' ∷ []
name_taken name text =
    ap (take (length (name ++ b' ' ∷ []))) (sym (append_assoc {0} name (b' ' ∷ []) (b':' ∷ text)))
    ∙ take-append_length (name ++ b' ' ∷ []) (b':' ∷ text)

not_empty_member : (j : ℕ) (xs : FdSet) → member j xs ≡ true → is_empty xs ≡ false
unfolding member
not_empty_member j [] h = cc
not_empty_member j (x ∷ xs) h = refl

-- A member's text for a channel that has another client goes to every client in the channel's map
-- but the sender, whether it is a member or was only invited, and to nobody else. The channel is the
-- only target, its name holds no blank, comma or colon, and nothing that is quoted an angle bracket.
pub privmsg_reaches :
    (env : Env) (s : Server) (m : Message) (c : Channel) (st : Status) (name text : Text) (j : ℕ)
    → lookup name s.channel_list ≡ some c
    → lookup m.emitter c.clients ≡ some st
    → st.is_member ≡ true
    → m.cmd_param ≡ privmsg_param name text
    → m.target ≡ []
    → IsTargetName name
    → IsSenderClean m
    → IsClean text
    → has_entry j c.clients ≡ true
    → (j == m.emitter) ≡ false
    → (m' : Message) × (privmsg env s m ≡ ok (s, m'))
      × (m'.text ≡ privmsg_line m name text)
      × ((k : ℕ) → member k m'.target ≡ (has_entry k c.clients && not (k == m.emitter)))
unfolding privmsg add_correct_targets add_correct_target get_channel_by_name status_of lookup member
privmsg_reaches env s m c st name text j found entry is_member param no_target n sc ct here other =
    (
      record cut { target = others; text = privmsg_line m name text },
      ground (
        arith,
        param,
        colon_found name text n.no_colon,
        text_dropped name text,
        name_taken name text,
        get_targets-name name n,
        found,
        entry,
        is_member,
        no_target,
        not_empty_member j others (rw (reached j, here, other) refl),
        privmsg_text_one cut name text
            (record {
              nick_clean = sc.nick_clean;
              user_clean = sc.user_clean;
              host_clean = sc.host_clean;
            })
            n.clean ct,
        all_filled-privmsg cut name text,
      ),
      refl,
      reached,
    )
  where
    cut : Message
    cut = record m { cmd_param = name ++ b' ' ∷ [] }

    others : FdSet
    others = add_others m.emitter c.clients []

    reached : (k : ℕ) → member k others ≡ (has_entry k c.clients && not (k == m.emitter))
    reached k = member-add_others m.emitter c.clients [] k
