-- ===== src/Channel.antt =====
-- srcs/channel/Channel.hpp: the data of a channel. The int of a client holds ORs of the three enum
-- values of ClientStatus and nothing else, so it is kept as three flags; `bits` gives the int back.
use ft_irc_duck.Base.{ℕ, ◌+◌, Bool, true, false, Option, none, [], ◌∷◌, if◌then◌else◌, ◌≡◌, refl}
use ft_irc_duck.Text.{Text}
use ft_irc_duck.Map.{Map}

pub record Status : Type 0 where
  pub invited : Bool
  pub is_member : Bool
  pub chanop : Bool

-- The int that a status stands for: INVITED is 1, MEMBER 2, CHANOP 4.
unfoldable pub bits : Status → ℕ
bits s = (if s.invited then 1 else 0) + (if s.is_member then 2 else 0) + (if s.chanop then 4 else 0)

-- A new int in the map.
abbrev pub no_status : Status
no_status = record { invited = false; is_member = false; chanop = false }

-- The int MEMBER.
abbrev pub plain_member : Status
plain_member = record { invited = false; is_member = true; chanop = false }

pub record Channel : Type 0 where
  pub name : Text
  pub topic : Text
  pub topic_date : Text
  pub topic_author : Text
  pub key : Text
  pub is_invite_only : Bool
  pub is_topic_restricted : Bool
  -- `none` is -1, for no limit; the program stores no other negative limit
  pub member_limit : Option ℕ
  pub clients : Map ℕ Status

-- Channel(int creator, std::string new_name)
unfoldable pub new_channel : ℕ → Text → Channel
new_channel creator new_name = record {
  name = new_name;
  topic = [];
  topic_date = [];
  topic_author = [];
  key = [];
  is_invite_only = false;
  is_topic_restricted = true;
  member_limit = none;
  clients = (creator, record { invited = false; is_member = true; chanop = true }) ∷ [];
}

-- Channel(const Channel &cpy), which leaves out `_topic_date` and `_topic_author`.
unfoldable pub copy_channel : Channel → Channel
copy_channel cpy = record {
  name = cpy.name;
  topic = cpy.topic;
  topic_date = [];
  topic_author = [];
  key = cpy.key;
  is_invite_only = cpy.is_invite_only;
  is_topic_restricted = cpy.is_topic_restricted;
  member_limit = cpy.member_limit;
  clients = cpy.clients;
}

-- operator=, which leaves them as they are.
unfoldable pub assign_channel : Channel → Channel → Channel
assign_channel c assign = record c {
  name = assign.name;
  topic = assign.topic;
  key = assign.key;
  is_invite_only = assign.is_invite_only;
  is_topic_restricted = assign.is_topic_restricted;
  member_limit = assign.member_limit;
  clients = assign.clients;
}

-- A channel is copied where it is put into the server's map, before it has a topic.
pub copy_channel-new_channel :
    (creator : ℕ) (name : Text) → copy_channel (new_channel creator name) ≡ new_channel creator name
unfolding copy_channel new_channel
copy_channel-new_channel creator name = refl
