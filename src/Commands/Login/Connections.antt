-- ===== src/Commands/Login/Connections.antt =====
-- Connections that come and go.
use ft_irc_duck.Base.{ℕ, refl, inl, inr, Option-cases}
use ft_irc_duck.Map.{lookup, fd_key}
use ft_irc_duck.Client.{new_client}
use ft_irc_duck.Server.{Server, add_client, del_client}
use ft_irc_duck.Commands.Login.Clients.{AreSound, insert-AreSound, erase-AreSound, nameless-Apart}

pub add_client_sound :
    (fd : ℕ) (s : Server) → AreSound s.client_list → AreSound (add_client fd s).client_list
unfolding add_client new_client
add_client_sound fd s inv = elim (Option-cases (lookup fd s.client_list)) [
  | inl e ↦
      rw (e, add_client)
        (insert-AreSound fd (new_client fd) s.client_list inv
          (record { named = λ h. absurd (h refl); authenticated = λ h. cc; has_nickname = λ h. cc })
          (λ j d f ne. nameless-Apart d.nickname))
  | inr (c, e) ↦ rw (e, add_client) inv
]

pub del_client_sound :
    (fd : ℕ) (s : Server) → AreSound s.client_list → AreSound (del_client fd s).client_list
unfolding del_client
del_client_sound fd s inv = elim (Option-cases (lookup fd s.client_list)) [
  | inl e ↦ rw (e, del_client) inv
  | inr (c, e) ↦ rw (e, del_client) (erase-AreSound fd (new_client fd) s.client_list inv)
]
