-- ===== src/Commands.antt =====
-- srcs/commands: one module for each command, and how a line becomes a command. A handler takes the
-- server and the message by reference, so it gives both back.
pub mod Login
pub mod Info
pub mod Parsing
pub mod Topic
pub mod Kick
pub mod Part
pub mod Invite
pub mod Join
pub mod Privmsg
pub mod Quit
pub mod Mode
pub mod Clients
