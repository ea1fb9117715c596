-- ===== src/Lib.antt =====
-- A model of ft_irc_duck, an IRC server in C++98.
--
-- A connection sends lines. Each line becomes a Message with the sender's socket
-- (srcs/messages), is split into a command and its parameter and handed to the command of that
-- name (srcs/commands/parsing.cpp, srcs/commands/ICommand.hpp). A command changes the Server
-- (srcs/server), whose parts are the clients, the channels (srcs/channel) and the messages that
-- wait to be sent, and turns the message into the answer. Answers are written from the templates of
-- srcs/define.hpp by Message::reply_format.
--
-- A round of the loop (srcs/server/server_loop.cpp) accepts a connection, sends what waits
-- (srcs/messages/send_messages.cpp), and reads lines (srcs/messages/receive_messages.cpp).
--
-- Files and what they model:
--   Text, Map: std::string, std::map and std::set as the program uses them
--   Reply: srcs/define.hpp; Reply/Shape has each template by its parts
--   Client: srcs/server/Client.cpp and Client.hpp
--   Message: srcs/messages/Message.cpp, the reply_format functions and their helpers
--   Channel, Membership: srcs/channel/Channel.cpp; Membership has Channel::del_client (`leave`),
--     assign_next_chanop and are_there_other_chanops
--   Server: srcs/server/Server.cpp, the state and its tools; Server/Selecting has get_max_fd,
--     get_read_fds and get_write_fds
--   Commands/Parsing: parsing_cmds, check_for_cmds (srcs/commands/parsing.cpp), register_command
--   Commands/Login: Pass, Nick, User (srcs/commands/server_connection)
--   Commands/Info: Ping, Who (srcs/commands), Oper (srcs/commands/management)
--   Commands/Topic, Kick, Part, Invite, Join: the files of srcs/commands/channel
--   Commands/Privmsg: srcs/commands/message/Privmsg.cpp
--   Commands/Quit: srcs/commands/management/Quit.cpp
--   Commands/Mode: srcs/commands/management/Mode.cpp; its children Flags (parameters, mode string
--     and answer), Changes (what each mode changes) and Limit (the member limit)
--   Exchange/Receiving, Exchange/Sending: srcs/messages/receive_messages.cpp and send_messages.cpp
--   Loop: setup_commands (srcs/main.cpp), server_loop and its rounds (srcs/server/server_loop.cpp)
--   Startup: main up to the loop (srcs/main.cpp), and the constructor of Server that opens the socket
--   Logger: srcs/logger/Logger.cpp and Logger.hpp
--   Base: shared names, tests, lists and faults; Tests: theorems at concrete inputs, and runs
-- The other files hold proofs about the file they lie under.
--
-- State. A command's `execute` is a function of the server and the message, which it takes by
-- reference and so gives back; private helpers of a command keep their names. A socket is a file
-- descriptor, a number. A channel's map from a socket to an int of ORed ClientStatus values holds
-- three flags for that int. The fields of a Mode object are reset before each run, so they are a
-- value of the run. A function of std::string that throws, a dereferenced end iterator and the use of
-- an erased or moved element are faults (Base/Faults), and a fault ends the run.
--
-- Parameters. What socket, bind and listen give at the start, and the text of ctime(), are given
-- (`Os` in Startup). What select, accept and read give is chosen freely in each round (`Selected`), so a
-- theorem on rounds holds of every order of events. The date, and the status that a read through the
-- end iterator of a channel's clients gives in Join.cpp, Privmsg.cpp and Mode.cpp, come from an
-- environment `Env`.
--
-- Bounds and fuel. Texts are shorter than 2^31, so a position kept in an int keeps its value. The
-- splitting loops run on fuel, the length of the text: each round takes a separator away. The loop of
-- reply_format takes a value in each round, and one more is a fault. The loops of merge_msgs finish
-- or erase a message in each round, and the inner loop of send_messages passes over a target or takes
-- one away. A member limit is written with ten digits at most, as an int is.
--
-- Not modelled: the constructors of Server, Client, Channel and Message that the sources say are
-- never to be used; signals; where in a run of the server the entries of the log are written (the
-- log is a state of its own); the Makefile and the shell tests. An iterator that is moved before
-- the beginning and back again in send_messages.cpp is taken for the pointer that it is. A command
-- that is called on a message inside the vector, and adds or erases messages, is a fault also where
-- the vector has room.
pub mod Base
pub mod Text
pub mod Map
pub mod Reply
pub mod Client
pub mod Message
pub mod Channel
pub mod Server
pub mod Membership
pub mod Commands
pub mod Exchange
pub mod Loop
pub mod Logger
pub mod Startup
pub mod Tests
