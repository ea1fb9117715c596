-- ===== src/Exchange.antt =====
-- srcs/messages/receive_messages.cpp and send_messages.cpp: what is read from clients and what is
-- written to them. The messages of the server hold both the lines that are not complete yet, which
-- have no target, and the answers that wait to be sent.
pub mod Receiving
pub mod Sending
