-- ===== src/Conversation.antt =====
-- app/conversation: the answers to the chat messages of the users.
pub mod Products
pub mod Followup
pub mod Answering
pub mod Answers
pub mod Service
