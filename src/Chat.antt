-- ===== src/Chat.antt =====
-- src/chat: the turns of the chats, and the replay of their history.
pub mod Queue
pub mod Replay
