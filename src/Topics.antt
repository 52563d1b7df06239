-- ===== src/Topics.antt =====
-- topics.go: topic aliases, topic filters and the index of subscribers.
pub mod Alias
pub mod Filter
pub mod Trie
mod Tests
pub mod Index
