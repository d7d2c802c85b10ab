-- ===== src/HashTrie.antt =====
-- src/hash_trie: the parts of the trie of hashes. A pointer is its address.
pub mod Pointer
mod Tests
