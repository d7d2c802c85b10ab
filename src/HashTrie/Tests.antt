-- ===== src/HashTrie/Tests.antt =====
-- The tagged pointers of src/hash_trie/mptr.rs at concrete inputs.
use nolock.Prelude.{◌≡◌, true, refl, arith}
use nolock.HashTrie.Pointer.{load_ptr, cas_entry, cas_hashlevel, entry, hash_level, load-cas}

load-cas_example :
    ((cas_entry 0 0 4096).0 ≡ true)
    × (load_ptr (cas_entry 0 0 4096).1 ≡ entry 4096)
    × ((cas_hashlevel 0 0 4096).0 ≡ true)
    × (load_ptr (cas_hashlevel 0 0 4096).1 ≡ hash_level 4096)
load-cas_example = load-cas 0 4096 refl (omega arith)
