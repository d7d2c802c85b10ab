-- ===== src/Lib.antt =====
-- nolock: lock-free queues, an allocator and reclamation schemes.
--
-- The program's parts, and the files that model them:
--
-- - queues.rs, the errors of all queues: Queues.
-- - queues/spsc/bounded.rs and bounded/node.rs, the queue of one producer and one consumer: Spsc.Node
--   is an entry (`Node::store`, `Node::load`, and their two accesses each), Spsc.Bounded both halves
--   with what they share, one function per operation. Spsc.Bounded.Fifo is the bounded FIFO that
--   the operations are compared with; Repr, Index, Refine and Run relate the two;
--   Waiting is the calls that spin. Spsc.Bounded.Threads
--   cuts `try_enqueue`, `try_dequeue` and the drops at every access to the shared entries and flag
--   and interleaves the two threads in any order; its children hold the invariant, what each access
--   does to it, and the conclusions (Safety).
-- - queues/spsc/unbounded/d_spsc.rs, a linked queue that uses its nodes again: Spsc.Nodes, on a memory of
--   nodes in which a dropped one is `none`, with Repr, Refine and Run against an unbounded FIFO.
-- - queues/spsc/unbounded.rs, the queue without a bound: Spsc.Unbounded, a chain of the buffers of
--   Spsc.Bounded whose receiving halves wait in the linked queue of Spsc.Nodes (Waits); Repr says which
--   items the chain holds, Sending, Receiving, Refine and Closing what each operation does, Run and Waiting
--   what follows for sequences of calls and for the call that spins.
-- - queues/mpmc/queue/ncq.rs and queue/scq.rs with scq/entry_data.rs, queues of indices: Mpmc.Ncq with
--   Mpmc.NcqEntry, and Mpmc.Scq with Mpmc.ScqEntry. A loop is a function for one round and a recursion on
--   fuel; Holds says which indices a queue holds.
-- - queues/mpmc/unbounded/queue/scq.rs, an index queue that can be finalised: Mpmc.FinalScq, `finalize` and
--   `enqueue` on the state of Mpmc.Scq. Mpmc.Segment is queues/mpmc/unbounded/queue.rs, the bounded queue of
--   two of them, with Laws and Refine (a FIFO that is closed once it was full), and Mpmc.Unbounded is
--   queues/mpmc/unbounded.rs, a chain of such buffers in a memory: Chain says which items it holds, Sending,
--   Receiving and Retiring what the operations do to it, Standing and Run what follows for calls.
-- - queues/mpsc/jiffy.rs with jiffy/node.rs and jiffy/bufferlist.rs, the queue of many producers and one
--   consumer: Mpsc.Node, Mpsc.BufferList, Mpsc.Jiffy, on a memory of buffers with `BUFFER_SIZE` as a parameter. A send
--   is a reservation and a `fill`, so that others may run in between. Jiffy.Holds says which items the
--   buffers hold, Writing, Sending, Taking, Receiving and Empty what the operations do to them, Run what
--   follows for calls, Closing what the last drop frees, Stalled what a receive does behind a sender that has
--   not stored its item.
-- - queues/mpmc/queue.rs, the bounded queue made of a buffer and two queues of indices: Mpmc.Underlying
--   is the interface (the trait `UnderlyingQueue`, with the laws relied on), Mpmc.Bounded the operations
--   over it, Mpmc.NcqBounded and Mpmc.ScqBounded its two instances.
-- - allocator/lrmalloc: Lrmalloc.Anchor (descriptor/anchor.rs, anchor_state.rs), Descriptor
--   (descriptor.rs), SizeClasses, Stack (cache/stack.rs, cache/flush_iter.rs), Cache (cache.rs), Slots
--   (pagemap/storage.rs, heap/descriptors.rs) and Partial (heap/stack.rs). The allocator looks up a
--   size class, takes a block from the thread's cache, and finds the descriptor of a freed block
--   through the page map.
--   Lrmalloc.Heap is heap.rs on a memory of words and one of descriptors: superblocks and large
--   allocations, with Heap.Fill (`fill_cache`) and Heap.Flush (`flush_cache`); Chain and Runs are about the
--   links that run through free blocks, FillLaws, FlushLaws and RoundTrip about the two operations.
--   Lrmalloc.Allocator is lrmalloc.rs. `std::alloc::System` is the parameter `System`.
-- - thread_data.rs: ThreadData, over the interface `StorageBackend` (the trait, with what is relied on);
--   ThreadData.Linked is thread_data/storage/list.rs, an instance of it, and ThreadData.Target
--   storage/trie/ptr/target.rs.
-- - hash_trie/mptr.rs, the tagged pointers of the trie of hashes: HashTrie.Pointer.
-- - hazard_ptr/record.rs and hazard_ptr/domain/global.rs: HazardPtr.Global, the list of records in a memory, with
--   `Guard::protect` (hazard_ptr/guard.rs) and `generate_new_record` (hazard_ptr/domain.rs); Laws says what the
--   list holds, Protecting what a guard does to it.
-- - Prelude holds the shared names, lists with native lengths, machine words and atomics.
--
-- Numbers are natural numbers; where the source wraps, the remainder by 2 ^ 64 or 2 ^ 32 is written
-- out, and `isize` is its two's complement word. `none` is a fault: a panic or an access out of
-- bounds, or the end of the fuel of a loop. Two rounds of fuel are enough for every loop of the index
-- queues where an operation runs alone, which the laws of Mpmc.Ncq.Laws and Mpmc.Scq.Laws show. Their
-- counters grow for ever in the source; a budget in Holds says how many operations are left before they
-- outgrow their fields, and the theorems on runs take the number of calls as that budget.
--
-- Threads interleave under sequential consistency; the weaker orders of the atomics are not modelled.
-- The mpmc queues and the allocator's parts are run one operation at a time. The capacity that
-- `Vec::with_capacity` allocates is a parameter.
--
-- Not modelled: queues that wake tasks (async_queue.rs), the iterators and the waiting `dequeue` of
-- queues/mpsc/jiffy, hash_trie but mptr.rs, the trie of thread_data but its pointers, the other
-- functions of hazard_ptr, and hyaline.
pub mod Prelude
pub mod Queues
pub mod Spsc
pub mod Mpmc
pub mod Mpsc
pub mod Lrmalloc
pub mod ThreadData
pub mod HashTrie
pub mod HazardPtr
