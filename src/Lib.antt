-- ===== src/Lib.antt =====
-- Verification of go-algorithm-practice, a collection of data structures, algorithms and practice
-- services in Go. Its parts do not call each other, but for a file's own functions, so each part has
-- a tree of modules of its own over the shared module Prelude.
--
-- Prelude: the libraries' names, the Boolean tests and the conditional, lists over the native
--   numbers, lists of addresses (Addresses), signed integers (Int), the multiset view of a list (Multiset), and the ways a call can
--   end (Run).
-- Bst: data-structures/bst.go. Tree is TreeNode; do_insert, delete_helper, hibbard_delete,
--   in_order_stack, is_valid_helper and the others are the functions of these names. rand.Intn(2) is
--   a supply of draws. Bst/Sorted has the ordered lists that Bst/Update and Bst/InOrder refine the
--   operations to, Bst/Order the order of a tree.
-- Heap: data-structures/heap.go. baseHeap, MinHeap and MaxHeap on the list of the items; the test
--   of two items is a parameter with the values min_first and max_first. Heap/Order has the heap
--   order, Heap/Down and Heap/Up the two loops, Heap/Calls the calls.
-- Rlp: algorithms/serialization.go, the RLP part. Rlp is the encoder, Rlp/Decoder rlpDecodeItem and
--   RLPDecode, Rlp/Reader RLPReader over an io.Reader that gives a list of bytes, with its laws in
--   Rlp/Reader/Laws and Rlp/Reader/Headers. Rlp/BigEndian and Rlp/Encodings are about the encoder,
--   Rlp/Slices, Rlp/Strings and Rlp/Lists decode the parts of an encoding, Rlp/RoundTrip whole ones;
--   Rlp/Loop is about an input that the decoder does not get past.
-- Routing: practice/routing_table.go. net.ParseCIDR and net.ParseIP are parameters. Routing/Bits has
--   the binary digits of an address, Routing/Match is about prefixes of them, Routing/Foreign about
--   IPv6 addresses.
-- Metrics: practice/metrics_buffer.go. Both ring buffers, for samples of any type; the arithmetic of
--   floats and the clock are parameters. Metrics/History relates a ring to all samples pushed,
--   Metrics/Copies and Metrics/Latest are about GetRecent, Metrics/Recent about Average and GetWindow.
-- Trie: data-structures/trie.go. Trie/Words has Search as the view of a trie and Insert, Trie/Paths
--   the search path of DeleteIterative with its indices, Trie/Without what Search finds after a change,
--   Trie/Removal the two deletions, Trie/Keys the keys of the maps of children, Trie/Completion FindAllWithPrefix.
-- Leveling: practice/robotic_leveling.go. Leveling/Targets is about computeTargetHeights,
--   Leveling/Done about where Solve ends, Leveling/Turns has the rules of the game as the comment at
--   the top of the source states them, Leveling/Play the game played with Solve.
-- Blocks: practice/file_block_service.go. Blocks/Contents relates the blocks to the text written.
-- LinkedList: data-structures/linkedlist.go. Every function, on a memory of nodes with addresses for
--   pointers. LinkedList/Segments has the lists in a memory, LinkedList/Walks the pointers that go
--   along one and FindMiddle; LinkedList/Reverse, Cycle, Merge, Remove and Palindrome are about the
--   functions of these names.
-- LruCache: data-structures/lru-cache.go. Every method, on a memory of nodes. LruCache/Links has the
--   doubly linked lists, Moves what addHead and moveToHead do to them, State the invariant of the map
--   and the list, Entries the list of entries that the cache stands for; Refines is about Get,
--   Evictions, Inserts and Puts about Put, Runs about sequences of calls.
-- Merkle: data-structures/merkle.go. The Merkle tree on a memory of nodes, with crypto/sha256 as a
--   parameter. Merkle/Paths has the ways from a leaf up, Grow and Levels what a parent and a level do
--   to them, Loop and Leaves the rest of NewMerkleTree, Proofs the proofs. Merkle/Sparse is the sparse
--   tree, with the bits of keys in Sparse/Bits, what Set does in Sparse/Sets and its laws in
--   Sparse/Laws.
-- Health: practice/parallel_url_health.go. Health/Pool has the steps of RunChecker's goroutines, where
--   a send on either channel waits for room; Health/Counts how many URLs are where, Health/Outcomes what is collected, Health/Progress how the
--   workers end; Health/Summaries is about ComputeSummary. Any order of the steps is a run; the errgroup's context is a flag that any step may
--   set.
--
-- Numbers: an index, a length and a count are natural numbers. The keys of the trees and heaps are
-- integers without bounds, which no operation does arithmetic on. In the RLP decoder an `int` is its
-- 64-bit pattern and sums wrap around.
-- Loops: those over a list or a counter are structural. siftDown takes as much fuel as there are
--   items and one more, Push as the position of the new item and one more; with less the model would
--   return none. The traversal with a stack and the RLP decoder take their fuel as an argument: one
--   unit for a round, of which one for each node and one to stop are enough, and one unit for a call
--   or a round of a loop over items, of which the number of the values and the list ends is enough
--   for an encoding. The loops over linked lists take one unit for a round, of which one for each
--   node and one or two more are enough; those over the levels of a Merkle tree take one for each
--   level, of which there are no more than items. The game of Leveling takes a number of turns.
-- Errors: a call that can panic or fail returns Option, Run or a type of its own.
--
-- Not modelled: the mutexes of the metrics buffers, since each method holds the lock from start to
-- end; out of memory; what a caller does with a slice that is still shared. The token bucket, the
-- payment router, the task scheduler, the closest temperature, and of the URL health checker the
-- reading of the file and the command line are not modelled. data-structures/bloom.go, patricia.go and
-- dag.go, algorithms/gossip.go, consensus.go and graph.go, and the SSZ and Protocol Buffers part of
-- algorithms/serialization.go are stubs in the source. examples/main.go and cmd/health/main.go print.
pub mod Prelude
pub mod Bst
pub mod Heap
pub mod Rlp
pub mod Routing
pub mod Metrics
pub mod Trie
pub mod Leveling
pub mod Blocks
pub mod LinkedList
pub mod LruCache
pub mod Merkle
pub mod Health
