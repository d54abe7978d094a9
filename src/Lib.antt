-- ===== src/Lib.antt =====
-- A concurrent adaptive radix tree: maps from byte-string keys, on the heap and in an arena, with
-- a versioned variant that keeps a chain of versions per key.
--
-- Parts and files:
-- - Prelude: byte strings and their order (`common_prefix` of src/raw/mod.rs, the prefix test of
--   src/raw/node.rs), lists measured by native numbers, and the entries of a node in byte order.
-- - Tree: the data of src/raw/node.rs (`NodeType`, the node with its prefix, exact leaf and
--   children) and the operations on one node. Children are sorted entries, the abstract view of
--   the four layouts; a slot is a value, not an address.
-- - Tree/Read: `get` of src/raw/read.rs. Tree/Write: `insert_with` and `build_chain` of
--   src/raw/write.rs. Tree/Remove: `remove_confirmed`, `remove_unlinking` and `unlink_emptied` of
--   src/raw/remove.rs. Each is the run in which every validation, upgrade and re-check
--   succeeds; what the source stores into the parent is the result of the step below it.
-- - Tree/Wf: the well-formed trees, what `validate` of src/raw/walk.rs checks of prefixes (at most
--   16 bytes), children (sorted, within the capacity) and keys (they continue their path).
--   Tree/Filled: the trees without an empty inner node, which `validate` asserts as well.
-- - Tree/Look, Tree/Chain, Tree/LeafSplit, Tree/Stands, Tree/NodeReads, Tree/Split,
--   Tree/InsertLeaf, Tree/InsertNode, Tree/InsertAdd, Tree/Copy, Tree/NodeWf, Tree/InsertWf: what
--   one step of an insert does to lookups and to well-formedness. Tree/Inserts is the insert as a relation with a
--   constructor for each branch; Tree/Insert, Tree/InsertKeeps, Tree/InsertTotal and
--   Tree/InsertBefore go by induction on it, and Tree/Laws states the results for whole trees.
-- - Tree/Rerouted, Tree/RemoveStep, Tree/RemoveParent, Tree/Removes, Tree/FollowUp: what a remove
--   and its follow-up do to lookups and to well-formedness, step by step; Tree/RemoveLaws states
--   the results for whole trees.
-- - Tree/Unlinks, Tree/RemoveFills, Tree/InsertFills: a remove with its follow-up, and an insert,
--   leave no empty inner node. Tree/Runs: runs of inserts and removes.
-- - Tree/Leaves, Tree/InOrder, Tree/Sorted: the leaves of a tree in the order of the walks, the
--   abstract view of a tree as a sorted list; Tree/Refines relates lookups to it, and Tree/Contents
--   inserts, removes and the number of keys.
-- - Tree/Shrink: `shrink_to_fit` of src/raw/shrink.rs with `rest` of src/raw/node.rs, the run in
--   which every attempt is the first one. Tree/Fitted has `assert_fitted` of its tests and the fit
--   of one node, Tree/FitMerge a merge, Tree/FitChildren the writes of the children into their
--   parent, and Tree/ShrinkLaws the fit of a whole tree.
-- - Cursor: the frames, the loop of `step` and the descent of `seek` of src/raw/cursor.rs, with
--   `next_child` and `prev_child` of src/raw/node.rs. Cursor/Sides: the two ends of the cursor,
--   `seek`, `step`, `accept`, `advance` and `invalidate`. Cursor/Keys: `cmp_keys`.
--   Cursor/Stack and Cursor/StackRuns: the stack of frames in memory, whose view as a list the
--   other files use.
-- - Cursor/Ahead, Cursor/Turns, Cursor/Work, Cursor/Loop: what a stack of frames has before it,
--   and what the loop takes from it. Cursor/Keeps, Cursor/Parts, Cursor/Seeks, Cursor/SeekFrames,
--   Cursor/Descents, Cursor/Bounds, Cursor/InDirection: what `seek` leaves before it.
--   Cursor/Accepts, Cursor/Advances, Cursor/Scans, Cursor/Positions and Cursor/Ranges: the steps
--   of an end up to its last, and the range that it goes over, from a new cursor or after an
--   invalidation.
-- - Latch: src/latch.rs, the version latch and the chain lock, as step relations over a word and
--   the guards that threads hold; any thread may take any step.
-- - Counter: the striped length counter of src/raw/mod.rs.
-- - Arena: src/arena/mod.rs, the bump cursor and the chunks of the threads, as a step relation over
--   the ranges that were handed out and the rests of the chunks.
-- - Versions: the version chain of src/versioned/tree.rs and src/versioned/node.rs, under its lock.
--
-- Fuel: a descent consumes at least one byte of the key for each inner node that it leaves, so
-- one more than the length of the key is enough; the insert has no result only when the fuel runs
-- out or a full `Node256` is to grow. The seek of a cursor takes the same fuel. The loop of
-- `step` takes one more than the work of its stack: a bound on the turns that its frames and the
-- nodes below them need. The words of the latch wrap at 2 ^ 64, so a version comes back after 2 ^
-- 62 critical sections.
--
-- Not modelled: the retries of the tree operations under contention (a retry starts the same
-- operation again from the root), fences and weak memory, epoch reclamation, allocation failure,
-- the reset of an arena, the checks of latches, removed marks and the length in `validate`, the
-- restarts of a cursor and the attempts of `shrink_to_fit` under writers, the inline buffers of a
-- cursor's keys, the layouts of the nodes in memory, and the wrappers of the public maps.
pub mod Arena
pub mod Counter
pub mod Cursor
pub mod Latch
pub mod Prelude
pub mod Tree
pub mod Versions
