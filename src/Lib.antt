-- ===== src/Lib.antt =====
-- A library of C data structures, modelled and verified.
--
-- The program is a project template for C with a library of data structures under lib/. Each
-- structure is a component of its own; lib/callback and lib/workqueue use lib/list, and all use
-- the macros of include/common.h.
--
-- The parts and their files:
-- - Base: numbers, lists and tests; Base/Outcome is how a call ends: `ok`, `fault` for undefined
--   behaviour (a bad pointer, an index outside the array, an `int` that overflows), or
--   `out_of_fuel`, which the theorems exclude.
-- - Common: macros of include/common.h, `member` for the way back from container_of.
-- - ListHead: lib/list/list.c and list.h. The state is a store from addresses to `struct list_head`
--   cells; an address without a cell faults. The functions have their names in the source
--   (`splice` is __list_add, `unlink` is __list_del). The iteration macros are `for_each` and
--   `for_each_safe`, by a direction (`next` or `prev`) and a cursor (the cell, or the struct
--   around it). ListHead/Cells says what each function does to the two fields of each cell,
--   Ring what a well-formed circular list is, Update, Queries, Walk, Prune and Macros what the
--   functions do to such lists.
-- - Callback: lib/callback/callback.c and callback.h, over ListHead. `node_cbs` gives the addresses
--   of the list heads; the table is `head_cb` in the source and arbitrary in the theorems.
--   Callback/Register and Init are about init_node_cbs, Notify about the calls.
-- - MinHeap: lib/min_heap/min_heap.c and min_heap.h. The array is a list of elements with `nr`
--   in use; the comparison and the exchange are parameters, and so is what memcpy does to an
--   element that is its source and its destination, as in min_heap_pop of the last one, of which
--   the C standard says nothing. Their laws are in `IsLawful`: the order is a strict weak one, for
--   min_heap.h asks only for a partial order, under which the heap order is lost. A heap is valid
--   if it is in order, the array has room for `size` elements, `nr` is at most that, and neither
--   twice `size` nor `size` times the element size overflows an `int`. Order has the heap order,
--   Down and Up the two sifting loops, Valid and PushPop the operations, Drain and Replace
--   sequences of them.
-- - Bits: binary digits and the operators of C on them; Bits/Shift and Mask have their laws.
-- - Bitmap: lib/bitmap/bitmap.c and bitmap.h over lists of words (`find_next` is _find_next_bit, `ffs`
--   is __ffs). The array that calloc gives is a parameter. Words and Undo are about single bits,
--   Ffs, Search and Find about the search.
-- - Workqueue: lib/workqueue/workqueue.c and workqueue.h. Each function is the code that a
--   thread runs while it holds the lock (`look_for_work` is the loop of worker_thread and what
--   follows, `grow` the end of process_one_work). Workqueue/Threads has the threads as a list of
--   places and the steps, in any order: a spurious wake-up is one, pthread_create may fail, and a
--   worker that exits unlocks in a step after that of its `ref_count--`. Counts, Sections, Workers
--   and Preserve have the invariant, Reach what it gives, Queue the results of queue_work, Once
--   where a work is, Prepare the errors of init_workqueue before it creates workers. Entries
--   relates the list of works to the C list of ListHead that holds their entries. flush_work and
--   the waits of init_workqueue and destroy_workqueue, which read without the lock, are no steps;
--   the theorems are about the states in which they end. The destruction of the lock and the
--   condition variable after them is not modelled.
-- - Command: commands over a store, for ListHead and Rbtree.
-- - Rbtree: lib/rbtree/rbtree.c and rbtree.h, over a store of nodes; the parent pointer and the colour
--   share a word. What the source writes twice, for left and right, is one function of a `Side`.
--   The callbacks of the augmented form are empty in rb_insert_color and rb_erase, and left out.
--   Rbtree/Tree has the tree and the places in it, Access the packed word, Rep when a store holds
--   a tree, Frame and Rotate what writes and rotations do to it, Balance the red-black properties.
--   Rbtree/Insert is __rb_insert, Erase is __rb_erase_augmented and ____rb_erase_color, Iterate
--   the functions from rb_first to rb_first_postorder. Insert/Turn and Inner are about the
--   rotations of __rb_insert, Insert/Gap states where a node may be linked in terms of the store.
--   Erase has a file for each case of the loop, Single and Only for a node with at most one child,
--   Seat, Spine, Next and Deep for the successor that replaces a node with two, Whole for
--   rb_erase. A round of a loop goes up or down in the tree, so as many rounds as the tree is
--   deep, or one more, are enough; Rbtree/Depth bounds the depth by twice the logarithm of the
--   number of nodes and one. Iterate/Ends has the results in order, Iterate/Postorder and Passed
--   those in post-order, also while the nodes that have been passed are freed. Rbtree/Refine is
--   about any sequence of insertions and erasures.
-- - Program: src/main.c. The results of getopt_long, strtol and strdup are parameters, an `int` of the
--   options is its 32 bits. Program/Options has what get_options accepts.
--
-- Numbers are natural numbers with the bounds of C written out: pointers are 64 bits wide and wrap
-- in `container_of`, an `unsigned long` of a bitmap wraps, an `int` of the heap faults above
-- 2 ^ 31 - 1. Negative counts of a heap, and an element size of 0, are left out. The counters of a
-- workqueue are not bounded: a counter at 0 is never decremented, because it counts threads.
-- Loops over a list take fuel; more rounds than the list has entries are enough, and the theorems
-- say so. The loops of the heap take as many rounds as there are slots, or one more; the
-- search in a bitmap takes a round for each word. bitmap_free only passes its argument to free.
pub mod Base
pub mod Command
pub mod Common
pub mod ListHead
pub mod Bitmap
pub mod Bits
pub mod Callback
pub mod MinHeap
pub mod Program
pub mod Rbtree
pub mod Workqueue
