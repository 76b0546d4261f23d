-- ===== src/Lib.antt =====
-- av-utils: a library of C++ containers and utilities, each a header of include/ that stands for
-- itself. A program takes the headers it needs, and few of them use one another; so every part
-- here is a container with its state and its operations, and the parts meet only in what a program
-- does with them.
--
-- The parts, with the file that models each and what its state stands for:
--
-- SparseSet: include/sparse_set.h. A set of values below a bound, kept in a dense vector and a
-- sparse vector that gives each value its position; the erased value is overwritten by the last
-- one.
-- CircularBuffer: include/circular_buffer.h. A ring of a fixed capacity with head, tail and count;
-- the contents are the list read from the head on. `rotate` moves the two ends.
-- SegmentTree: include/segment_tree.h. A heap of combined values over an array, with an operation
-- of the caller; `update` climbs to the root, `query` goes up from both ends of a range.
-- RoundRobinQueue: include/round_robin_queue.h. A vector and the index of the current element; the
-- order in which `next` gives the elements is the list from that index on, and round.
-- FastDsu: the class FastDSU of include/disjoint_set_union.h, a union-find over the numbers below
-- a bound, and the functions kruskalMST, hasCycle and countConnectedComponents of namespace
-- DSUApplications.
-- Dsu: the class DisjointSetUnion of the same header, over keys of any type, with its maps as
-- lists of pairs; it shares the strategy type of FastDsu.
-- IdAllocator: include/IDAllocator.h. Ids of a range, freed ones first and then in sequence,
-- single or in blocks.
-- SlotMap: include/slot_map_new.h. Values in slots; a key carries the generation of its slot, so
-- that erasing makes it stale.
-- SlidingWindow: include/sliding_window_minmax.h. The window and the deque of candidates for its
-- extreme; SlidingWindow/Min and SlidingWindow/Max are the two classes for the minimum and the
-- maximum.
-- Undo: include/undo.h. The two stacks of UndoManager over commands of any type, and the value and
-- the container whose changes are commands.
-- History: include/history.h. The vector of the versions of a value.
-- IntervalCounter: include/interval_counter.h. Buckets of events by their rounded time; each
-- operation first drops those that have left the window.
-- IdPool: include/id_pool.h. Handles of an index and a generation, with the stack of free indices;
-- IdPool/Live says how the pool agrees with the ids that are handed out.
-- FenwickTree: include/fenwick_tree.h. The tree of partial sums over an array: `update` adds up
-- the tree, `query` takes the difference of two sums of prefixes.
-- SortedVectorMap: include/sorted_vector_map.h. A vector of entries in the order of their keys,
-- searched by bisection.
-- SortedList: include/sorted_list_bisect.h. A vector in ascending order in which equal elements
-- may repeat.
-- Linked: a list of nodes and a map from keys to nodes, the state that the next four headers
-- share; an iterator is the address of a node. Linked/Nodes says when the two agree, Linked/Laws,
-- Linked/Ends, Linked/Moves, Linked/Writes and Linked/Hints what each step does to the elements.
-- BoundedSet: include/bounded_set.h. A set that evicts its oldest element when it is over its
-- capacity.
-- OrderedSet: include/ordered_set.h. A set in the order of insertion, with copies and merges.
-- InsertionOrderedMap: include/InsertionOrderedMap.h. A map in the order of insertion, whose
-- entries can be moved to either end.
-- LruCache: include/lru_cache.h. The entries from the most to the least recently used, with
-- statistics and the calls of the eviction callback, and CachedFunction over it.
-- BitQueue: include/bit_queue.h. Bits packed into bytes, pushed and popped singly or as the bits
-- of a number.
-- CountingBloomFilter: include/counting_bloom_filter.h. Counters at the places that the hash
-- functions give an item.
-- Base: what the parts share: conditionals and tests on numbers (Base/Tests), vectors as lists
-- (Base/Lists, Base/Cuts), positions that go round at a capacity (Base/Mod), exceptions
-- (Base/Outcomes), sets and queues of numbers (Base/NatSet), strict weak orders and bisection
-- (Base/Orders), bitwise operations (Base/Digits).
--
-- How the code is read. A class is a record with the fields of the class; a member function takes
-- the record and gives the new one with its result. Function names are the code's, in lower case
-- with underscores: `unionSets` is `union_sets`, `emplace` is `place` and `insert`. A function
-- that may throw gives an Outcome. A vector is a list, and a stack a list whose head is the top.
-- Unsigned arithmetic that can wrap is written modulo the width of its type: 2^32 in SparseSet,
-- the 64 bits of size_t where CircularBuffer counts, LruCache keeps its statistics and BitQueue
-- its numbers, 2^64 for the total of IntervalCounter, the highest value of the counter type and
-- one in CountingBloomFilter, 2^32 for the generations of IdPool, 2^64 and 2^32 in FenwickTree for
-- sums and for indices, 2^w for the id type in IdAllocator. The int count of a bucket of
-- IntervalCounter stays below 2^31: where it would overflow, which is undefined, the result is
-- `none`, as it is where the code reads or writes an element of an empty container. Elsewhere
-- counts are natural numbers: lengths of vectors in memory, or numbers of elements that are in
-- memory.
--
-- Loops and recursion. `find` of FastDsu has one round more than there are elements as its fuel,
-- since sizes grow along a path; the loops of SegmentTree have the index they start at, which is
-- halved in each round; the search of `allocate` has one round more than the id type has values,
-- and gives a result of its own when it would go on, which a valid allocator never meets when its
-- highest id is below the highest value of the type. `find` of Dsu has two rounds more than the
-- map has keys, and the loop with an iterator of CircularBuffer any number of rounds that is at
-- least the number of elements. `update` of FenwickTree has as many rounds as there are values and
-- `prefixSum` one more than its index, since the index grows or shrinks in each; a tree of fewer
-- than 2^30 values keeps `i` inside an int. The loop of `shrink_to_fit` and `reserve` of
-- BoundedSet has the size as its rounds. All other loops are recursions on a list or a count.
--
-- Parameters. The order of SortedVectorMap and SortedList is a strict weak order, and the key
-- equality of the linked containers an equivalence; std::lower_bound and std::upper_bound are read
-- as the partition points they give on an ordered range. The hash functions of CountingBloomFilter
-- and the highest value of its counters, and the function of CachedFunction, are arguments. The
-- operation of SegmentTree, the comparison of SlidingWindow, the equality of elements in
-- RoundRobinQueue, SlidingWindow and UndoableValue, the commands of UndoManager and the state that
-- a move leaves an object in belong to the caller or to the element type; their laws are
-- hypotheses of the theorems that need them.
--
-- What is not modelled. The sizes that the constructor of CountingBloomFilter works out in
-- floating point, copies and swaps of InsertionOrderedMap, the locks of LruCache and values that
-- can only be moved. Capacity of vectors, iterators as objects but for those of CircularBuffer,
-- moves and destructors where they change no value, and printing. The other headers of include/
-- are outside this library, those about threads, clocks, random engines or C++ types alone among
-- them.
pub mod Base
pub mod BitQueue
pub mod BoundedSet
pub mod CircularBuffer
pub mod CountingBloomFilter
pub mod Dsu
pub mod FastDsu
pub mod FenwickTree
pub mod History
pub mod IdAllocator
pub mod IdPool
pub mod InsertionOrderedMap
pub mod IntervalCounter
pub mod Linked
pub mod LruCache
pub mod OrderedSet
pub mod RoundRobinQueue
pub mod SegmentTree
pub mod SlidingWindow
pub mod SlotMap
pub mod SortedList
pub mod SortedVectorMap
pub mod SparseSet
pub mod Undo
