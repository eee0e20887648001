-- ===== src/Lib.antt =====
-- Gloxor is a small kernel (kernel/) and the freestanding C++ library that it is built on
-- (libraries/libglox/). This development models parts of both, by hand, from the source.
--
-- Parts. The page allocator of the kernel (kernel/memory/pmm.cpp) keeps the free physical memory in
-- a doubly linked list that lives in the free memory itself (kernel/memory/llallocator.cppm). The
-- library has the types that kernel code returns and stores: result (a value or an error), option,
-- vector, hash_map (over an intrusive singly linked list per bucket), the formatting of numbers for
-- the logs, red-black trees and the map on them, linked lists, algorithms on ranges of memory, and integer
-- helpers. The terminal of the kernel (kernel/system/terminal.cpp) draws text into a frame buffer, and its
-- page tables map addresses.
--
-- Base: the shared names; lists and tests on the native numbers, and bit masks.
-- Math: math.hpp. Both overloads of next_pow2 are one function of the width; the count of leading
--   zeros is a builtin of the compiler, hence a parameter that meets `IsClz`.
-- Pmm: pmm.cpp and llallocator.cppm. `Pmm` is the state (`pmmCtx`, `memorySize` and the memory that
--   holds the nodes), and there is one function per function of the source, with the two halves of
--   `insert_chunk` apart. A step through a null pointer is `null_deref`, a failed assertion
--   `assert_failed`. Pmm/Spec is the abstract free list, a sequence of ranges, and Pmm/Chain says
--   which memory represents which sequence (`IsValid`). The list walks run on fuel, one unit for each
--   node: more than the number of free chunks is enough, and the theorems ask for no more.
-- Union, Result: result.hpp. A union is a slot that is dead or holds one member; `misuse` is a use
--   of a member at the wrong time. Result/Ref is the specialisation for references.
-- HashMap: hash_map.hpp and intrusive_fwd_list.hpp. A chain is the list of its pairs. Hash, key
--   equality and whether assertions are compiled in are parameters. HashMap/Grow has the invariant
--   (`IsValid`), HashMap/Map the operations as those of a finite map.
-- Opt: option<T> of option.hpp, over the same storage as Result.
-- Vector: vector.hpp over an allocator that is a parameter and may refuse; the elements are a list.
-- Format: format.hpp. The digit loops run on the 64 bytes of their buffer as fuel: a write beyond its
--   end is `none`, and no 64-bit value gets there. The scanner is recursion on the template.
-- Algorithms: utilalgs.hpp and memmove of kernel/string.cpp, on a memory that is a function.
-- Hash: the string hashes of hash.hpp, with the sign of char as a parameter.
-- RbTree: intrusive_rb_tree.hpp. A node pointer is a position, the subtree with the path of its
--   ancestors, so that the parent pointers of the source hold by construction; a step through a null
--   pointer is `none`. RbTree/Shape has the invariant (`Valid`), RbTree/Removal the unlinking,
--   RbTree/Search the descents by key and RbTree/Dict rb_tree_map, whose comparison and allocator are
--   parameters. RbTree/Ends has insert_at and erase of intrusive_rb_tree with the two ends that the
--   sentinel keeps, where an element is the address of its node, RbTree/Iterate the iterators, and
--   RbTree/Loop runs them, and RbTree/Runs has the runs of insertions and erasures (`Reached`). RbTree/Checks has verify, on nodes whose parent pointers may be wrong, and
--   RbTree/Accepts what it accepts. rb_tree_map, which does not read the ends, has a tree of entries
--   without them. Moves and swap are not modelled.
-- Terminal: kernel/system/terminal.cpp on a memory of pixels, with the glyphs as a parameter; the
--   cursor has the wrap-around of u32 written out.
-- Slab: the slab allocator of kernel/memory/alloc.cpp, over the answers of page_alloc; the loop that
--   links the blocks of a page has the size of the page as fuel, and every round goes on by a block.
-- Custom: glox::custom of kernel/memory/alloc.cpp on a memory of bytes, over the answers of memalloc.
-- HeapAlloc: heap_alloc.hpp with its default parameters, for the cache of one thread; blocks that
--   other threads free wait in the header of their page. The loop that carves a page has the size of the
--   page as fuel, and every round goes on by a block. HeapAlloc/Regrow has grow and shrink over an
--   answer of the page allocator.
-- IntrusiveList: intrusive_list.hpp. A node is its address and the links of all nodes are two functions of
--   it. IntrusiveList/Chain says which links represent which sequence (`Represents`), IntrusiveList/Runs
--   has the operations on a sequence. The loops have a unit of fuel for each node and one more.
-- Vmap: the mapped regions of kernel/memory/virtmem.cpp, on IntrusiveList.
-- Paging: kernel/arch/x86/src/paging.cpp with the entries and tables of
--   kernel/arch/x86/interface/asm/paging.cppm on a memory of entries, VSpace of virtmem.cpp, and map_region
--   of kernel/main.cpp. The answers of page_alloc, whose own model is Pmm, kernelMappingOffset and whether assertions are compiled
--   in are parameters. map is in two parts, the way down (`go_down`) and the write of the last entry.
-- Strings: string.hpp over default_allocator of alloc.hpp. A big string is its field `cap`, its size and its
--   block; `none` is a use of memory outside a block. aligned_alloc and CAP_FACTOR are parameters. Insertion,
--   copies, moves and comparisons are left out.
-- The Tests module of each part has concrete runs.
--
-- Not modelled: threads and interrupts (the modelled code takes no locks of its own), allocation
-- failure in hash_map, the other templates of alloc.hpp, and the parts of the repository that are tables, device access or
-- copies of other projects.
pub mod Algorithms
pub mod Base
pub mod Custom
pub mod Format
pub mod Hash
pub mod HashMap
pub mod HeapAlloc
pub mod IntrusiveList
pub mod Math
pub mod Opt
pub mod Paging
pub mod Pmm
pub mod RbTree
pub mod Result
pub mod Slab
pub mod Strings
pub mod Terminal
pub mod Union
pub mod Vector
pub mod Vmap
