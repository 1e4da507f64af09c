-- ===== src/Lib.antt =====
-- A model of the malloc library and of the parts of its test driver that keep state, with their
-- correctness theorems.
--
-- The program. mm.c is an allocator of segregated free lists over a heap that memlib.c simulates:
-- mem_sbrk moves the end of the heap, and mm.c reads and writes words of it through pointers. The
-- driver mdriver.c replays traces of requests and keeps the live payload ranges in the splay tree
-- of stree.c.
--
-- The files, and what each models:
--   Base, Base/Word, Base/Lists  shared names, Boolean tests, 64-bit arithmetic, lists.
--   Memory, Memory/*             byte-addressed memory and little-endian integers in it.
--   MemLib, MemLib/Break         memlib.c: the private variables (Region), mem_init, mem_sbrk.
--   Machine, Machine/*           the globals of memlib.c and mm.c together, and the commands on
--                                them: load and store of words, mem_read and mem_write of
--                                memlib.c (the direct access of dense mode), sbrk.
--   MemLib/Sparse, and below     memlib.c: the sparse emulation: get_mem and the branches of
--                                mem_read and mem_write that use it.
--   MemLib/Copy, MemLib/Copy/*   memlib.c: mem_memcpy and mem_memset.
--   Mm/Header, Mm/Header/*       mm.c: pack and extract_*, round_up, max, findIndex, and the
--                                adjusted size of malloc.
--   Mm/Blocks, Mm/Blocks/*       mm.c: the block accessors, write_block, find_next, find_prev.
--   Mm/FreeList, Mm/FreeList/*   mm.c: addToFree, removeFromFree, shiftHelper.
--   Mm/Fit, Mm/Fit/*             mm.c: find_fit.
--   Mm/Coalesce, Mm/Coalesce/*   mm.c: coalesce_block and extend_heap.
--   Mm/Alloc, Mm/Alloc/*         mm.c: mm_init, malloc, free, realloc, calloc, split_block.
--   Mm/Check, Mm/Check/*         mm.c: mm_checkheap.
--   Stree, Stree/*               stree.c: the splay tree.
--   Naive, Naive/*               mm-naive.c: the allocator that only extends the heap.
--   Driver/Ranges, and below     mdriver.c: the set of live ranges, add_range and remove_range.
--   Driver/Payload, and below    mdriver.c: randomize_block and check_index.
--   Driver/Replay, and below     mdriver.c: eval_mm_valid.
--   Driver/Usage                 mdriver.c: eval_mm_util.
--   Driver/Speed, and below      mdriver.c: eval_mm_speed, eval_libc_valid, eval_libc_speed.
--   Driver/Trace, and below      mdriver.c: read_trace.
--   Driver/Tokens, and below     mdriver.c: cparse and lookup_ref_throughput.
--   Driver/Suite, and below      mdriver.c: run_tests, and main's report after the option -c.
--   Fcyc, Fcyc/*                 fcyc.c: the sampler and the loops of fcyc and fsec.
--   Tests, Tests/*               runs at concrete inputs and instances of the theorems.
--
-- The state. A pointer is its address. A command of Machine takes the machine and ends in a value
-- and a new machine, in a fault, or with its fuel used up; an access that does not lie between the
-- start of the heap and its break is a fault, which is stricter than the hardware and is what the
-- driver's sanitizer builds check. Pointer sums are not reduced modulo 2 ^ 64: a sum beyond the
-- break faults; the end of a payload in add_range is reduced, since it is only compared. Arithmetic of size_t wraps. A block is the address of its header.
--
-- Bounds and fuel. The walks over free lists (shiftHelper and the inner loop of find_fit) take
-- fuel, an argument of every operation that reaches them; the theorems ask for more fuel than the
-- list has blocks, which a machine with bounded memory can always be given. mem_memcpy and
-- mem_memset take a round for each byte, more than they use.
--
-- mm_checkheap takes fuel for its walk over the blocks, and the sampling loop of fcyc for its
-- rounds, of which it needs no more than maxsamples; fsec takes it for that loop and for the one that
-- doubles the repetitions, and needs more than the number of the round in which they suffice. The loop of read_trace takes a round for each
-- word of the file, and cparse two rounds more than its line has characters.
--
-- Parameters. Whether the C library's sbrk grants a call is the field os_grants of Region, a
-- function of the number of the call. The driver's replays take the allocator as a record of its
-- five entry points, and the answers of the C library's malloc and random as functions of the
-- number of the request. The sampler of fcyc.c takes the comparisons of timings, which are doubles
-- in the code, and the readings of the clock. read_trace takes the words of the file with the number
-- that each stands for, and lookup_ref_throughput takes its two files as lists of lines.
--
-- Not modelled: the printing of messages, the debug macros (they generate no code without DEBUG),
-- the clocks, the timeout, the scoring and the command line of the driver, and the allocation of memory for the driver's
-- own nodes, which ends the process when it fails.
pub mod Base
pub mod Memory
pub mod MemLib
pub mod Machine
pub mod Mm
pub mod Stree
pub mod Naive
pub mod Driver
pub mod Fcyc
pub mod Tests
