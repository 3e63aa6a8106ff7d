-- ===== src/Lib.antt =====
-- Models of the C and C++ programs of this repository, which were written for courses, each a program or a
-- file of functions of its own: data structures in sem_3/ial, a sieve and a decoder in sem_2/ijc/proj_1, a
-- table of words, a counter and tail in sem_2/ijc/proj_2, processes with semaphores in sem_2/ios/proj_2, a stream
-- editor with threads in sem_3/ips/proj_1, an allocator in sem_3/ips/proj_2, a DHCPv6 relay in sem_5/isa/proj,
-- and a packet sniffer in sem_6/ipk/proj2. The counter uses the table and the decoder the sieve; else the programs
-- do not call one another. What they share is the library; its `malloc` is a parameter wherever a program
-- calls it: it may fail, and what it returns is NULL or an address that is not in use. `mmap`, `strtol`,
-- `isspace`, `isprint`, `inet_ntop`, std::regex_replace, the content of files and the comparison with `sqrt` are
-- parameters too.
--
-- The files, and what they model:
-- - Base: shared names; Base/Tests: Boolean tests and the conditional; Base/Lists: lists by native
--   numbers; Base/Int: `int` and `char` values as integers; Base/Family: sums over the processes of a
--   program; Base/Steps: what holds after a step of one.
-- - Memory: a heap of blocks of one type, and commands on it with three outcomes: done, undefined
--   (a read or a write through NULL or to a block that is not allocated), and out of fuel.
--   Memory/Cells: lists of elements with their addresses; Memory/Returns: total correctness of a
--   command; Memory/Pool: a `malloc` to run.
-- - ListView: the list with a cursor that c201.h and c206.h promise, as data; ListView/Client:
--   sequences of calls.
-- - SinglyLinked: sem_3/ial/proj_1/c201/c201.c. The operations keep their names: InsertFirst is
--   insert_first. Its children hold the representation (Chain) and the theorems (Insert, Delete,
--   Cursor, Dispose, Run).
-- - DoublyLinked: sem_3/ial/proj_1/c206/c206.c, without the prefix DL: DLPreInsert is pre_insert.
--   Its children are built alike.
-- - RingQueue: sem_3/ial/proj_1/c203/c203.c. QUEUE_SIZE is a parameter; the messages that
--   queueError prints are kept by their index. RingQueue/Ring: positions on the ring;
--   RingQueue/Refine: the bounded queue.
-- - HashTable: sem_3/ial/proj_2/c016/c016.c, over `HTSIZE` and the type of the data. A chain is a
--   list of items with their addresses; a `char` may be negative, and an index outside the table
--   is undefined. HashTable/Chain: one chain; HashTable/Lookup: the table as a map; HashTable/Clear: htInit and
--   htClearAll.
-- - LinkedTable: sem_2/ijc/proj_2/htab.h and htab_*.c, on the chains of HashTable; numbers wrap
--   around at 32 and 64 bits as their types do. LinkedTable/Count: the table as a map to counts;
--   LinkedTable/Remove and Clear: htab_remove and htab_clear; LinkedTable/Move: htab_move on a heap of items,
--   with Placed, Heads and Loop for one chain, the first items, and all slots; and htab_free.
-- - TreeTraversal: sem_3/ial/proj_2/c402/c402.c. The machine holds the two stacks, each an array
--   with its top, and the events: what BTWorkOut prints, the messages of the stacks, and the
--   addresses freed. An access outside an array is undefined. TreeTraversal/Stacks: the stacks as
--   lists; TreeTraversal/Spine: what a traversal pushes; then a file for each function, against
--   its recursive definition.
-- - SearchTree: sem_3/ial/proj_2/c401/c401.c. A tree is a value whose nodes carry their addresses,
--   and a function returns what it leaves at `*RootPtr` with the addresses that it frees.
--   SearchTree/Order: the order of the keys; SearchTree/Memory: the nodes owned and freed.
--
-- - WordCount: get_word of sem_2/ijc/proj_2/io.c and the loop of wordcount.c, over LinkedTable. The input is
--   the list of characters that are left, and a key is what stands in `word` before the first `\0`;
--   WordCount/Words: single words; WordCount/Counts: a whole input;
--   LinkedTable/Answer: the address that htab_lookup_add returns.
-- - Sieve: sem_2/ijc/proj_1/bit_array.h, eratosthenes.c and the loop of primes.c. A word of the array is given
--   by its bits, and a parameter stands for the comparison with `sqrt`; Sieve/Bits: the array by indices;
--   Sieve/Marks: one round of the sieve; Sieve/Primes: all of it; Sieve/Decode: the loop of steg-decode.c;
--   Sieve/Picture: ppm.c; Sieve/Picture/Files: what it writes and reads; Sieve/Steg: main of steg-decode.c;
--   Sieve/Steg/Text: the text that it prints.
-- - Bus: sem_2/ios/proj_2/proj2.c. Each process is a program counter with its live local variables, and a
--   step is one operation on a semaphore or an access to shared memory, loads apart from stores; Bus: the functions `bus` and `rider` as the next
--   step of a process; Bus/System: the processes interleaved in any order, and the invariant; Bus/Weights:
--   what a process holds; Bus/Riders and Bus/Driver: one step of a rider
--   and of the bus; Bus/Invariant: all steps; Bus/Safety and Bus/Progress: what follows; Bus/Schedule: runs;
--   Bus/Arguments: get_arg and random_number; Bus/Resources: set_resources and clean_resources, on the answers
--   of the system; Bus/Resources/Left: what they leave behind.
-- - Allocator: sem_3/ips/proj_2/mmal.c. Headers and arenas are cells at addresses; a failed assertion is
--   undefined. Allocator/Blocks: the functions on headers; Allocator/Program: arenas, the search, mmalloc,
--   mfree, mrealloc; Allocator/Ring and Allocator/Layout: the ring as a list of blocks that do not overlap;
--   Allocator/Taken and Resize: a block that is taken, and mrealloc; Allocator/Merge, Previous, Fit, Before, Free, Pages: a file for each function or two.
-- - Psed: sem_3/ips/proj_1/psed.c. Its threads and `main` are program counters with their live local variables,
--   and a step is one operation on a mutex or an access to shared memory; Psed/System: them interleaved in any
--   order; Psed/Output: what is to be printed; Psed/Thread: a thread at each stage; Psed/Round: `main` at each
--   stage; Psed/Invariant, Driver and Runs: all steps; Psed/Safety: what follows; Psed/Arguments: the command line.
-- - Tail: the command line of sem_2/ijc/proj_2/tail.c and tail2.cc, and all of tail2.cc; Tail/Last: its output;
--   Tail/Buffer: read_and_write of tail.c; Tail/Buffer/Lines: a line in a row of the buffer; Tail/Rows: what
--   tail.c prints.
-- - D6r: sem_5/isa/proj/d6r.cpp. A message is a list of bytes, and a pointer into one is the list from there on;
--   D6r/Options: the loops over options; D6r/Server: process_msg_from_server, with what it sends and what it writes with
--   the options -d and -l; D6r/Headers:
--   get_udph_from_ipv6h; D6r/Client: handle_packet_from_client; D6r/Start: options and interfaces;
--   D6r/Wire: parts of messages; D6r/Scan: the options as a list; D6r/Reply, Forward, ReadBack, Answer, Log and Ends: a
--   file for each of what follows.
-- - Sniffer: sem_6/ipk/proj2/ipk-sniffer.cpp and ipk-sniffer.h, with the pointers of D6r: options, filter and
--   print_packet_content; Sniffer/Packet: packet_handler; Sniffer/Options and Sniffer/Content: what follows.
--
-- Bounds: the sum of a key's characters in hashCode is taken not to leave `int`. Values are
-- integers without bounds where the code only stores and compares them. The loops that dispose of
-- a list or walk through a tree run on fuel, one unit for each round, and the theorems show how
-- much is enough. The hypotheses on the walks ask for trees at most 29 high, since index 0 of the
-- stacks of 30 is not used; all else is structural recursion.
--
-- The riders and the seats of the bus are any numbers, and the numbers on the output are not bounded by
-- `int`. A rider exists from the start and may wait any time before its first step, which covers the sleeps of
-- the generator; all other sleeps are waits between two steps. In the allocator `size_t` has 64 bits and
-- wraps around, addresses do not, and the content of the blocks is left out. Its loops run on fuel, one unit
-- for each block of the ring. Where the inner loop of htab_move ends, one unit is enough. The loops of the
-- sieve run on one unit more than there are bits, and the products in them are taken not to overflow; the loop over the words runs on one unit more than there are words.
-- In tail.c `i` is an `int`: a run in which it would overflow has no result. The buffer of tail.c is taken to
-- fit on the stack.
--
-- The number of threads of psed is any number, and a busy wait is any number of its rounds. The loops of the
-- relay over options run on one unit more than there are bytes, and that over headers on 1002 units. A read
-- past the end of a message or of what was captured is a fault, as is a write past the end of a name.
--
-- Not modelled: the text of messages, except as said above, the test programs, error.c, failures of fork,
-- sockets and capture, the programs in other languages, and the generated files.
pub mod Allocator
pub mod Base
pub mod Bus
pub mod D6r
pub mod DoublyLinked
pub mod HashTable
pub mod LinkedTable
pub mod ListView
pub mod Memory
pub mod Psed
pub mod RingQueue
pub mod SearchTree
pub mod Sieve
pub mod SinglyLinked
pub mod Sniffer
pub mod Tail
pub mod TreeTraversal
pub mod WordCount
