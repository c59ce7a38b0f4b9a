-- ===== src/Lib.antt =====
-- The data structures of the course repository demo_class (01DataStruct), and those of its system and
-- network programs (02App_Devel, 03NetPro_thread) that have logic of their own, modelled from their C
-- source, and proofs of what they do.
--
-- Parts, and the file that models each:
-- Common: what the modules share: the library's names, lists, the order that a `cmp` callback
--   gives, and C's integers ℤ over the native ℕ.
-- CInt: the int operations of C. An operation whose result does not fit 32 bits, or a division by 0,
--   has no result (`none`), since C leaves it undefined.
-- Calc: 01DataStruct/03Calc/calc.c. `num_handle`, `opr_handle`, `bracket_handle`, `do_stack` and
--   `calc_main` keep their names; the loops of the source are `opr_loop`, `bracket_loop`, `scan` and
--   `finish_loop`. The two stacks are lists; module Stack shows that stack.c behaves as such a list.
-- Links: 01DataStruct/04Kernel_list/list.h, links by address in a memory of `next` and `prev`;
--   `list_insert` is `__list_add`.
-- DList: 01DataStruct/02Dlist/stack/dlist.c over the same links, with the data and the allocation of
--   each node; `malloc` is the address that an operation is given, 0 for NULL.
-- Stack: 01DataStruct/02Dlist/stack/stack.c and 01DataStruct/06Btree/queue.c over DList.
-- BTree: 01DataStruct/06Btree/btree.c on trees as values, the walks with a stack or a queue included,
--   without btree_del.
-- Sort: 01DataStruct/07Sort/sort_arrary.c; an array is what stands at each index.
-- HashTable: 01DataStruct/05HashTable/hashtable.c over Links; the static `cur` of `hash_find` is an
--   argument and a result.
-- SList: 01DataStruct/01Slist/01head_loop_slist.c, the circular singly linked list, on a heap of
--   nodes.
-- NullList: 01DataStruct/01Slist/02head_noloop_slist.c, the one that ends in NULL, on the same
--   heap.
-- ListSort: 01DataStruct/07Sort/sort_list.c, sorts that move the links of a list of Links.
-- Huff: 01DataStruct/08Huffman/huff.c, the tree of codes, and Archive the compressed file; its list
--   is one of Links, sorted by ListSort.
-- Term: 03NetPro_thread/03Termios/term.c, a serial line; Settings has the settings, the rest of the
--   files the reads and writes.
-- ProCon: 03NetPro_thread/05Pthread/06test_pro_con.c, a producer and a consumer as a step relation.
-- FileServer: 03NetPro_thread/06Socket/04File_Server/server.c, the clients of a file server, its
--   requests and its rounds.
-- Joesph: 01DataStruct/04Kernel_list/joesph.c, the counting out in a circle, over Links.
-- TestMutex: 03NetPro_thread/05Pthread/04test_mutex.c, two threads that count, as a step relation.
-- ReadFile: 03NetPro_thread/05Pthread/05test_homework.c, threads that read a file together, as a
--   step relation.
-- AddressList: 01DataStruct/Project/ADDRESS_LIST, an address list, its dialogues, its file and its
--   menu.
-- CString: strings in buffers, strstr and strchr, as the sources use them.
-- PlainList: 01DataStruct/01Slist/03nohead_noloop_slist.c, a list without a head, on the nodes of
--   SList.
-- Semaphore: 02App_Devel/03IPC/05Semaphore/SysV/sem_parent_child.c, a child that waits for its
--   parent, as a step relation.
-- EchoServer: 03NetPro_thread/06Socket/02Tcp_loop/server.c and
--   02App_Devel/03IPC/04MsgQueue/03Project/echo_server/server.c, what they send back.
-- SelectServer: 03NetPro_thread/06Socket/03Tcp_select_enhanced/server.c, clients in the table of
--   FileServer that get their text back in capitals.
-- Behaviour: what a run of code comes to, where C can leave it undefined.
--
-- Fuel: a loop of the source that no argument bounds runs on fuel. `opr_loop`, `bracket_loop` and
-- `finish_loop` get one round more than there are operators, since each round takes one off; the walks
-- of BTree get two or three rounds a node. The theorems say that this is enough, or, for the bracket
-- loop, that no fuel is. Walks over lists take any fuel above the length.
--
-- The list of 08Huffman holds 256 nodes at most and its tree 511, so 600 rounds are enough there. The calls
-- on the serial line get rounds for the bytes and, each of them, for the interrupts that are pending. The
-- passes of `joesph_loop` get more rounds than `step` times one more than the links, since its count
-- stays below that; a `read` of the servers gets more rounds than it is interrupted.
--
-- Interaction: DList, HashTable, ListSort, Huff and Joesph keep their lists by the operations of Links, and
-- use its lemmas on rings; Stack stands on DList. SelectServer shares the table of clients with
-- FileServer, and `toupper` with EchoServer. Threads and processes (ProCon, TestMutex, ReadFile,
-- Semaphore) are step relations, whose runs are all orders of their steps.
--
-- Not modelled: printing and the failure messages, opening and closing of files, `malloc` itself, the
-- wrappers that only fill a table of function pointers, the rest of 02App_Devel and of
-- 03NetPro_thread, which are sequences of system calls, and the chat room, whose copies between buffers
-- are undefined on ordinary runs. `btree_del` works on parent pointers, which trees as values do not have.
pub mod AddressList
pub mod BTree
pub mod Behaviour
pub mod CInt
pub mod CString
pub mod Calc
pub mod Common
pub mod DList
pub mod EchoServer
pub mod FileServer
pub mod HashTable
pub mod Huff
pub mod Joesph
pub mod Links
pub mod ListSort
pub mod NullList
pub mod PlainList
pub mod ProCon
pub mod ReadFile
pub mod SList
pub mod SelectServer
pub mod Semaphore
pub mod Sort
pub mod Stack
pub mod Term
pub mod TestMutex
