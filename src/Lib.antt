-- ===== src/Lib.antt =====
-- Verification of the C and C++ programs of this repository: three network programs over Boost.Asio
-- (MyChat), the containers and sorting routines of MyUtil and Project1, the dialogues built on them,
-- and the smaller programs of both folders: a logger, a text search, and threads that share a screen
-- or a stack.
--
-- Parts, and the files that model them:
--   Base        shared names and lemmas: Boolean tests on native numbers, lists as arrays (a write
--               through a pointer is store_at, none outside), signed integers, and Returns P m, which
--               says that the computation m returns a value with P: neither a fault nor want of fuel.
--   MyList      Project1/MyList.c and MyList.h. Elements live on a heap, a function from addresses; a
--               call of malloc enters as the address it returned, 0 for NULL; list_ins_next, list_rem_next
--               and list_destroy are ins_next, rem_next and destroy. Chain says which cells a list
--               stands for; Insert, Remove and Destroy prove the operations; Show is list_prt and
--               list_info.
--   Containers  Project1/MyStack.c, MyQueue.c, MyEvents.c and their headers, over MyList: stack_push,
--               stack_pop, peek, queue_enqueue, queue_dequeue, receive_event, process_event. Steps treats
--               one call; Service gives a client's view and its runs, with what malloc answers along them;
--               Runs gives the three services, over an Allocator, and what holds of their runs.
--   CirQue      MyUtil/MyCircleQueue.c (initCirQue, insertCirQue, removeCirQue, printCirQue) and the menu of
--               MyUtil/TestCircle.c. Refine relates the ring to a bounded list; Menu runs main, with and
--               without the fields that initCirQue leaves unset.
--   Sort        MyUtil/MySort.c: issort, partition and qksort with their comparison as an argument.
--   MaxHeap     the Heap of Project1/MyTestMain01.cpp and the line loop of its main. Slots, Order, Up and
--               Down carry the proofs of insert and percolateDown; Insert, Delete and Print are the
--               operations; Commands is the line loop, Numbers and Dialogue its proofs.
--   Kmp         Project1/FileTransMain.cpp: trim, getPi, kmp and intslen. Border and Table prove the table of
--               getPi, Naive is the search that tries each position, Search compares them, Count is intslen.
--   Logger      Project1/MLogger.cpp and MLogger.h: MLogMsg on a heap of blocks (Logger), MLog with its
--               stream, queue and thread (Log). Owned and Served follow the blocks of the queued messages,
--               Running any state, Prefixes what is queued.
--   Bounce      Project1/MThread01.c (Faces), Main01.c (Trail) and MThread02.c (Requests), three versions of
--               one program that copy the moves of a face from each other: advance stands for all three.
--               The console is the record Console, with its laws in Screen. Axis and Inside say where a face
--               is, Running what holds in any state, Alone and Trail.Marks what stands on the screen,
--               Requests.Running and Requests.Counted what threadNr counts, Requests.Pending what becomes of a
--               request.
--   LockFree    MyUtil/LockFreeMain.cpp over a stack with the documented behaviour of boost's. Joined is the
--               invariant, Ending the end of the consumer.
--   NamedList   Project1/NamedLinkedList.cpp: its list and its main; Entries is what it prints.
--   Strsep      strsep of MyUtil/MyString.c over a buffer of characters. Pieces cuts a text without a buffer,
--               Tokens proves that the calls of strsep do so.
--   Daytime     Project1/server.cpp: tcp_connection with tcp_server, and udp_server, as steps.
--   IndentStream  the indentbuf of Project1/IndentStream.cpp.
--   WordList    the main of Project1/FileTransMain.cpp over MyList: add, madd, remove and the line
--               loop. Refine is add and madd, Removed is remove, Held any sequence of lines.
--   Chat        MyChat/MyChatMessage.hpp (Message, Header), MyTCPChatSrv01.cpp (Outbox: the write queue of
--               chat_session; Room: chat_room, the sessions and their completion handlers) and
--               MyTCPChatCli01.cpp (Client). The handlers of asio are steps: Step relates a state to the
--               ones in which the next completion can leave it, and Reachable collects their runs.
--               Members, History, Stream and Reach prove the server, Posted the client.
--   Echo        MyChat/MyTCPSrv01.cpp: third_party_lib::session (Session, Buffer), connection (Connection,
--               Serving) and server (Server), with the same kind of steps.
-- WordList and Containers use MyList; Kmp and NamedList use the text tests of MaxHeap.Commands; Chat,
-- Echo, WordList and MaxHeap share the C string functions that Chat.Message and MaxHeap.Commands
-- define from their documentation.
--
-- Bounds and fuel: percolate_down, sift_up, print_values and read_ints take fuel, and the callers give
-- the number of elements or characters, plus one; the theorems on delete_max, insert, print and run
-- show that this is enough. destroy gives its loop the size of the list. Indices, sizes and counters
-- are natural numbers without a bound; the conversions to size_t and the limits of reading an int are
-- written out; SHORT, WORD and signed char keep their wrap-around in Bounce. The bytes of a socket,
-- the order of completions, the lines that a user types, what new memory holds and what malloc returns
-- are arguments.
--
-- Not modelled: Boost, asio, the Windows console and the operating system; failing new; the servers
-- and clients of FileTransMain.cpp, udpclient.c, UDPServer.c and the other small programs of Project1
-- and MyUtil; the code under #if 0 of MyTestMain01.cpp other than the heap. In Bounce a key, a round
-- of a face and each of the two statements behind a met request are one step each, so interleavings
-- inside them are left out, and what the waits for the mutex give is an argument.
pub mod Base
pub mod Bounce
pub mod Chat
pub mod CirQue
pub mod Containers
pub mod Daytime
pub mod Echo
pub mod IndentStream
pub mod Kmp
pub mod LockFree
pub mod Logger
pub mod MaxHeap
pub mod MyList
pub mod NamedList
pub mod Sort
pub mod Strsep
pub mod WordList
