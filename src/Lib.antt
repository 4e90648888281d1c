-- ===== src/Lib.antt =====
-- Let us Connect, an HTTP server in C: its data structures, its request parser, its responses, its
-- handler of files, its threads, its server loop and its start.
--
-- How the parts work together. main (webserver_project/main.c) opens the logger, makes the pool of
-- threads, the routes and the socket, and runs the server loop
-- (webserver_project/src/network/network.c). The loop hands a new or ready connection to a worker of
-- the thread pool (network/thread_pool.c), which reads the request and gives it to the parser
-- (parser/http_parser.c). The parser fills three dictionaries
-- (DataStructures/Dictionary), each a search tree of entries (DataStructures/Trees) with a linked
-- list of its keys (DataStructures/Lists). The handler (handler/http_handler.c) reads the
-- dictionaries, looks for the file and answers through the send functions of network.c.
--
-- What models what:
--   Base        numbers, lists, byte strings and `Outcome`, the result of code that may read through
--               NULL or past a buffer (`fault`)
--   LinkedList  DataStructures/Lists/LinkedList.c with Common/Node.c: a chain of nodes is the list of
--               their data, `length` is the C int; the sort (LinkedList/Sort) is that of the chain
--               which the first element's data heads when it is read as a node, a parameter
--   Queue       DataStructures/Lists/Queue.c over LinkedList
--   Tree        DataStructures/Trees/BinarySearchTree.c: nodes owned by their parents, so a value
--   CString     the functions of the C library that the program calls: strcmp, strstr, strtok_r,
--               snprintf and others, on strings with no NUL
--   Dictionary  DataStructures/Dictionary/Dictionary.c and Entry.c
--   Parser      webserver_project/src/parser/http_parser.c, one function for one function; a loop
--               over tokens is fuelled by the length of its text, which is enough since every
--               token takes at least a byte (Parser/Loop)
--   Response    the send_ functions of network.c: the buffers that they hand to send_all
--   Handler     handler/http_handler.c: the file system (stat, open) and the peer's address are the
--               record `System`; what the handler does to the outside is the list of its actions; a
--               GET of a file whose size is 0 or no positive int is a `fault`
--   Fifo        webserver_project/src/network/fifo_queue.c on a heap of nodes, with malloc and free
--   Connections the table of connections in network.c: the slot of an accepted client, the time-out,
--               and the read of a worker (network/thread_pool.c) into a slot
--   Worker      what a thread does with one task (_thread_task of network/thread_pool.c between its
--               two locked sections): `work` from the recv to the end of the connection
--   Pool        the thread pool (network/thread_pool.c): each section under `pool_lock` is one
--               function, its queue the list that Fifo implements; Pool/System has the owner and the
--               threads as steps in any order, a wait at the semaphore as a step that needs a signal;
--               Pool/Handshake the start of the threads, Pool/Destroy the three ways to end them;
--               Pool/OnHeap the same calls with the queue on the heap; Pool/Resources what the start
--               takes from the system and the end gives back
--   Server      the server loop of network.c (Server/Rounds has it as a sequence of rounds) and
--               network_init; Server/Exclusive has its steps and those of the threads in any order,
--               where a thread's work on its slot is one step: the slot is busy meanwhile, and the
--               loop leaves busy slots alone; Server/Threads has the loop, the pool and its threads
--               together, their tasks going through the queue of the pool, which main makes of static
--               size
--   Program     webserver_project/main.c, from its arguments to its exit status, or to its loop as
--               long as no select fails but for a signal
--   Transfer    send_all and send_file of network.c over the list of what the calls return; when the
--               list is used up, the loop is still running
--   Logger      webserver_project/src/logger/logger.c, one call at a time, with a text for each
--               path
--
-- What is outside of the program, and so a parameter: the clock; what recv, send, accept, select,
-- the socket calls, sem_open and pthread_mutex_init return; the file system.
--
-- Not modelled: failure of malloc and of pthread_create; what a thread that is cancelled leaves
-- undone in its work (it stops at the semaphore, or may stop in the work, where it holds no lock of
-- the pool); the results of send_all, write and mkdir, which the handler ignores; setup_signals; what the
-- program prints; the tests for a NULL queue in fifo_queue.c. The loops of the pool and the server
-- are step relations, so they have no fuel; the binary search has one round more than the length,
-- since each round checks less.
--
-- A `compare` function is a parameter of the tree; its laws (Tree/Order) are proved of
-- compare_string_keys. Text is a list of bytes, its literals written by `codes`.
pub mod Base
pub mod LinkedList
pub mod Queue
pub mod Tree
pub mod CString
pub mod Dictionary
pub mod Parser
pub mod Response
pub mod Handler
pub mod Fifo
pub mod Pool
pub mod Connections
pub mod Logger
pub mod Transfer
pub mod Worker
pub mod Server
pub mod Program
