-- ===== src/Lib.antt =====
-- The message broker of projeto-so-2022-23: the file system that it keeps its boxes in, the list of
-- boxes, the queue of requests, and the four programs: the broker, and its clients, a manager, a
-- publisher and a subscriber, which exchange requests of a fixed layout over named pipes.
--
-- The parts of the program, and the files that model them:
--
-- projeto-so-2022-23/fs/state.c and projeto-so-2022-23/fs/operations.c (with state.h, operations.h and
--   config.h there) are the file system: Fs.antt.
--   The static variables are the record `Fs` of Fs/State/Types.antt. A function of the source is a
--   definition of the same name: it takes the state, and returns a value and the new state, or stops at a
--   failed ALWAYS_ASSERT (`panic`) or at a memcpy outside the memory allocated for fs_data or outside the
--   caller's buffer (`bad_access`).
--   Fs/State/Tables.antt has the inode table, the data blocks and the open file table, Fs/State/Dir.antt
--   the directory functions, Fs/State/Setup.antt state_init and state_destroy, Fs/State/Memory.antt the
--   bytes of fs_data and what the program uses of the C library on them. Fs/Ops/ has the operations of
--   operations.c, the calls that take and release the mutex included. An `int` is an integer ℤ, a
--   size_t a natural number with its wrap-around written out, and a directory entry is its 44 bytes in
--   fs_data. Since tfs_open, tfs_close, tfs_write, tfs_read and tfs_unlink hold g_library_mutex from
--   their first line to their last, such calls from several threads run one after the other, and a
--   sequence of calls is what has to be looked at.
--   What malloc returns, and what the two calls of the pthread library return, are arguments.
--   Fs/Valid.antt states which states are well-formed, Fs/Valid/ is about the changes of one part
--   of the state, and Fs/Safe/ about whole operations.
--   Fs/Names.antt looks at the root directory as a map from names to inumbers, Fs/Content.antt at a
--   file as a list of bytes; both say what the operations do to these. Fs/View.antt puts the two
--   together: the map from names to bytes, the steps that are allowed on it, and in Fs/View/Refine.antt
--   the operations as such steps. Fs/Trace.antt has the sequences of calls of several clients, and
--   Fs/Trace/ what they do to the map and to the blocks: Fs/Valid/Tight.antt says that no block is lost.
--   Fs/Names/Reopen.antt is about a file from its creation to the time when it is read again.
--   Fs/View/Fresh.antt is about the file system when it is new.
--
-- projeto-so-2022-23/utils/utility_funcs.c (with utility_funcs.h) has the sorted list of boxes:
--   Boxes.antt. The heap maps pointers to nodes; 0 is NULL. Loops take fuel, one unit for each round: a
--   loop over the list needs its length, that of find_box one more for the last test. Boxes/Sort.antt
--   compares lists that insertion_sort has built with a reference on lists of names, and Boxes/Bag.antt
--   with the bag of their names, in which they have no order.
--
-- projeto-so-2022-23/producer-consumer/producer-consumer.c is the queue of requests: Queue.antt.
--
-- projeto-so-2022-23/utils/utility_funcs.h and newRequest of utility_funcs.c are the requests: Wire.antt.
--   An array of char is the list of its bytes.
--
-- projeto-so-2022-23/mbroker/mbroker.c is the broker: Broker.antt has its state (the file system, the
--   boxes, `head` and `server_running`), Broker/Sessions.antt codeR_PUB and codeR_SUB,
--   Broker/Requests.antt codeC_BOX, codeR_BOX and codeL_BOX, Broker/Serve.antt selector and main. The
--   handlers call the operations of Fs/ and the functions of Boxes.antt. A long function of the source
--   is cut into definitions, each of which ends by calling the next one. Broker/Calls.antt is about the
--   calls that are made, Broker/Quiet.antt about one request, Broker/Publish.antt about a publisher's
--   session, and Broker/Ends.antt about main.
--
-- projeto-so-2022-23/manager/manager.c, publisher/pub.c and subscriber/sub.c are the clients, in
--   Clients/Manager.antt, Clients/Publisher.antt and Clients/Subscriber.antt; Clients.antt has
--   send_request of utility_funcs.c. Clients/Calls.antt is about the clients up to their request,
--   Clients/Listing.antt, Answers.antt, Messages.antt and Counting.antt about what follows it.
--
-- Process.antt has what the four programs share. A program keeps its variables and the list of its
--   calls of the operating system, and ends with a value or stops at a fault (an access through NULL or
--   outside an array, an int that overflows, a fault of the file system, exit with EXIT_FAILURE). What a
--   call returns, errno, what a read puts into its buffer, malloc, the content of an array that is not
--   initialised, and whether SIGINT has come, are functions of the calls made so far, in a record of type
--   `Env` which is a parameter; a theorem holds for every such record unless it says otherwise. Loops take `fuel` of
--   that record, one unit for each round: the theorems that say that a program ends show how much is
--   enough. exit(EXIT_SUCCESS) is the value 0 of main.
--
-- projeto-so-2022-23/utils/logging.c, logging.h and betterassert.h are the macros that print to stderr:
--   Logging.antt, with `g_level` and the printed texts as the state. What a format and its arguments give
--   is an argument. The models of the other parts leave out what is printed, and have PANIC and ERROR as
--   the end of the program.
--
-- Common.antt has what all of these use: tests on numbers, lists, C integers, and the search loop
--   `first_index` with its lemmas, which is every loop of state.c that looks for an index.
--
-- Not modelled: insert_delay and touch_all_memory, which do not change the state; reads by strcmp
-- past the end of fs_data; a fault of an access to the inode table, the block map, the open file table
-- or a directory entry (outside its allocation a table is a function like inside it, and the tests of
-- state.c on the indices are modelled); the allocation of the six tables one by one (one field,
-- `allocated`, says for which parameters they were allocated); of the four programs, what they print to
-- stderr, the notices that they print to stdout, the format of the rest, the line that the publisher
-- reads and does not use, the elements of the queue that the broker creates and does not use, and a
-- string that runs past the end of its array, which is cut there; tests/test.c, which prints the layout
-- of a request (all under projeto-so-2022-23).
pub mod Common
pub mod Fs
pub mod Boxes
pub mod Queue
pub mod Wire
pub mod Process
pub mod Broker
pub mod Clients
pub mod Logging
