-- ===== src/Lib.antt =====
-- casual, an XATMI and transaction middleware: the transaction manager, the broker, the transactions
-- of a server, and the order and field buffers.
--
-- The transaction manager of a domain coordinates the two-phase commit of distributed
-- transactions. Clients send commit and rollback requests; the manager sends prepare, commit and
-- rollback requests to the instances of resource proxies, which reply; other domains use the
-- manager as a resource of theirs. The manager is one process with one message queue: a message is
-- read, and a handler changes the state and sends messages. What must not be lost is written to a
-- log, and the replies that depend on it wait until the log is committed, once a round.
--
-- Base holds the shared names: Boolean tests on numbers, the range algorithms of
-- middleware/common/include/common/algorithm.h on lists, and integers over the native numbers.
-- Manager holds the model. Paths below are under middleware/transaction:
--   Code      the XA codes of middleware/xatmi/include/xa.h and their ranking by severity;
--   Model     Transaction and Transaction::Resource of include/transaction/manager/state.h;
--   Message   the messages of middleware/common/include/common/message/transaction.h;
--   State     class State of the same header and source/manager/state.cpp, with what has happened
--             as a list of events, the last first;
--   Monad     a handler's run on the state: exceptions leave the state as it was when they were
--             thrown, and an Environment gives the outcome of each push to a queue (delivered,
--             full, gone) and the clock, as functions of what has happened before, and the order
--             in which std::sort leaves resources with the same id;
--   Action    source/manager/action.cpp: requests to instances, and persistent replies;
--   Handle    source/manager/handle.cpp: Send, Instances, Involved, Reply, Connect, User, Domain
--             and Exit each model the handlers that they are named for;
--   Pump      source/manager/manager.cpp: the dispatch, and the rounds of message::pump.
-- Keeps has the rule for events and Keeps.Frame those for communication. Invariant, Decision,
-- Involvement and Requests have the proofs about the handlers, Pump.Rounds and Pump.Replies
-- those about the end of a round, and Tests applies the theorems to the transaction over two
-- resources of Sample.
--
-- The broker of a domain knows the servers, their instances and the services that each instance
-- offers. A caller asks it for a service and gets an idle instance, or waits until an instance
-- acknowledges that it is done. It starts the executables in the order of their groups, restarts
-- those that die, and tells listeners of deaths. Broker holds the model; paths are under
-- middleware/broker:
--   Message   the messages of middleware/common/include/common/message that it reads and sends;
--   State     include/broker/state.h; a reference to an instance or a service is its key;
--   Monad     a handler's run, with the outcomes of sends, the clock and new processes as parameters;
--   Store     the operations of State in source/state.cpp, without connect_broker;
--   Handle    source/handle.cpp: Connect, Service and Dead each model the handlers they tell of;
--   Dispatch  broker::handler, and a run of messages that ends when an exception is thrown;
--   Order     bootOrder and processes.
-- Order.Complete, Exclusive, Served, Listeners and Failures have the proofs: Exclusive.Rules, Connects,
-- Deaths and Lookups take the handlers one after the other, and Bound a whole run. Maps are
-- association lists in the order that the container chooses, names and identifiers are numbers,
-- and the order that stable_sort leaves the groups in is a parameter, since operator < of
-- groups is no strict weak ordering.
--
-- A server takes part in transactions through the context of middleware/common/source/transaction: a
-- stack of transactions, the last of which is current, and the resources that the server is linked
-- to. It begins and ends transactions by the tx interface, suspends and resumes them, joins that of
-- a caller, and ends all of them when a service returns; it asks the transaction manager to commit
-- and roll back. Context holds the model:
--   Code      the codes and flags of middleware/xatmi/include, and xaTotx;
--   State     the data of transaction.h, context.h, resource.h and call/state.h;
--   Monad     a run on the state, with what the resources and the manager answer as parameters;
--   Pending   the descriptors of calls that wait, of middleware/common/source/call/state.cpp;
--   Resources resource.cpp, and what of context.cpp calls the resources;
--   Commit    begin, commit, rollback and what follows them;
--   Stack     settings, suspended and joined transactions, dynamic resources, replies to calls;
--   Finalize  finalize, at the end of a service;
--   Connect   the connect to the manager, before set;
--   Calls     middleware/common/source/call/context.cpp and lookup.cpp: calls and their replies.
-- Adds, Starts, Effects and Commits tell what each of them adds to the events, Lists has the lemmas
-- on the stack, and Suspended, Whole, Refused, Controls and the children of Pending, Finalize and
-- Calls have the proofs. What C++ leaves undefined, to read the last element of an empty vector, is
-- an exception `undefined`; an assertion that fails is the exception `aborted`.
--
-- Ipc has process handles and the outcome of a push. Run is the monad of handlers, with the rules by
-- which an action keeps a predicate on the state in Run.Keeps and Run.Yields; the manager, the broker and the context use it.
--
-- Bytes holds what the memories of buffers have in common. Sizes wrap around at 64 bits, and a long
-- is its 64 bits. The byte order of the C library is a parameter, with the two laws that are relied
-- on; Bytes.Network is an instance. Pool is the pool of
-- middleware/common/include/common/buffer/pool.h, for buffers of any type.
--
-- Order holds the order buffers of middleware/buffer/source/order.cpp, in which a program passes
-- values to a service without names: they are read in the order in which they were written. The
-- transaction manager does not use them.
--   Buffer    class Buffer: append and select of numbers, strings and binaries, clear, reset, copy;
--   Format    what the memory holds, and the states in which a buffer can be;
--   Pool      the operations on handles;
-- Append, Select, Roundtrip, Bounds and Pool.Valid have the proofs, and Tests applies the theorems
-- to network byte order. A capacity is below 2^63, which is the most that a vector of bytes can have.
--
-- Field holds the field buffers of middleware/buffer/source/field.cpp, in which each value stands
-- under the id of a field, as often as it was added.
--   Buffer    class Buffer: the memory, and the index with the offset of each item;
--   Items     what a buffer stands for: a sequence of ids and values, and how it lies in memory;
--   Sequence  the abstract operations on that sequence: add, get, change and delete;
--   Pool      the operations on handles, by which a value is its bytes; an update chooses between
--             the overload for numbers, which writes over the old bytes, and that for data;
-- Places and Memory have the lemmas on the index and on the bytes, Found those on an occurrence
-- that is there, Append, Remove and Update the refinements, Codes what update answers, Traversal
-- the steps of next, Received the index of a memory that was received. The fuel of update_index is
-- one more than the length of the memory, since each round but the last passes 16 bytes at least.
--
-- Vectors are lists, and a reference into a vector is a search for its element: an element that is
-- written through a reference is the first one that passes the search. std::partition promises no
-- order, so the order in which replies are tried at the end of a round is a parameter. The order of
-- a transaction's resources after a sort is by id, and a parameter where ids are the same; that
-- after a partition is one that the library may choose: the ones that
-- pass, then the others, each in their order. Loops over vectors are recursions on the list. The
-- inner loop of a round is a recursion on the list of what the queue returns at each look, with an
-- empty look as none, and with the source's limits of 100 empty looks and 100 waiting replies.
--
-- The exception of the signal to terminate passes the catch clauses as in the source, but none of
-- the modelled calls throws it: a push is delivered, refused by a full queue, or finds the queue gone.
--
-- Not modelled: the wire format, the database behind the log, the arrival of signals and shutdown, printing and
-- logging, the administration interface, the start of resource proxies and the recovery of the log;
-- of the broker boot and shutdown of the domain, the sending of pending replies between messages,
-- its own services and the transformation of the configuration; of the field buffers serialisation,
-- the transport, the functions for each type and the table of the repository;
-- of calls buffers, timers and the user code;
-- time points are integers of microseconds, process identifiers and queues are numbers, and an XID
-- is a number that tells transactions apart.
pub mod Base
pub mod Broker
pub mod Bytes
pub mod Context
pub mod Field
pub mod Ipc
pub mod Manager
pub mod Order
pub mod Pool
pub mod Run
