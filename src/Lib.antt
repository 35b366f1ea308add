-- ===== src/Lib.antt =====
-- cpp-gossip: membership of a cluster by gossip, after the SWIM protocol.
--
-- A member keeps tables of the nodes that it knows. Messages about them (alive, suspect, dead) come
-- in datagrams, are handed over to one thread, and change the tables; each change is queued and
-- gossiped on to random nodes. A node that answers no probe is suspected, and a suspicion that is
-- not refuted in time makes it dead. Whole tables are exchanged over TCP. Paths below are those of
-- the repository.
--
-- Which file is about which code:
--   Config, Node, Message: src/misc/config.cpp, src/misc/node.cpp, src/type/genmsg.cpp with
--     include/type/msgtype.proto.
--   Queue: src/misc/broadcastQueue.cpp and src/mynet/broadcast.cpp. Order has `operator<` and the
--     std::set, and Select, Indexed, Budget, Fresh, Prune and Notice are about the operations.
--     WellFormed is what holds between operations, kept by those in Kept and Pruning, and Reach has all
--     queues that the operations lead to. Sending has the abstract GetBroadcasts; Loop, Delivery and
--     Refinement relate the code to it, Filled and Greedy are about what does not fit, and Load and
--     Drains count what is left to send.
--   Timer, Suspicion: src/misc/timer.cpp, src/misc/suspicion.cpp. Timer.Closing and Timer.Joins have
--     the thread of a timer beside ShutDown, which joins it.
--   Member: the fields of include/memberlist/memberlist.h that nodeMutex guards. Handlers has aliveNode,
--     suspectNode and deadNode of src/memberlist/state.cpp; Local the calls of
--     src/memberlist/memberlist.cpp and mergeRemoteState; Run any order of them. Invariant, Objects,
--     Consistent, Order, Leave, Refute, Merge, Rises and Learns are about these.
--   Sample, Gossip, Probe: kRandomNodes of src/misc/util.cpp; gossip, probe and probeNode of
--     src/memberlist/state.cpp. Gossip.Round is a whole round of gossip. Probe.Search and Probe.Rounds
--     are about one search and about successive ones. Probe.Threads has the threads about one probe,
--     step by step; Phases, Writes, Verdict, Progress and Loose are about these.
--   Handoff, Acks: handleComBroadcast, packetHandler, the pings, acks and nacks of
--     src/memberlist/handlemsg.cpp.
--   Handoff.Threads: the threads of packetListen and packetHandler at the queues between them, step by
--     step; Wakes and Atomic are about these.
--   Listen: streamListen, packetListen and packetHandler of src/memberlist/handlemsg.cpp.
--   Wrapped: src/mynet/wrapped.cpp. Connect is ConnectTimeout, and Stream the calls that use sockets:
--     of src/mynet/net.cpp, sendPingAndWaitForAck and sendAndReceiveState of src/memberlist/state.cpp,
--     the waits and sends of src/memberlist/memberlist.cpp. Rules has a rule for each kind of call, and
--     Laws, Sends, Descriptors and Transfers say what becomes of the sockets. Periodic is pushPull of
--     src/memberlist/state.cpp, and Serve handleConn of src/memberlist/handlemsg.cpp.
--   Life: the constructors and clearmemberlist of src/memberlist/memberlist.cpp.
--   Exchange: handleCommand, handleConn, handlePushPull, pushPullNode, ShutDown. Exchange.Spread is about
--     two members that exchange their tables.
--   Schedule: schedule, deschedule and Join of src/memberlist/memberlist.cpp.
--   Net, Address: src/mynet/net.cpp; resolveAddr of src/misc/util.cpp.
--   Base: shared names and lemmas. Double: the interface of `double`. Tests: members, queues and
--     messages at which the theorems are applied.
--
-- How the code is read. aliveNode, suspectNode and deadNode hold nodeMutex from their first read to
-- their end, so each is one step of a function on the state; interleavings are the orders of the
-- steps (`Event` and `run` of Member.Run). Leave does not hold the mutex between looking up its own
-- entry and deadNode, and is three steps (begin_leave, leave_message, dead_node). UpdateNode,
-- mergeRemoteState and the callback of a suspicion also release it between their calls of the
-- handlers, and are run with nothing in between. The nodeState objects, which `nodes` and `nodeMap`
-- share, are a store with addresses. Counters wrap at 2 ^ 32 and ports at 2 ^ 16. A call that waits
-- for a mutex of its own thread ends in `blocked`, and one that follows a null pointer in `crashed`.
-- Writes to pipes and sockets are logs. Durations and times are microseconds from the epoch, and are
-- not negative but where a remaining time may be.
--
-- Where threads wait for each other, the steps are a relation (`Step` of Handoff.Threads,
-- Probe.Threads and Timer.Closing). The wrapped calls are a monad over the history of system calls,
-- in which a call returns, throws, writes outside a buffer, or ends the process; the system
-- (`System` of Wrapped) answers by that history, so it may do anything. The other handlers are as if
-- no call threw.
--
-- Parameters: `byte_size` is ByteSizeLong, `serialize` and `parse` are the serialiser; `Double` is
-- the arithmetic of double; `rand`, `shuffle`, inet_pton, htons, stoul and to_string are the
-- system's; `Env` holds the times that a handler reads, its random number, and what an unset field
-- holds.
--
-- Fuel: an inner loop of GetBroadcasts runs at most once more than the queue has elements, since
-- each round removes one; the outer loop has one round for each tier. The search of `probe` has one
-- round more than there are nodes, for its own test. These are functions into Option, where `none`
-- is the end of the fuel, as `exhausted` is in gossip. packetHandler's inner loop takes one message
-- a round, and its fuel is one more than the messages of the two queues; it has come to its end when
-- it finds both empty.
--
-- Not modelled: the generated serialiser, logging (but for the lines of the wrappers), Inet_pton and
-- Inet_ntop, which nothing calls, the lengths of probeNode's waits, what its nack pipe holds, the
-- join of a suspicion's timer when the suspicion is destroyed, the destructor of memberlist, and the
-- window between the two halves of an atomic counter's increment and read. A message whose head or
-- type disagrees with its body is not represented.
pub mod Base
pub mod Double
pub mod Config
pub mod Node
pub mod Message
pub mod Queue
pub mod Timer
pub mod Suspicion
pub mod Member
pub mod Sample
pub mod Handoff
pub mod Acks
pub mod Probe
pub mod Schedule
pub mod Net
pub mod Address
pub mod Gossip
pub mod Exchange
pub mod Tests
pub mod Wrapped
pub mod Listen
pub mod Life
