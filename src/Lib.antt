-- ===== src/Lib.antt =====
-- Talpf, the task-aware variant of the Lightweight Parallel Foundations: a model of its core.
--
-- Paths are from the repository's root. Everything is over the native numbers; size_t and the slot
-- numbers have 64 bits, and their wrap-around is written out.
--
-- Prelude passes the shared names on. Prelude/Vector is std::vector, a list whose accesses out of
-- range have no result; Sums has sums over one, and Swaps an element swapped with the last.
-- Prelude/Calls says how a call ends: code that does not throw returns an Option, `none` for a failed
-- ASSERT or an access out of range; code that throws returns an `Exec`, with the state that an
-- exception leaves behind. What the allocator answers (Booleans, or a record `Memory`) is an argument
-- of the operations that allocate.
--
-- SparseSet (src/common/sparseset.hpp): the set of Briggs and Torczon. The record has m_min, m_max,
-- m_size, m_domain and m_map; the operations have the names of the methods, `resize_range` is
-- `resize`, `construct` and `empty_range` are the constructors, and `elements` is what the
-- iterators run over. Loops recur on the rounds that are left, which the vectors' lengths give.
-- Children: Inverse (the two vectors as inverse permutations, and the swaps), Contents (insert,
-- erase, clear), Range (reset), Extend, Iterate, Shrink.
--
-- MemReg (src/common/memreg.hpp): `MemoryRegister`, with m_slots, m_free, the capacity of m_free
-- and m_minNewSlotNr. Children: FreeList (the free list as a set), Slots (add, remove), Reserve,
-- Update (writes), Counts (the slots that are left), Histories (what the slot numbers depend on),
-- and Combined, which is `CombinedMemoryRegister` over two registers.
--
-- Verbs (src/MPI/ibverbs.hpp, ibverbs.cpp): `IBVerbs`, with the state that the transfers and the
-- polling task use, and `calls`, the calls out of the module, newest first. What the verbs library,
-- the communication library and ALPI answer is an argument; the calling task is a number. An int is
-- its pattern of 32 bits; a counter that C would overflow has no result. Children: Rdma (put, get,
-- the atomic operations; the chain by `next` is a list of work requests), with Transfer (what
-- chains copy), Posting and Atomics (the calls as a whole); Progress (doLocalProgress,
-- doRemoteProgress, processSyncRequest, processBlock, a round of doProgress), with Release
-- (messages and looks at the request, as steps), Delivery (sequences of steps), Alike and Rounds
-- (rounds as sequences of steps); Sync (sync), with Asks (what it leaves for the polling task) and
-- Ends (with the vote, and with the steps that follow); Registration (regLocal, regGlobal, dereg,
-- resizeMemreg), with Slots and Counts (the slots that are left); Queues (resizeMesgq, stageQPs),
-- with Bounds; Setup (the constructor), with Causes (why it throws) and Fresh (the state that it
-- leaves); Connect (reconnectQPs, with the queue pairs themselves and the collective calls of one
-- process), with Loop (the loop over the peers), Blocks (the other parts), Whole (one process) and
-- Pairs (two processes, over what is documented of MPI_Allreduce, MPI_Alltoall and MPI_Allgather).
-- Messages arrive in any order. Errors that ALPI and the receive queue report are only logged
-- there.
--
-- MemoryTable (src/MPI/memorytable.hpp, memorytable.cpp): the combined register of memories, the
-- sparse set of new global slots and `IBVerbs`, whose state it carries. Slots: the valid tables,
-- and addGlobal. Removes: remove. Jobs and Sync: one round of the loop of sync, and sync as a
-- whole.
--
-- MessageQueue (src/MPI/mesgqueue.hpp, mesgqueue.cpp): the memory table, which carries the state of
-- `IBVerbs`, and the sorting of messages. Sizes are compared as `double` is rounded. Votes: sync.
--
-- Interface (src/MPI/interface.hpp, interface.cpp) and `Process::hook` (src/MPI/process.cpp): the
-- context of an SPMD function, which is an argument. An ASSERT of abort that fails has no result.
-- Hooks: one synchronisation in which somebody stops, over all processes that take part.
--
-- Process (src/MPI/process.hpp, process.cpp, trysync.hpp): exec, the exchange of symbols and the
-- loop of slaves. Groups: how exec splits the processes, over what is documented of MPI_Comm_split.
--
-- MessageSort (src/MPI/messagesort.hpp, messagesort.cpp): the vectors and the multiset as lists,
-- the dirty list as a sparse set, and masks of low bits as remainders. popWrite takes fuel; a round
-- for each dirty region and one more are enough. Blocks: `Writes`, whose loops recur on the rounds
-- that are left, with Paint (push), Clear, Pop and Drain (pop until there is none). Merge: how
-- regions are joined. Register: addRegister, with its children Loops, Hull and Placed. Align: what
-- pushWrite cuts off.
--
-- MicroMsg (src/common/micromsg.hpp) and IpcMesg (src/MPI/ipcmesg.hpp): numbers in groups of seven
-- bits in a buffer, a list of bytes. Both loops of a number have fuel for ten groups, which hold 64
-- bits. IpcMesg is `IPCMesg` as built with NDEBUG. Groups: what a number looks like in the buffer.
--
-- Messages (src/MPI/mpilib.cpp): the messages of `Comm::Impl`. The record `Comm` has the fields that
-- they use, with the calls of MPI_Isend and MPI_Recv. The loop of iwaitall runs over a list of
-- rounds, each with the answers of MPI; as many events as pieces are due end it. Children: Dequeue
-- (the entries that have a request), Pieces (isend, and the pieces of a message), Rounds (what
-- follows MPI_Testsome), Wants and Receives (what is still to come, and its reception), Answers
-- (which answers MPI and the peers give), Turns (a round), Ends (the loop), Waitall.
--
-- Rng (src/common/rng.h, rng.c): the random numbers. The first guess of `div64`, which is made in
-- floating point, is an argument, and its loops have fuel. Children: Modular, Powers (int_pow),
-- Leaps (the value after many calls of rng_next).
--
-- AllToAll (src/MPI/mpilib.cpp): the sparse all-to-all of `Comm`, by the NBX algorithm, for one
-- process. An index of the arrays is a record `Outgoing`; the buffer is its size, with the sizes of
-- what came. The loop runs over a list of rounds, and the one that takes messages out has one more
-- round of fuel than messages. Children: Account (the pieces, and the loops on what MPI_Testsome
-- finds), Culls (MPI_Testsome itself, and the loop that takes messages out), Rounds, Ends (the
-- loop), Whole.
--
-- DynamicHook (src/MPI/dynamichook.cpp): the connections over sockets by which processes of different
-- programs come together: amIServer and readAll. The loops run over what the calls on sockets
-- answer. Children: Reads (what both find out), Server (serverAcceptsClients from the loop over poll
-- on, and clientConnectsToServer), Accepts (whom the server accepts), Joining (dynamicHook from then
-- on, as the collective calls of a process), Growth (a client and the server).
--
-- Api (src/MPI/core.cpp): the calls of the C interface on the contexts of a process; which context a
-- call means is a number or the root. Silence: what they do once a context is aborted.
--
-- Config (src/common/config.hpp, config.cpp): the getters, each with what getenv and a stream give as
-- arguments. `log2_loop` has 64 rounds, one for each bit. Powers: the logarithm. Sizes: the greatest
-- size of an MPI message.
--
-- Time (src/common/time.hpp, time.cpp): seconds and nanoseconds, without floating point. Value: their
-- order and sums on nanoseconds.
--
-- Machine (src/common/machineparams.cpp): the interpolation between measured block sizes, the vote and
-- the messages of a measurement; the arithmetic of double is a parameter. Intervals: where the
-- interpolation reads.
--
-- Not modelled: the root of `Interface`, probe and the measurement of machine parameters; the use of
-- `TRYSYNC_END` in exec, whose status exec overwrites; the collective calls of `Comm` but the sparse
-- all-to-all, which each pass on to one call of MPI, and its windows; the opening of server sockets,
-- signals and alarms; symbols, which are looked up with dlopen; and clocks. Logging is left out.
pub mod DynamicHook
pub mod Prelude
pub mod SparseSet
pub mod MemReg
pub mod Verbs
pub mod MemoryTable
pub mod MessageSort
pub mod MessageQueue
pub mod Interface
pub mod Rng
pub mod Messages
pub mod AllToAll
pub mod Api
pub mod Config
pub mod Time
pub mod Machine
pub mod Process
pub mod MicroMsg
pub mod IpcMesg
