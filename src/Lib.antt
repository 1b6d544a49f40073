-- ===== src/Lib.antt =====
-- Fossilizid: lock-free containers, hazard pointers, a memory pool, and the juggle RPC service.
--
-- The containers (container/) store elements behind atomics; `msque` gives popped nodes to the hazard
-- system (container/detail/_hazard_ptr.h), which hands them to the object pool (pool/) once no
-- hazard pointer holds them. The service (juggle/) drives channels and fibers.
--
-- Msque: container/msque.h. The state of a list is `Mem`, each thread is a program counter `Pc`
--   with its live locals, and `step` makes one shared access of `push` or `pop`; threads interleave
--   in any order (`Reach`). It is assumed that the pool hands out new addresses only, which the
--   hazard pointers do not ensure for a pop; Msque.Reuse is about a node that is handed out again.
--   `clear` and the destructor run by themselves (Msque.Clear), with fuel for their loop; there is
--   one list throughout.
-- Ringque: container/ringque.h, in the same manner (`Ring`, `Pc`, `step`), with the shared lock
--   as the number of its holders, `resize` under it, and `clear`. Ringque.Pair has one thread that
--   pushes and one that pops, in any order of their accesses; Ringque.Race and Ringque.Overrun have
--   more of them.
-- Optimisticque: container/optimisticque.h, in the same manner (`Queue`, `Pc`, `step`). In
--   Optimisticque.Order threads push only (`Reach`). The destructor is in Optimisticque.Clear. Not
--   modelled: `clear`, which calls `acquire` without arguments and so does not compile where it is
--   used.
-- Swapque: container/swapque.h, with a node store and the two lists of `_que`; each call runs by
--   itself. `clear` is in Swapque.Clear, and runs of several calls in Swapque.History.
--   Swapque.Threads has push and pop one access to shared memory at a time, for any number of
--   threads, and Swapque.Race two pops that both swap. Not modelled: `clear` beside other calls.
-- Hazard: container/detail/_hazard_ptr.h. `acquire`, `release`, `retire` with its scan, the
--   constructor and the destructor, each run by itself. `retire` returns nothing where the source
--   would try again because all recover lists are in use. Hazard.Threads has `acquire`, `release`
--   and `retire` one access to shared memory at a time, for any number of threads.
-- HashMap: container/small_hash_map.h. The hash functions and the operations, each run by itself;
--   a bucket's `std::map` is a list of pairs. HashMap.Each has `for_each` and the destructor.
--   HashMap.Threads has `insert`, `set`, `search` and `erase` in one bucket one access at a time,
--   for any number of threads, with the lock of the bucket; the buckets share only `_size`. Not
--   modelled: the allocators, `for_each` beside other calls.
-- Pool: pool/mempool.cpp, with `___mempool___` defined. `allocator` and `deallocator` take the
--   outcomes of the try-locks and the address that malloc returns as arguments. Pool.Init is the
--   constructor; Pool.Objects is pool/objpool.h and pool/factory.h. Not modelled: the destructor,
--   bytes of a block other than its first word.
-- Juggle: juggle/service/service.cpp, the registries and the parts of a round of `loop_main`;
--   mutex.cpp and semaphore.cpp beside it in Juggle.Sync, where a switch of fibers is a result.
--   Juggle.Fibers: init, poll and scheduler with the fiber that runs. Juggle.Round: a round up to
--   its switch, with what handlers and callbacks do as a parameter. Juggle.Caller: caller.cpp, a
--   call from the service and the semaphore to the reply. Not modelled: module.cpp, which has no
--   logic.
-- Remoteq: remoteq/windows/. Remoteq.Receive is channelimpl.h, the receive buffer and `pop`, with
--   socket and parser as parameters; Remoteq.Commands is `push` at one end and `pop` at the other
--   (`converse`), while any number of bytes are on the way, compared with a queue of commands
--   (`fifo`); Remoteq.Events is queueimpl.cpp; Remoteq.Handles is channelimpl.cpp, acceptorimpl.cpp
--   and close.cpp, with the sockets and posted operations as a state (`World`) and the answers of
--   the system as parameters. Not modelled: endpointimpl.cpp and wsainit.cpp.
-- Vfs: chuckledb/vfs.cpp, with the entries of the folder and `fopen` as parameters.
-- Uuid: uuid/uuid.cpp.
-- Not modelled besides: context/, which wraps the fibers of Windows without logic of its own; the
--   interfaces in juggle/interface and the Python generator in juggle/rpcmake; the test programs;
--   and the copy of boost in third_party.
--
-- Fuel: `solo n` lets a thread run alone for `n` accesses, and the theorems say how many are
--   enough.
-- `Swapque.pop` takes two turns at most, which are enough. `Remoteq.receive` takes a turn
-- of the loop and `Pool.deallocator` tries one lock for each unit of fuel.
-- The loop of `Ringque.clear` takes fuel: one round is enough on the rings of the theorems. `Hazard.scan`
-- takes as many rounds as the vector is long; each round is one pointer less.
-- The loops that retire the nodes of a list have fuel; one turn for each node is enough.
-- Numbers are natural numbers, with the wrap of 32 bits written out (`u32`).
pub mod Base
pub mod Msque
pub mod Ringque
pub mod Hazard
pub mod HashMap
pub mod Pool
pub mod Juggle
pub mod Remoteq
pub mod Uuid
pub mod Optimisticque
pub mod Swapque
pub mod Vfs
