-- ===== src/Lib.antt =====
-- A model of the C and C++ code of this repository, a collection of building blocks for servers, with
-- proofs of what each block promises.
--
-- Parts, and the files that model them:
--
--   timer/时间堆/time_heap.h (TimeHeap): class `time_heap`, a binary min-heap of pointers to
--   `heap_timer` objects, ordered by the time of expiry. `TimeHeap` is the class's state, `World` the
--   heap with the store of objects that its pointers lead into and a log of the calls of callbacks.
--   Each method is a function of the same name; the two constructors are `new_empty` and `new_from`,
--   the destructor is `destroy`. Below it: Order (heap order on an array), Sift (one pass down), Valid
--   (the invariant, and `top`), Add, Pop, Del, Tick, New (constructors and destructor), Tests.
--
--   timer/时间轮/time_wheel.h (TimeWheel): class `time_wheel`, 60 slots, each the head of a doubly
--   linked list of `tw_timer` objects. `Wheel` is the state with the store and the log. Below it:
--   Chain, Unlink, Relink (linked lists in the store, and a node taken out of one), Fire (one timer),
--   Info (which timers fire), Sweep (the loop of a tick), Valid (the invariant), Tick (one tick),
--   Timing (when a timer fires), Calls and Due (which calls a row of ticks makes), Add, Del, Destroy,
--   Tests.
--
--   threadpool/threadpool(C Implement+plus)/threadpool.c (ThreadPool): threads that take tasks from a
--   bounded ring. `ThreadPool` is the struct; `threadpool_add_task`, `threadpool_create`,
--   `threadpool_stop_all_task` and `threadpool_destroy` are the functions of these names, and
--   `threadpool_excute_task` is one round of the worker's loop under the mutex. Below it: Ring (the
--   ring as a queue), Threads (creation and destruction), Workers (clients and threads as a relation of
--   steps, with the condition variable), Tests.
--
--   threadpool/threadpool(C Implement)/threadpool.c (JobPool): threads that run jobs from a linked queue;
--   clients wait while it is full, and `threadpool_destroy` waits until it is empty. `Pool` is
--   `struct threadpool` with the store of its jobs. `threadpool_add_job`, `threadpool_function` and
--   `threadpool_destroy` are the functions of these names from the lock of the mutex to the next wait or
--   unlock. Below it: Queue (the links), Queue/Add, Queue/Take, System (clients, threads and
--   `threadpool_destroy` as a relation of steps), Owners (who has which job), Waiters and
--   Waiters/Changes (who waits for what), Outcomes, Valid and Reach (the invariant), Moves and
--   Shutdown (from the start to the end), Tests.
--
--   threadpool/ThreadPool(C++)/threadpool.h and locker.h (RequestPool): threads that take requests from a
--   list. `append`, `post` and `wait` are what clients and threads do to the queue under the mutex and to
--   the semaphore, `take_request` is the section in `run`. Below it: Steps (clients and threads as a
--   relation of steps, the invariant), Keeps (every step keeps it), Progress, Tests.
--
--   mult_process_server/context.c (ContextPool): the contexts of the connections of a worker process.
--   `ContextPool` is `struct context_pool`, a context is its index; `init_pool`, `alloc_context` and
--   `free_context` are the functions of these names. Below it: FreeList (the links, the invariant and
--   `init_pool`), Alloc, Tests.
--
--   mult_process_server/conn_process.c, web_server.c, proxy_server.c, server.c (ConnServer): a worker
--   process, which serves the connections of a web server or passes them on to back-end servers, on top
--   of ContextPool. `Worker` is its state with the kernel's side: which descriptors are open, and what
--   epoll waits for. The handlers are functions of their names, a failed system call is a branch of
--   each. A worker's start ends the program (`exits`) or enters its loop (`runs`), as the number of CPUs,
--   `sched_setaffinity`, `epoll_create` and `epoll_ctl` (`Launch`) decide. The statistics of `epoll_wait` have 64 bits.
--   Below it: Proxy (proxy_server.c), Loop (server.c), Held (who holds which descriptor), Close and
--   Release (a connection is given up), Admit (a new descriptor), Fits (the invariant), Steps (the parts
--   of the handlers), Accept, Web, Dial and Relay (the handlers), Batch and Serve (the loop), HandOver
--   and Listen (the start), Twice (two events of a connection), Polls, Workers, Rounds, Keeps, Stages and
--   Exchange (one request through a proxy), Sample, Tests.
--
--   ProcessPool/process_pool/processpool.h (ProcessPool): class `processpool`. `run_parent` is the
--   function of this name, `handle_events` the loop in it, and `new_connection` and `on_signal` its
--   branches. Below it: Dispatch (the choice of a child), Signals, Loop, Spawn (the constructor), Child
--   (`run_child`), Child/Serves, Child/Stops, Tests.
--
--   tree/radix-tree/radix-tree.c (RadixTree): a map from `unsigned int` to pointers. `Head` is
--   `radix_tree_head` and `Slot` what a slot of a node points to; the functions have the names of the
--   source. Below it: Shape (well-formed trees), Digits (an index as the offsets in the nodes), Insert
--   (one descent), Grow, Lookup, Map (insertion and lookup together), Gang and Gang/Order (the items
--   from an index on), Tests.
--
-- ConnServer calls ContextPool; the other parts do not call one another. Common passes on the
-- names of the library that they share, Array has arrays as lists with an access that may be out
-- of range, Run the monad of code that may fault.
--
-- Faults. A call ends in `some` result, or in `none`, which stands for undefined behaviour: an access
-- outside an array, a read through a pointer where nothing is allocated, a `delete` of such a pointer,
-- a call through NULL where the code does not test for it. A failed `assert`, and closing a descriptor
-- that is not open (ConnServer), count as faults too. A theorem that says `Returns` excludes all
-- of them.
--
-- Fuel. A loop that is not over a counter runs on fuel, and running out is `none` too, so that
-- `Returns` includes that the loop ends. The loops of the heap get their fuel inside the model:
-- `cur_size` + 1 rounds, for the hole or the size moves every round; the search for a child gets one
-- round for each child. A tick of the wheel, and the destructor, take a bound on the length of the
-- lists, which their theorems assume; every finite list has one.
--
-- Not modelled: the text that the code prints; the socket fields of `client_data`, for a
-- callback's argument is a number; failure of `new`, and of `malloc` where its result is not
-- tested. `int` is unbounded, since counters are bounded by the capacity, and time does not
-- overflow; the words of the radix tree have 32 bits. Callbacks do not call back into the
-- container. `radix_tree_delete` takes addresses of slots for nodes, so that what it does depends
-- on the layout of memory. Of the multi-process server the option parser, the opening of the
-- listening sockets and the signals. Process tasks, semaphores, the red-black tree, the HTTP
-- codec, consistent hashing and the socket helpers are outside this model.
pub mod Common
pub mod Array
pub mod Run
pub mod ConnServer
pub mod ContextPool
pub mod JobPool
pub mod ProcessPool
pub mod RadixTree
pub mod RequestPool
pub mod ThreadPool
pub mod TimeHeap
pub mod TimeWheel
