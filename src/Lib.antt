-- ===== src/Lib.antt =====
-- System programming: a thread pool, user-level threads, a bulletin board and a tree of services
--
-- The repository holds four programs, which share no code. Each has a module here, and Base has
-- the names that the modules share: the libraries' names passed on, Boolean tests on the native
-- numbers, lists measured by them, maps from numbers, texts as their bytes, and signed integers.
--
-- Pool: MultiThread/my_pool.c and my_pool.h. Pool.State has `tpool`, `job` and the heap of jobs,
-- in which a freed or unallocated address is `none`. Pool.Code has one function for each critical
-- section: `tpool_init`, `tpool_add`, the two sections of the loop of `eachthread`
-- (`worker_enter`, `worker_finish`), the tests of `tpool_wait` (`is_idle`) and `wait2`
-- (`all_gone`). `none` is a fault: a NULL or freed node that is read, a node freed twice, a
-- counter below 0. Pool.System is the whole: n workers and one client, who calls `tpool_add`,
-- `tpool_wait` and `tpool_destroy`; a step is one critical section or one wakeup, a spurious one
-- included, and the steps of the threads come in any order. Pool.Chain to Pool.Reachable carry
-- the invariant through every step: the queue is a chain in the heap, `jc` and `tc` count the
-- busy and the living workers. What a job itself does is outside: its call is recorded.
-- Pool.Script has the programs under MultiThread/testcases, which add their jobs, wait and
-- destroy the pool, and Pool.Ending what they have done at the end. `malloc` and `pthread_create`
-- succeed, and jobs do not use the pool. `free(pool)` and the destruction of the mutex and the
-- condition variables are the end of the model.
--
-- Threads: UserLevelThreadLibrary/scheduler.c, threadtools.h, threads.c and main.c.
-- Threads.State has the two arrays of THREAD_MAX thread pointers with their sizes;
-- Threads.Scheduler has the body of `scheduler`, one function for each part of it that the
-- source repeats, and an access outside an array is `none`. `sigsetjmp` and `siglongjmp` are
-- values: `Jump` says how `scheduler` was entered, `Target` where it goes. Threads.Spec says on
-- lists what a scheduler is to do. Threads.Programs has the control block and one iteration of
-- `fibonacci` and of `factorial`, and each of these by itself. Threads.Machine has all threads
-- together with the bank, the pending signals and the lines printed: the points at which a
-- thread can be resumed, `segment`, which is what a thread does from one of them until it calls
-- `thread_yield`, `lock` or `thread_exit`, and `step`, a segment of RUNNING with the jump that
-- it stops at. The signals that come in during a step, those of `alarm` included, are an
-- argument of it, so that what holds for all of them holds for every timing; between the test of
-- the pending signals and the jump none comes in. Threads.Start has `main` with the four
-- arguments already read. Threads.Totals to Threads.Progression carry an invariant through a
-- step: the queues fit, the owner of the lock and the threads inside the bank agree, each
-- control block fits its point, and what may still be paid in fits an `int`. Threads.Lines and
-- Threads.Ledger say what is to be printed, Threads.Accounts the balance that the lines tell of,
-- Threads.Creation and Threads.Launch start the threads, Threads.Serial and Threads.Orders put
-- the bank operations in an order, and Threads.Program is about all of it. The arguments of the
-- computing threads are at most 46 and 12: beyond them a number leaves the range of an `int`.
-- The initialisation of the signal masks, `sleep` and the reading of the command line are not
-- modelled.
--
-- Board: csieBulletinBoard/server.c, hw1.h and client.c. Board.State has the variables of `main`
-- that outlive a request, the ten records of the file, and the locks that this process holds on
-- them; the locks of other processes are an argument, `others`, and do not change during a round.
-- Board.Post, Board.Pull and Board.Submit are the requests, Board.Command the choice between
-- them. `strcpy` beyond a field of a record is `none`. Reads and writes of the file succeed.
-- Board.Connections has the rounds of the loop over `select`: the table `requestP`, the set
-- `master`, `accept` with the welcome, `receiveM`, `sendM`, and the close at "exit". What
-- `select`, `accept` and `recvfrom` give in a round is an argument, `Arrival`. A free entry of
-- the table makes the source ask for FD_ISSET(-1, ...), which no document defines: its value is
-- the parameter `negative`, of which nothing is supposed. Where it is true `recvfrom` fails and the
-- server ends, `none`.
-- Board.Serving and Board.Visits say what one request and one round do, Board.Rounds to
-- Board.Posting what many do, Board.Capacity bounds the listings. Board.Client is the dialogue of
-- client.c with its user, a word at a time, and Board.Dialogue puts it together with the server;
-- there a message arrives whole. The set-up of the sockets, on both sides, and what the server
-- prints on its own screen are not modelled.
--
-- Service: HierarchicalServiceManagementSystem/service.c and util.h. Service.State has the tree
-- of processes, each with its linked list of children, and the lines that they print;
-- Service.Spawn and Service.Kill are the commands, in the manager and in a service, with names in
-- place of the words of a message. A process that sends a command to a child waits for the reply
-- before it goes on, so that one command runs like a call; waiting for ever is `none`.
-- Service.Exchange has the command "exchange" on a tree with the secrets: the search for the
-- first two processes that have one of the names, and the swap over two named pipes, where a
-- writer and a reader meet when they open the same name. A first target that waits for the files
-- name.txt goes on if the targets make both, and the manager goes on once they have taken them
-- away; none is there before the command. The lines on the new secrets, which two processes
-- print at the same time, and the line on the end of the exchange are left out.
--
-- Under these operations lies the level of the messages. Service.Pipes has the pipes byte by
-- byte, Service.Words `concat`, the loop over `strtok_r` and the array of four words,
-- Service.Decimal `intTostr` and `atoi`. Service.Protocol is a service that gets a message, takes
-- it apart, and sends messages to its children; Service.Manager is the manager, from the bytes of
-- its input on; Service.Asking is the same for "exchange". A buffer or an array that overflows
-- and a read of a word that is not there are `none`. Service.Relay to Service.Undoing and
-- Service.Trading to Service.Dealing show that the messages do what the operations on the tree
-- say. A message "kill" with another mark than N and Y is left out, and so is a sign or a blank
-- in front of a number. No call of the operating system fails, except that a process waits for
-- ever.
--
-- The loops go over an index that counts down, or over the tree. `fibonacci` and `factorial` by
-- themselves, whose loops have no bound in the source, run on fuel; as many rounds as the
-- argument are enough. `run` of Threads.Machine goes over the list of the signals of each step;
-- as many steps as the two arguments and 8 together are enough. `run_manager` goes over the
-- number of lines that are read, and `digits` over ten digits, which an `int` does not exceed. A
-- result beyond an `int` is `none`.
pub mod Base
pub mod Board
pub mod Pool
pub mod Service
pub mod Threads
