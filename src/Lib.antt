-- ===== src/Lib.antt =====
-- FLUFFI, a distributed fuzzer: a generator makes testcases by mutation, runners run them, evaluators
-- decide by their coverage which are kept, and a local manager keeps the results. Agents exchange
-- messages and the files of testcases; a runner talks to the instrumented target through shared memory.
--
-- Base: Boolean tests on the native numbers, lists, texts as lists of character codes, sets as lists,
--   integers for the values of `int`, their arithmetic, and `std::stoi`. Base/Sets stands for
--   `std::set` with insertion, removal and membership; equality is an instance argument.
-- Testcase: core/SharedCode/FluffiTestcaseID, FluffiServiceDescriptor and
--   core/TestcaseGenerator/TestcaseDescriptor: records with the fields of the classes, operator== and
--   Util::generateTestcasePathAndFilename. Testcase/Filename is about the file of a testcase.
-- Collector: core/SharedCode/GarbageCollectorWorker: `collect_garbage` is collectGarbage, `attempt` the
--   body of its loop, `worker_turn` a turn of workerMain. Files are the list of names that exist.
-- Generator: core/TestcaseGenerator. Generator/Manager is TGTestcaseManager with its two queues,
--   Generator/Cleaner is QueueCleanerWorker, Generator/Filler is QueueFillerWorker. Their child
--   modules hold the proofs. The workers change the manager by its operations, and it marks files at
--   the collector.
-- Evaluator: core/TestcaseEvaluator. Evaluator/Blocks is FluffiBasicBlock and BlockCoverageCache,
--   Evaluator/Results is TETestResultManager and PutTestResultRequestHandler, and Evaluator/Coverage is
--   CoverageEvaluator::processTestOutcomeDescriptor.
-- Runner: Runner/Partners is core/TestcaseRunner/CommPartnerManager, Runner/Main the loop of
--   TRMainWorker with what it pushes to the evaluator, and Runner/Config its tryGetConfigFromLM: which
--   executor the settings ask for. Runner/Multi is TestExecutorDynRioMulti and Runner/Gdb
--   TestExecutorGDB, with Runner/Execution for what they share. Runner/Main fetches the testcase's file with Transfer/Storing.
-- Comm: core/SharedCode/CommProxyWorker and CommWorker. Comm/Proxy is a turn of
--   fluffi_proxy_steerable; Comm/Network is the system of clients, proxy and workers, a step relation
--   over the messages that wait between them, with ZeroMQ's sockets as an argument; Comm/Protocol reads
--   the messages as requests and replies, and holds the service that the system refines, a bag of open
--   requests (a quotient of lists, Base/Bags).
-- Transfer: Transfer/Chunks and Transfer/Storing are the functions of core/SharedCode/Util that load,
--   receive and store the file of a testcase, and core/SharedCode/GetTestcaseChunkRequestHandler.
--   Storing waits for the collector, which is called as it is modelled in Collector.
-- SharedMem: core/SharedMemIPC. SharedMem/Memory is the mapped memory, a function from addresses to
--   bytes; SharedMem/Channel places, sends and receives messages; SharedMem/Posix and
--   SharedMem/Windows are the set-up and the destructor of the two builds.
-- LocalManager: LocalManager/Registration is core/LocalManager/RegisterAtLMRequestHandler and
--   LocalManager/Weights is WorkerWeightCalculator, with the database as a record of what it answers.
--   LocalManager/Evaluation is PutTestEvaluationRequestHandler and LocalManager/Database the operations
--   of LMDatabaseManager that it calls, as the statements that they send to a database server.
--   LocalManager/Welcome is IsAgentWelcomedRequestHandler.
-- GlobalManager: GlobalManager/Registration is core/GlobalManager/RegisterAtGMRequestHandler, with the
--   database as a record of what it answers and of what a change makes of it. It asks the local manager
--   of LocalManager/Welcome, whose answer is an argument. GlobalManager/Monitor is LMMonitorWorker: a
--   round is the list of the operations that it sends to the database.
-- Strings: splitString, stringHasEnding and replaceAll of core/SharedCode/Util. Registration splits the
--   settings with it.
-- Tests: the theorems at concrete inputs.
--
-- What the program asks of others is an argument: random numbers, the clock, whether a file can be
-- removed or opened, the answers of the network, which system calls succeed, what the mutators make.
-- A function that returns `none`, or a constructor `process_exit`, stands for the exit of the process
-- or for an exception, as its comment says. Operations under a mutex are single steps, so that the
-- interleavings of threads are the sequences of calls.
--
-- Numbers are natural. The sums of CommPartnerManager wrap at 2 ^ 64, its count and the weights of
-- generators at 2 ^ 32; other counters (attempts, waited milliseconds, chunk numbers, timeouts) do not
-- reach the bounds of their types and do not wrap here, nor do the shares of subtypes. Loops that the
-- source bounds are recursion on that bound: a round of the collector has ten iterations for each
-- marked file. Loops without a bound take fuel: append_remaining_chunks and receive, for which one unit
-- per begun chunk is enough; clear_loop, for which two are enough where removals succeed; split_loop
-- and replace_loop, for which one more than the length of the text is enough where the searched text is
-- not empty. The digits of a number take one unit more than the number.
--
-- Not modelled: the database server and the other statements of the databases, the web interface,
-- the client side of the sockets and the encoding of messages, processes, debuggers and executors,
-- the mutators, and the waits of the Windows build on shared memory.
pub mod Base
pub mod Testcase
pub mod Collector
pub mod Comm
pub mod Generator
pub mod Evaluator
pub mod Runner
pub mod Transfer
pub mod SharedMem
pub mod Strings
pub mod LocalManager
pub mod GlobalManager
pub mod Tests
