-- ===== src/Lib.antt =====
-- The Python client of the raft-lsmt key-value store (client/): routing of records and queries to
-- the clusters, the wire formats, and the client object that buffers records into batches,
-- sends them and asks queries; and the programs on top of it, the command line (cli.py) and the two
-- benchmarks (write-bench.py, read_benchmark.py).
--
-- Parts and files:
--   Base/             shared helpers: tests, lists over native numbers, equality as an interface,
--                     outcomes (a value or the exception raised), dictionaries in insertion order;
--                     Lanes is about dictionaries of lists, Grouping about dictionaries that a loop builds
--   Client/Datatypes  client/db_datatypes.py
--   Client/Registry   client/router.py, class LeaderRegistry
--   Client/Struct     what the client uses of Python's struct module and of int.from_bytes
--   Client/Routing    client/routing_strats.py and the classes Router and RoutingStrategy
--     Names           sorted(list(clusters.keys()))
--     Select          _select_follower_round_robin; Choice and Rotation hold its theorems
--     Each            get_node_query of the strategies Hash, RoundRobin and Leader
--     Target          the end that get_node_insert shares in all strategies
--     Range, Hash, RoundRobin, ByKey    the four strategy classes (ByKey is LeaderRoutingStrategy)
--     Router          class Router; Total and Reach hold its theorems
--   Client/Wire       the wire formats of client/dbclient.py, with mocks/mock_server.py as the peer
--     Batch           _serialize_batch, and the cutting into messages of _handle_write
--     Request         the query request
--     Stream          _recv_exact; Chunks holds its theorems
--     Response        the response header and _parse_response
--   Client/Db         DbClientConfig and the state of class DbClient
--   Client/Send       _send_batch of _flush_batch: Redirect reads a redirect; Ends, Delivery, Loops and
--                     Reports hold the theorems
--   Client/Query      _query_single_node; Failover holds its theorem
--   Client/BatchQuery _query_batch_single_node: Numbers is about the numbers of the requests, Order and
--                     Whole hold the theorems
--   Client/Pages      what read does with one response: the checks, the joining of pages, the query of
--                     the next page
--   Client/Read       read and its _aggregate, as a step relation on the futures under way: Rounds takes
--                     a round apart; Ends, Settles, Counts and Grouped hold the theorems
--   Client/ReadBatch  read_batch and its _aggregate, in the same way: Rounds takes the round of a page
--                     apart, Falls is about each round; Ends and Places hold the theorems
--   Client/WorkQueue  PriorityWorkQueue and PriorityThreadPoolExecutor; Order holds the theorem
--   Client/Sockets    connect, disconnect and the socket pools; Fresh and Leaders hold the theorems
--   Client/Write      write and flush of class DbClient: what they buffer and what they hand to
--                     _flush_batch. Drain, Group, Conserve, Placed, Bounds, Flushing
--                     and Ready hold the theorems
--   Cli               cli.py, the command loop; Keeps holds the theorem
--   Cli/Show          show of cli.py; Bounds and Plain hold the theorems
--   Bench/Streams     record_stream and ZipfGenerator of write-bench.py
--   Bench/WriteBench  bench of write-bench.py; Conserve holds its theorem
--   Bench/ReadBench   query_stream and bench of read_benchmark.py; Batches holds the theorem
--   Bench/Totals      the callbacks of both benchmarks; Sums holds the theorem
--   Bench/Latency     the latencies and percentiles of read_benchmark.py; Grouped and Percentile hold
--                     the theorems
--   Bench/Reporter    throughput_reporter of write-bench.py; Rows holds the theorem
--   Setup             main of the three programs; Clusters is about the client as it is set up,
--                     Later about its router after queries, Routed and Meets about what one
--                     program writes and another reads
--   Mock              mocks/mock_server.py as the peer of the client; WriteHandler is _handle_write of
--                     a leader and ReadHandler is _handle_read; WriteHandler/Acks and
--                     ReadHandler/Answers hold the theorems; ReadHandler/Paging and
--                     its Ends are about a whole read of one such node, whose pages Gather joins
--
-- Conventions. Python's integers are natural numbers: identifiers, timestamps, ports and counters are
-- never negative in a running system, and struct.pack refuses a negative one. A clock reading is a
-- number of milliseconds. Methods that hold a lock for their whole body are one step on the state they
-- guard. A method that changes its object returns the new object beside its outcome. The division
-- behind math.ceil is exact for keyspaces below 2 ^ 53, where Python's float division rounds up to the
-- same integer.
--
-- Bytes are numbers below 256, and a byte string is a list of them. A socket that is read is the list
-- of what arrives at it: chunks of at least one byte, the end of the stream, or a timeout.
--
-- A connection that is read from is what arrives on it, or the exception that opening it or sending
-- raises. A connection that a batch is sent on answers the bytes that sendall is given: with what
-- arrives behind them, or with an exception.
-- The loop that sends a batch runs on a list of rounds; a round says how each node's connection would
-- go and what other threads do to the leader registry before and during the attempt. Where the rounds
-- given are used up while the source would go on, the result is `running`.
--
-- The programs run while the client's workers send what was handed over, and set and clear leaders.
-- What they do to the leader registry is an argument of each program: a list of changes before each
-- call of write of the benchmark and at its end, or before each line of the command line. One call of
-- write routes all its records with the leaders of its beginning.
--
-- A read, of one query or of a batch, is a sequence of rounds, in each of which one of the futures
-- under way is done. Which one, and with what answer, is left open, and so is how many request
-- numbers other threads drew in between.
--
-- Fuel. The loop that cuts full batches has a round for each record of its list, which is enough since
-- every round but the last takes a batch of at least one record; a batch size of 0, for which the
-- source loops for ever, is excluded by hypothesis. The loop of the receiver has fuel likewise, a round
-- for each message.
--
-- External code is an argument: hashlib.md5 is a function from bytes to bytes, and the decoding of
-- bytes as UTF-8 one from bytes to code points. In the programs, the functions of random and the
-- floating point part of ZipfGenerator are arguments, and so are what a wait leaves of the futures,
-- how the rounds of a read end, and str.upper and int on what is typed.
--
-- Not modelled: the workers of the thread pools, what the reporting threads print, rates in floating
-- point, the redirect that the mock server sends as a follower, the C sources, the shell scripts,
-- argument parsing, printing and process start-up.
pub mod Base
pub mod Bench
pub mod Cli
pub mod Client
pub mod Mock
pub mod Setup
