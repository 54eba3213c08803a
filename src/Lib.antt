-- ===== src/Lib.antt =====
-- Verification of IceFlow, a library for distributed dataflow over Named Data Networking.
--
-- The program. A graph of nodes is read from a JSON document. A process is one node of it: it keeps a
-- producer for each of its outgoing edges and a consumer for each incoming one, all of which use one
-- SVS publish/subscribe instance. A consumer subscribes to partitions of its edge's topic, passes what
-- it gets to the application's callback and acknowledges it on a back channel, where the producer of
-- that edge drops the message from its data store. An executor asks a node over gRPC to repartition its
-- consumers and for its statistics.
--
-- The files, and what they model:
-- - Dag.antt, Dag/Parser.antt: include/iceflow/dag-parser.hpp and src/dag-parser.cpp. `from_json` is
--   DAGParser::fromJson, `find_node_by_name` is findNodeByName, and so on.
-- - Consumer.antt: include/iceflow/consumer.hpp and src/consumer.cpp, one function for each method of
--   IceflowConsumer; the destructor is `destroy`. `save_consumption` is saveTimestamp.
-- - Producer.antt: include/iceflow/producer.hpp and src/producer.cpp. `handle_backchannel` is the
--   lambda that setupBackchannel subscribes.
-- - Timestamps.antt: what the two have in common, cleanUpTimestamps and determineIdleTime.
-- - Flow.antt: include/iceflow/iceflow.hpp and src/iceflow.cpp, the methods of IceFlow.
-- - Flow/Events.antt: what reaches a running node: deliveries, calls from other threads, and `run`.
-- - Flow/Events/Network.antt: several nodes of one application, and the messages between them.
-- - Services.antt, Services/Executor.antt: src/services/, src/executor.cpp, src/scaler.cpp and proto/.
-- - RingBuffer.antt: include/iceflow/ringbuffer.hpp, with a step relation of its threads.
-- - Measurements.antt: include/iceflow/measurements.hpp and src/measurements.cpp.
-- - WordCount.antt and the files below it: examples/wordCount. createConsumerPartitions stands in
--   WordCount.antt; Text.antt has the words and lines that streams read; Splitting.antt has LineSplitter
--   and WordSplitter, Counting.antt has WordCounter, and Recording.antt their measurements; Nodes.antt
--   has the `run` functions and the callbacks that they register, and Main.antt the `main` functions;
--   Pipeline.antt puts all three together.
-- - Stats.antt: include/iceflow/stats.hpp and include/iceflow/congestion-reporter.hpp.
-- - Json.antt, Ndn.antt: the operations of nlohmann::json, ndn-cxx and ndn-svs that the code calls, as
--   records of parameters, with what their documentation promises as records of laws. Json/Plain.antt
--   and Ndn/Plain.antt meet these laws.
-- - Prelude and the files below it: exceptions, lists, maps and signed differences.
-- - Tests and the files below it: the theorems at the word count example.
-- The other files below a module hold the theorems about it.
--
-- Conventions. A method takes the object and gives the new one. A call that can throw gives a `Result`,
-- beside the object, since what was changed before an exception stays. The weak pointer to the SVS
-- instance is an option, `none` once it has expired. The clock's readings, the seeds and the UUID are
-- arguments. A map is an association list. A number of w bits that can wrap is taken modulo 2 ^ w where
-- the code computes it. A loop is a recursion on the list or the number that it goes through, and `run`
-- goes through the rounds of events that come, however many; it has no result while its loop goes on
-- after them. A directory says which files can be opened. Word counts have no upper bound, which the
-- code's int has. The one loop with fuel is that of
-- `create_consumer_partitions`; a theorem says that two more than the highest partition is enough.
--
-- Each event of a node is a whole call: the calls of other threads are taken to be atomic, although
-- the code has no lock. A consumer's callback acts on the node through the producer callback only. An
-- application's callbacks are functions on its state; a prosumer's pushes are listed, each with the
-- state that it is made in.
-- In a group of nodes the network is free: a message that some node has published can reach any node with
-- a subscription to a prefix of its name, at any later time, more than once or never.
--
-- Not modelled: references to objects that are gone, gRPC servers and clients, logging, making the
-- folder for the measurements, writes that fail in a file that was opened, a signal that arrives inside
-- setField, the output of the word count applications, and the members of the ring buffer that call
-- `pop`. The references are the edge that findEdgeByName returns, which stands in a copy that the call
-- drops (the model returns no edge); the edge names of consumers and producers, which refer to variables
-- of the constructor's loops (a congestion report of theirs takes the name as an argument); and the
-- address strings of the scaler.
pub mod Prelude
pub mod Json
pub mod Ndn
pub mod Stats
pub mod Timestamps
pub mod Consumer
pub mod Producer
pub mod Flow
pub mod Services
pub mod RingBuffer
pub mod Measurements
pub mod WordCount
pub mod Tests
pub mod Dag
