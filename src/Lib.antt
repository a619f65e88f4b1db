-- ===== src/Lib.antt =====
-- mScale (hydra) launches publishers and subscribers of a message queue as tasks of marathon apps on
-- mesos, drives them from a master, and searches for the load at which they begin to drop messages.
-- This library models src/main/python/hydra/lib, the publishers, subscribers, test masters and suites of
-- src/main/python/hydra/zmqtest, rmqtest and kafkatest, and the agents of src/main/python/hydra/selftest.
--
-- The parts, and the file of each:
--   Protocol     hdaemon.proto (the messages) and util.py (`istext`). Serialising and json are the
--                interface `Codec`, whose laws say that parsing undoes serialising. Ints are those of
--                64 bits; floats in a message have single precision.
--   Analyser     h_analyser.py, `HAnalyser`: what the master sends to a task and how it reads the
--                answer. The socket is a function from a request to an answer or to none in time.
--   Daemon       hdaemon.py, `HDaemonRepSrv`: the loop that answers in a task, one round as
--                `receive`, and the thread around it (`crash`); Daemon/Threads has utility/h_threading.py.
--   Wire         the theorems on the two together: arguments, answers, whole calls.
--   Scanner      boundary.py, `Scanner`: `search`, `find_max_rate`, `range`. Rates and loads are
--                numbers in fixed point; the callback that measures is a function with a state, and in
--                Scanner/Raising one that may raise.
--   Runner       boundary.py, `BoundaryRunnerBase`: one measured run with its cache and its retries;
--                Runner/Searching has the scanner over it.
--   Hydra        hydrabase.py, `HydraBase` and `AppGroup`: the dicts `apps`, `app_group` and
--                `all_task_ids` are the fields of the record `Hydra`; marathon, mesos, the tasks and
--                `random` are a `Backend` with a state of its own. Hydra/Apps has the tasks of an app,
--                Hydra/Scaling the batches of `scale_app` and `delete_app`, Hydra/Groups the groups,
--                Hydra/Pings the removal of tasks that do not answer, Hydra/Deletion the deletion of
--                tasks of a group and of all apps, Hydra/Launch the creation of apps and the choice of
--                tasks, Hydra/Startup what `__init__` takes from the configuration, Hydra/Readings the
--                statistics of the tasks, Hydra/Usage those of the slaves, with
--                the objects that it shares on a heap.
--   Marathon     mmapi.py, `MarathonIF`: calls that are tried again for a time, and waiting for an
--                app, over a `Client` with a clock in milliseconds. Marathon/Requests creates apps,
--                Marathon/Mesos is `MesosIF`, Marathon/AsBackend makes MarathonIF the marathon of a `Backend`,
--                with the methods of HydraBase in between.
--   Publisher    zmq_pub.py: the handlers and the main loop, cut into the pieces (`tick`) between which the
--                daemon's thread may call a handler; Publisher/Stages lets both threads come between each other's
--                assignments; Publisher/Brokers has rmq_pub.py and kafka_pub.py,
--                whose loop is the same with another call that sends. Times are microseconds.
--   Subscriber   zmq_sub.py: a message (`receive`) and the statistics; kafka_sub.py and, in
--                Subscriber/Rabbit, rmq_sub.py.
--   Zmq          zmqtest/runtest.py, `RunTestZMQ`: Zmq/RunTest launches the apps, Zmq/Rerun runs the test
--                on the object of Runner around that of Hydra, Zmq/Report computes the result. Averages
--                are rounded down, other quotients are kept as fractions.
--   Workers      `run10` of the subscribers: the ten processes of a task, each with a port of its own.
--   Rmq, Kafka   runtest.py of rmqtest and kafkatest, on the object of Zmq.
--   Suites       maxrate_test.py, fixed_test.py, batchsize_test.py and the `RunTest` of runtest.py over a
--                `Harness`; Suites/Harnesses makes one of each of the three tests.
--   Mock         mock_backend.py and childmgr.py: the mock of marathon and mesos, with the processes as a
--                parameter.
--   Agents       selftest/agents.py: the requests, the publisher and the subscriber of an agent,
--                each by itself.
--   Cli          cli.py: the commands, with docopt as a parameter.
--   Shell        common.py, utility/py_sys_cmd.py, the firewall of hydrabase.py, and appserver.py.
--   Common, Dict, Integer   results with a state, lists, Python's dict, signed numbers.
--   Tests        the theorems at concrete inputs.
--
-- The daemon calls its handler with what the analyser sent; the scanner calls the runner, which calls
-- a test; a test drives its apps and groups through Hydra, which pings and queries the tasks through an
-- analyser. A suite makes a test, and hands its `run` to scanners.
--
-- Loops that may run on are functions on fuel, with `none` where it ran out: the searches, `pick` of
-- Hydra/Groups, the batches of Hydra/Scaling, `wait_for_testend`, the loops of Marathon. Fuel is counted
-- in rounds. A round of a search doubles or halves the load, a batch takes at least one task, and a
-- call of marathon is tried every ten seconds, so fuel in proportion is enough there; a wait for
-- an app takes one round for each task that is missing or too many. `pick` and
-- `search` can go on without end.
--
-- A publisher's test is bounded by the messages that its rate allows in the time, since it sleeps after each
-- batch.
--
-- Not modelled: logging, what is printed, sockets, processes, signals and files, which are parameters where
-- the code depends on them; the parsing of options; the archive of the app server and `start_init` in
-- hydrabase.py; the build scripts; how the threads of an agent come between each other's accesses; the
-- sending of an int beyond 64 bits, with which protobuf raises.
pub mod Common
pub mod Dict
pub mod Integer
pub mod Protocol
pub mod Analyser
pub mod Daemon
pub mod Wire
pub mod Scanner
pub mod Runner
pub mod Hydra
pub mod Marathon
pub mod Zmq
pub mod Tests
pub mod Publisher
pub mod Mock
pub mod Subscriber
pub mod Workers
pub mod Agents
pub mod Cli
pub mod Shell
pub mod Rmq
pub mod Kafka
pub mod Suites
