-- ===== src/Lib.antt =====
-- A model of sfproxy, the local proxy of a service registry in ZooKeeper (namespace
-- FinagleRegistryProxy). A proxy reads the instances of each service from ZooKeeper, keeps them in
-- a cache, and answers its clients from there. The parts, and how they work together:
--
--   core/Registry.h, .cpp        one instance of a service, its weight and its text:   Registry
--   core/RegistryCache.h, .cpp   the instances of each service, by path:               Cache
--   core/SkipBuffer.h            which paths were read from ZooKeeper a moment ago:    SkipBuffer
--   core/ClientPool.h, .cpp      the ZooKeeper clients that the threads share:         Client, Pool
--   core/ZkClient.h, .cpp        one client: connecting, reading services, watchers:   ZkClient
--   core/ServerHandler.h, .cpp   requests, status, and the tasks at intervals:         Handler
--                                the same with the pool, its clients and the file:     Server
--   core/FileCache.h, .cpp       the file that a cache is kept in:                     FileCache
--   log/scribe_log.cpp           the buffer of log entries and its sender:             LogSender
--   log/logger.h, .cpp           messages, from the program to that buffer:            Logger
--   log/LoggerStream.h, .cpp     the line buffer of the log streams:                   LoggerStream
--   main.cpp, utils/ArgsParser.h the options that the proxy starts with:               Startup
--   core/ClientPool.h (StateBag) and core/ZkClient.h (ZkState)
--                                the paths that are watched, and by which client:      StateBag
--
-- A thread that handles a request takes a client with `ClientPool::open`, reads a service with it
-- (which writes to the cache and notes the watch), and gives it back with `ZkClient::close`, which
-- calls `ClientPool::on_client_closing`. The pool frees clients, and its watches go to other
-- clients. `ServerHandler::get` answers from the cache; on a miss it has a service read by a task of
-- the thread pool, once within the time of the skip buffer. Other tasks keep the cache up to date
-- (`check`), save it to a file from which the next start loads it (`save`, `from_file`), and keep a
-- client connected.
--
-- Correspondence. A C++ object is a record (Registry, SkipBuffer, ZkState, Client, Pool) or a map
-- (RegistryCache, StateBag); a method is a function of the same name from the state to the state,
-- or with its result. `ZkClient::open` is open_zk; `ZkClient::close` is Pool.close, as it acts on
-- the pool; one round of `TaskScheduler::run` is round. Overloads have names of their own: `remove`
-- is remove_ephemeral, remove_registry and remove_name; `SkipBuffer::erase` is release;
-- `replace_client_id(key, ..)` is replace_client_id_of; the two `option_value` are option_value and
-- option_int. `RegistryCache::save` and `from_file` with their file are Cache/Storage. Server has a
-- whole server as one state: load and store pass a client of the pool's heap, with the cache and
-- the states that it shares, to the operations of ZkClient and back; a watcher with the client that
-- it takes from the pool is service_event and its kin in Server/Watch. A locked section is one
-- step. std::map is OrderedMap, entries in the order of their keys; std::set of pointers is
-- AddressSet. Pointers to clients are addresses into the pool's heap; the result `none` of a pool
-- operation is a read or a delete of a client that is not on the heap, undefined behaviour. In
-- Registry, the outer `none` of the reading is a failed assertion of rapidjson.
--
-- Numbers. int and long are ℤ where they can be negative (ports, counters, bounds); uint32_t keeps
-- its wrap-around (SkipBuffer), as do the 64-bit differences of times in Registry.elapse,
-- Pool.timed_out and Handler.is_due. Counters that only grow by one (use_times_, last_id_,
-- using_counter) are unbounded.
--
-- Fuel. `evict` has one pass of fuel more than clients are lent; each pass but the last takes one
-- away (Pool/Evict). `digits_onto` has one round more than the number. `destroy_rounds` takes the
-- number of rounds that fit into the waiting time of `reset`, and its theorems hold for each such
-- number. Where the code compares with end() an iterator that was erased, the model takes what it
-- means: not at end.
--
-- `connect_zk` restores the watches of the client, and the reading of a watched path may connect
-- again: its fuel is the depth of that recursion, which the code leaves without a bound. In
-- ZkClient, the result `none` is also a failed assertion of rapidjson, a read past the end of the
-- buffer, or a read of a state that was deleted. `take_over_states` goes through keys instead of
-- the pointers of the code, and looks each of them up: where a state was removed and one of the
-- same key was added in the meantime, the model takes over the new one, while the code reads the
-- deleted one, which is undefined.
--
-- Parameters. rapidjson is the record Json.Rapidjson, and the ZooKeeper C client the record
-- Zookeeper.Zookeeper, whose answers depend on a state of the world. That rapidjson reads the
-- layout which `Registry::serialize` writes is the hypothesis ReadsItems of Registry/Layout; the
-- reader of Registry/Reader has it. Clock readings, the address that `new` gives, the virtual
-- `open` of a client, the sizes of the thread pool, the name of the host, and the sending of a log
-- entry to scribe are arguments, and so is what vsprintf makes of a format.
--
-- Not modelled: the destruction of a client and the waits of `connect_zk` (core/ZkClient.cpp), the
-- interleavings of the tasks and the thread pool that runs them (core/ServerHandler.cpp), the
-- connection to scribe, the start of the thrift server (main.cpp), and the stub
-- thrift/RegistryProxyHandler.cpp; printing (every `dump`); the unused core/JsonUtil; generated
-- code and copies of other projects (thrift/, log/gen-cpp/, rapidjson/, include/, lib/). Also not
-- modelled: the ownership of the states in a StateBag.
pub mod Prelude
pub mod OrderedMap
pub mod Decimal
pub mod Json
pub mod Registry
pub mod Cache
pub mod Server
pub mod SkipBuffer
pub mod Startup
pub mod StateBag
pub mod AddressSet
pub mod Zookeeper
pub mod Client
pub mod FileCache
pub mod ZkClient
pub mod LogSender
pub mod Logger
pub mod LoggerStream
pub mod Handler
pub mod Pool
