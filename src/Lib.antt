-- ===== src/Lib.antt =====
-- RedisRaft: a Redis module that keeps a data set consistent over several nodes with the Raft
-- algorithm. A client's command is packed into a command array, the array is serialized into a
-- Raft log entry, and each node reads the entry back and runs its commands. This library models
-- the parts of src/ that the rest stands on: the wire format of the log entries, the transactions
-- that become one entry, the log with its files and the cache of its latest entries, node
-- addresses, and the hash slots and their assignment to shard groups.
--
-- How a C program is modelled: numbers are natural numbers, and where a C type can wrap around or
-- stop a computation that is written out (`% size_max` for a size_t, the cast of a size to int in
-- encodeInteger). A subtraction is written only where it cannot go below 0, or behind the test of
-- the source. A buffer with a position and the bytes left is the list of the bytes left. A string
-- is a list of bytes. A failed assertion, a double free or a write past an entry is `none`, or a
-- constructor of the result; so is an error that a function returns. Memory never runs out.
--
-- The files, and the sources they model:
--   Prelude       shared names, byte strings, lists over the native numbers, and strtoul of C.
--   Wire          src/serialization_utils.c, every function. Wire/Writer has the steps of which
--                 the serializers are made: encode, check, advance; and the entry that is
--                 filled. Wire/Digits is about printed numbers: 20 digits are enough, since
--                 values are below 2^64.
--   Commands      src/serialization.c, RaftRedisCommandArrayExtend, Move, Free, Serialize and
--                 Deserialize. The loops over commands and arguments go down the lists, or the
--                 counts that were read.
--   Timeout       src/serialization.c, RaftRedisSerializeTimeout and
--                 RaftRedisDeserializeTimeout.
--   Import        src/serialization.c, RaftRedisSerializeImport and RaftRedisDeserializeImport.
--   LockKeys      src/serialization.c, RaftRedisLockKeysSerialize and
--                 RaftRedisLockKeysDeserialize. The dictionary of the keys belongs to Redis: the
--                 order of its iterator is a parameter.
--   RaftEntry     raft_entry_t of deps/raft/include/raft.h, as far as the log reads it.
--   EntryCache    src/entrycache.c. The array of pointers is a function from its indices, and
--                 what realloc leaves in new memory is a parameter. EntryCache/Spec has the
--                 abstract view, a run of consecutive entries, and EntryCache/Rep says when a
--                 cache represents one. The loops run on fuel, one more than the number of
--                 entries, and the theorems show that it is enough.
--   Multibulk     src/util.c, parseLongLong and its kin and the multibulk functions: numbers and
--                 strings on a file. strtoll of C is written out, with its bases; a negative
--                 length of a string is refused.
--   Page          src/log.c, the functions of LogPage. A file is the bytes written to it, the
--                 index file a list of offsets. Each write of an entry may fail behind any
--                 part of it, and so may the truncation that takes the writes back; reading,
--                 seeking and the other truncations do not fail. Page/Spec has the
--                 text of a list of entries, and Page/Rep says when a page holds them. The loop
--                 that loads a page runs on fuel, one more than the bytes of the file.
--   Log           src/log.c, the log of one page, or of two during a compaction. Log/Rep says when
--                 it holds a list of entries, Log/Recovery is about what a crash leaves.
--   LogImpl       src/log.c, the interface to the Raft library: the files behind the EntryCache.
--   File          src/file.c, the writing side: a buffer before the disk. A list says what the next
--                 calls of write and writev do, which may fail or write a part.
--   Metadata      src/metadata.c: the term and the vote of a node. What writing asks of the file
--                 system is a list of calls, and a crash leaves what some first part of them does;
--                 renaming is atomic. Each routine of src/util.c that MetadataWrite calls can fail
--                 or panic.
--   Multi         src/multi.c, MultiHandleCommand, and MultiStateReset of src/clientstate.c.
--                 What Redis and the command table say about a command is a parameter of each
--                 call.
--   NodeAddr      src/node_addr.c.
--   HashSlot      src/util.c, keyHashSlot. The checksum, which deps/common defines, is a
--                 parameter.
--   Fsync         src/fsync.c. Its critical sections are steps of a relation, into which
--                 requests and waits of the main thread come at any time; each of the two
--                 threads can be asleep at the condition until a signal wakes it.
--   GroupText     src/cluster.c, ShardGroupSerialize and ShardGroupDeserialize: the text of a
--                 group of Sharding, line by line.
--   SlotCompute   src/cluster.c, HashSlotCompute. Where the keys stand in a command is a
--                 parameter.
--   Sharding      src/cluster.c, ShardingInfoValidateShardGroup, Add, Update and Reset. The slot
--                 tables are functions from slots, and a group in them is its id.
--
--   Rdb           the stream of values in an RDB file, and Dict, dictionaries: of both the documented
--                 behaviour in Redis.
--   Snapshot      src/snapshot.c, the record that an RDB file holds. Snapshot/Groups has the part of
--                 src/cluster.c, ShardingInfoRDBSave and ShardingInfoRDBLoad; the order in which the
--                 groups are visited is a parameter, and Snapshot/Tables says when the groups can be
--                 entered in it. Snapshot/Whole puts the parts together.
--   Chunks        src/snapshot.c, raftGetSnapshotChunk and raftStoreSnapshotChunk. An attempt to send
--                 a chunk may fail at every call, and a write may stop half-way.
--   Blocked       src/blocked.c, the list and the dictionary of blocked commands, and how a snapshot
--                 keeps them. An object has an address, for which it is taken out of the list.
--   Sessions      src/raft.c, the sessions of clients that watch keys.
--   Redirect      src/raft.c, handleSharding and what it calls. Whether a key exists is a parameter.
--   Locks         src/raft.c, lockKeys and unlockDeleteKeys on the data of their entries. Replies and
--                 the transfer of the keys, which begins on the leader, are left out.
--   Startup       src/raft.c, loadRaftLog, up to the calls of the Raft library.
--
-- Page is written in the text of Multibulk; Log has one or two pages, LogImpl a log and a cache.
-- Commands, Timeout and Import use Wire; Multi uses the array operations of Commands; Sharding
-- uses the addresses of NodeAddr, GroupText the groups of Sharding, and SlotCompute the slots of
-- HashSlot. Redirect reads the tables of Sharding at the slot of SlotCompute. A Snapshot holds the
-- groups of Sharding as GroupText, the commands of Blocked and the Sessions; Startup compares it with
-- the Log and the Metadata.
--
-- Outside the source, and so parameters: the Raft library of deps/raft (raft_entry_new, of which
-- only the number of bytes is assumed), the checksums (that of the log is below 2^32), and the answers of Redis, the positions of
-- keys among them. Executing a command array again, when a snapshot is loaded, is a parameter too, and so is the
-- allocator. Not modelled: the reading side of src/file.c, the child process that writes a snapshot,
-- connections, the thread pool, configuration, and the glue to the Redis module API.
pub mod Prelude
pub mod Wire
pub mod Commands
pub mod Timeout
pub mod RaftEntry
pub mod EntryCache
pub mod Import
pub mod Multi
pub mod NodeAddr
pub mod Multibulk
pub mod Page
pub mod Log
pub mod LogImpl
pub mod Metadata
pub mod File
pub mod Rdb
pub mod Locks
pub mod Chunks
pub mod Startup
pub mod Redirect
pub mod Sessions
pub mod Blocked
pub mod Dict
pub mod Snapshot
pub mod HashSlot
pub mod Sharding
pub mod Fsync
pub mod SlotCompute
pub mod GroupText
pub mod LockKeys
