-- ===== src/Lib.antt =====
-- VaultFS is a distributed file system: a master replicated by Raft keeps the namespace and the places
-- of chunks, chunk servers store content-addressed chunks, and a client splits files and talks to both.
--
-- Base holds the shared names, lists, Boolean tests and machine words; GoMap is Go's map with string
-- keys, as an association list.
--
-- Raft is internal/raft. Raft.Log is raftLog (log.go), Raft.Node the state and the role changes, the
-- proposals and the apply loop (node.go), Raft.Election the elections (election.go), Raft.Replication
-- AppendEntries on both sides and the commit rule (replication.go), Raft.Snapshots compaction and
-- InstallSnapshot (snapshot.go). Every handler runs under the node's mutex, so it is a function from
-- the node to the node and the reply. A call that lets the mutex go around an RPC is two functions, one
-- up to the RPC and one from its reply on, so that other handlers may run between them. Raft.Invariant
-- is the step relation of one node: its handlers in any order, between the pieces of the apply loop
-- (Raft.Node.Loop), which lets the mutex go for each entry; apply_committed is that loop with nothing
-- in between, and Raft.Node.Rewind shows what a snapshot in between does. Raft.Network is the in-process
-- network (transport.go) with these nodes as its handlers. The children of each module hold
-- its theorems; Raft.Hazards has those that show a departure from the protocol.
--
-- Clock is internal/clock: Clock.Lamport the scalar clock (lamport.go), whose compare-and-swap loop runs
-- over the list of the values that other goroutines leave, and Clock.Vector the vector clock
-- (vector.go).
--
-- Metadata is internal/metadata: Metadata.Version the chunk versions (version.go), Metadata.Lease the
-- write leases (lease.go), Metadata.ChunkMap the places of replicas (chunkmap.go) and Metadata.Monitor
-- the liveness of chunk servers (heartbeat.go). The clock that the code injects is an argument.
--
-- Wal is internal/wal. Wal.Entry is the byte format of a record (entry.go), over Wal.Bytes and Wal.Crc,
-- which are what it uses of encoding/binary and hash/crc32; Wal.Recovery is the replay of one file
-- (recovery.go), on fuel that the length of the file bounds; Wal.Segments is the log of rolling segment
-- files with its recovery (wal.go, segment.go, recovery.go). A segment has its file's bytes with it. The
-- calls of package os succeed, and a crash leaves a prefix of what was being written.
--
-- Chunk is internal/chunk: Chunk.Store the content-addressed store (hasher.go, store.go) and Chunk.Gc the
-- collection of orphaned chunks (gc.go). The digest is an argument of the store, and the reference
-- checker, which the master implements, one of the collector. Chunkserver is
-- internal/chunkserver/server.go: the servers of a cluster as a map from addresses to stores, and a write
-- that is forwarded along its chain. Chunk.Gc.Timers follows a collector over its sweeps.
--
-- Client is pkg/client: Client.File the splitting of files into chunks (file.go), on fuel that the length
-- of the input bounds, and Client.Retry the retries of calls (retry.go).
--
-- Metadata.Store is store.go, over an interface of BadgerDB transactions, which Metadata.Store.Log
-- shows can be met by a log of writes; Metadata.Namespace is namespace.go, over that store and an
-- interface of encoding/json, with paths as lists of characters (Base.Chars). Its children hold what
-- Stat finds after each operation (Effects), the listing of a directory, the totals, and what every
-- sequence of operations keeps (Reach).
--
-- Master is internal/master/server.go: the state of a master and what a committed command does
-- (Master), the calls that propose a command and wait for it, each cut where it waits (Requests), and
-- those that read (Reads). Parents, Applied, Locations, Agree, Replicas, Waiting and Finalizing hold the theorems.
-- The namespace, leases, chunk map, monitor and Raft node are those of the modules above.
--
-- Client.Operations is client.go, over an interface of the calls of masters and chunk servers in which
-- each call may change the whole cluster; the retry loop is cut to the four attempts of the default
-- policy. Reading, Fallback, Writing and Durable hold its theorems.
--
-- Chunk.Replication is replication.go and heartbeat.go of internal/chunk, over an abstract sender. Programs is the reading of the options in
-- cmd/master/main.go and cmd/chunkserver/main.go, and the round of heartbeats to every master.
--
-- Numbers are natural numbers. A uint64 that is added to or subtracted from keeps its wrap-around
-- (`u64`, `sub64`); where a theorem needs that none happens, it says so. Loops are structural
-- recursions: over the list of a range loop, or over the index that a counting loop takes down. Go's
-- range over a map has no order, and the model goes through the entries of the association list.
--
-- Not modelled: the gRPC transport of Raft, goroutines and timers, metrics, TLS and
-- certificates, the command line, and the code generated from the protocol files.
pub mod Base
pub mod GoMap
pub mod Raft
pub mod Clock
pub mod Metadata
pub mod Master
pub mod Wal
pub mod Chunk
pub mod Chunkserver
pub mod Client
pub mod Programs
