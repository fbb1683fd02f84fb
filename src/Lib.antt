-- ===== src/Lib.antt =====
-- Tonbo is an embedded storage engine: a log-structured merge tree whose tables are Parquet files. A
-- write goes to the write-ahead log and to a mutable table in memory; full tables are frozen, flushed
-- to files of level 0 and merged into deeper levels by compaction. Each write has a timestamp, and a
-- read is of a snapshot: it sees the newest version of each key up to its timestamp.
--
-- What models which part, from the root of the repository:
-- - Key, Timestamp: the total order of keys (src/record/key/mod.rs) and of their versions, by key and
--   the newest first (src/version/timestamp.rs: Timestamp, Ts).
-- - OrderedMap: the ordered maps. crossbeam's SkipMap is an argument, with the laws of a map that is in
--   order; OrderedMap.Tree is std's BTreeMap, as a list in order, and `range_panics` says where its range
--   panics.
-- - Memtable: src/inmem/mutable.rs (MutableMemTable::append, get, scan, check_conflict), the log types
--   of src/wal/log.rs and the triggers of src/trigger.rs. The log file is an argument, `write`.
-- - Storage: DbStorage::get and check_conflict of src/lib.rs over the mutable table, the immutable ones
--   (src/inmem/immutable.rs) and the version; Snapshot::get of src/snapshot.rs. The conflicts of a
--   storage are those of timestamps before the last one: at it, an immutable table panics
--   (`immutable_conflict`).
-- - Transaction: src/transaction.rs, the local writes, get and commit. `commit` passes the storage and
--   the version on; it is one step, since the program holds the locks of all its keys.
-- - Recovery: the replay of the write-ahead logs in DbStorage::new of src/lib.rs.
-- - Stream, Stream.Merge: src/stream/merge.rs, the heap of the heads of streams, as the list of what it
--   holds; the streams are lists of results. The loops recurse on fuel, of which the number of entries
--   that are left is enough, since each round takes one.
-- - Storage.Freeze: ImmutableMemTable::new of src/inmem/immutable.rs, over a `BTreeMap` as a list.
-- - Scope: src/scope.rs, the key range of a table. Version: the search of a key in the levels
--   (src/version/mod.rs), where `table_query`, the read of one file, is an argument. Its binary search
--   recurses on the length of the level as fuel, which each round at least halves.
-- - Compaction.Building: build_tables, build_table and minor_compaction of src/compaction/mod.rs, over
--   the merge of the rows; the Arrow builder (`written_size`) and the file (`write`) are arguments.
-- - Compaction.Leveled: src/compaction/leveled.rs, the choice of the tables and the edits that a
--   compaction makes; the building of tables is an argument.
-- - Compaction.Tiered: src/compaction/tiered.rs, the loop of its major compactions with the update of
--   the manifest; the loop recurses on fuel, and there always is enough of it.
-- - VersionSet: src/version/set.rs, the replay of edits to a version, the log of the edits, its
--   rewriting, and the choice of a log when the program starts (VersionSet.Logs). The unstable sort of
--   a slice and itertools' merge_by are arguments, the record SliceOps; `apply_edits` has no result
--   where it panics, on an edit of a level that there is not.
-- - Cleaner: src/version/cleaner.rs, the tags and the files that they remove.
-- - Codec: the encodings of timestamps and versioned keys (src/version/timestamp.rs), of scopes
--   (src/scope.rs), of edits (src/version/edit.rs) and of log records (src/wal/log.rs), over the codecs
--   of scalars, keys and records, which are arguments.
-- - Value: src/record/dynamic/value, the values of dynamic records: their order and equality, the
--   borrowed ones, and their encoding. A type or a value is decoded, and a nested array read, on fuel,
--   of which the depth of the lists is enough.
-- - Prelude: the names and lemmas that these share.
--
-- How they interact: a scan merges, with Stream.Merge, streams of the memory and of the files; a point
-- read asks Memtable by Storage, and then Version; a commit asks Storage for conflicts, takes its
-- timestamp from the version and appends to Memtable; a flush (minor_compaction) or a compaction makes
-- edits (Version.Edit), which VersionSet applies; the files that it removes go to the Cleaner. A key is
-- any type with the order of Key.
--
-- Not modelled: files, Parquet, Arrow and projections, which are input and output; executors, locks
-- and channels, of which only the order of steps is kept; the draining of the immutable tables before
-- a flush (src/inmem/flush.rs), the streams of a level and the packaging of rows (src/stream), the
-- casts of dynamic values (src/record/dynamic/value/cast.rs) and the records over them; the bindings,
-- macros, benchmarks and examples.
--
-- The numbers are natural numbers; timestamps, lengths and the counters of the triggers wrap around
-- where the program's do, with the width written out.
pub mod Prelude
pub mod Key
pub mod Timestamp
pub mod Stream
pub mod Scope
pub mod Version
pub mod Compaction
pub mod VersionSet
pub mod OrderedMap
pub mod Memtable
pub mod Storage
pub mod Transaction
pub mod Recovery
pub mod Cleaner
pub mod Codec
pub mod Value
