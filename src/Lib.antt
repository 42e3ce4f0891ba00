-- ===== src/Lib.antt =====
-- arch_db: a key-value store with a write-ahead log and a block cache, and the SQL front end over it.
-- This library models the parts of the store that keep and recover data, and the SQL language.
--
-- The parts, and the files that model them:
--   - src/command.rs: Command. `payload` and `serialize` are `Command::serialize`; `deserialize`, with
--     its two arms `deserialize_set` and `deserialize_del`, is `Command::deserialize`. Codec, Soundness
--     and Damage prove the two directions of the format, and where reading panics.
--   - src/storage.rs: Storage. The directory is a function from segment numbers to files, a file is its
--     bytes and how many of them are durable; `new`, `append`, `rotate_segment`, `checkpoint`, `reset`
--     and `load` are the methods of `Storage`, each with the state passed on. `append` writes a frame
--     around the serialized command, and `load` reads frames and calls `deserialize`. Frames reads
--     frames back, Recovery refines the open log to a list of commands, Torn is about crashes inside a
--     write, Reopen about the next start, Bounds about sizes and durability.
--   - src/cache.rs: Cache. `get` and `put` (the method `insert`) return the new cache; `evict` is the
--     end of `insert`. Usage is about the recency list, Reads about the invariant and lookups.
--   - src/bloom_filter.rs: Bloom. `insert` and `contains` with their loops; a result `panic` is the
--     panic of the source. Bits describes the loops, Membership what the filter reports. Serde is the
--     serialized form and the construction from a rate.
--   - src/sstable.rs, with SSTableIterator of src/storage_iterator.rs and is_sorted of src/helper.rs:
--     Sstable, on the records of Value. A file is its bytes, and reading goes on from a position. Record
--     has `serialize_record` and the loop that reads a block, Block the compressed blocks and the header,
--     Index the index and the search for a block (`find_block_index`), Footer the footer (its Laws open a
--     table again), Writer the methods of `SSTableWriter` and `write_sstable`, BinarySearch
--     `binary_search_block`, Reader `search_sstable`, `read_sstable` and the
--     iterator. Under Writer, Invariant, Steps, Append and Written follow the writer from record to
--     record, and Sorted is about the order of the blocks; Lookup joins the writer and the search.
--   - src/sstable_manager.rs and src/compaction_picker.rs: Manager, over the levels of tables and the
--     files by their paths. `search_tables` is the loop of `get` over a level, `merge_all` what `compact`
--     collects from all tables, and the picks choose the inputs of a compaction. Reads is about `get`,
--     Merge about `compact`.
--     Manifest has the records of the manifest, their lines and the two files (its Lines and RoundTrip read the lines
--     back), Compaction `write_merged_tables`, its Steps the compactions that it is part of, Recovery the
--     loading of the tables in src/main.rs and `load_table_metadata`; its Orphans is about tables that the
--     manifest does not name.
--   - src/engine.rs: Engine has the part of `flush_to_sstable` that makes a table of the memtable and adds
--     it to L0; Flush joins it with the reads of the manager. Ops has the state of the engine, `put`,
--     `delete`, `flush_to_sstable` with the compaction that it starts, `shutdown`, `with_storage_path`
--     and `get_key`, each with the engine after it, also where it fails. Restart opens the log again,
--     Search, with Cached and Candidates, is about `get_key`, Flushing, with Ranges, about a flush, Limits
--     about the size of the memtable, and Orphans about tables that the manifest does not name.
--   - src/storage_iterator.rs, src/memtable_iterator.rs and src/range_iterator.rs: Iterators. The trait is a
--     record of its two methods, each with the iterator after it; Range is about a range over a memtable.
--     Merging has src/merge_iterator.rs and src/unified_storage_iterator.rs, whose heap is an ordered list.
--   - src/sql: Sql. Ast is ast.rs, Token is token.rs, Lexer is lexer.rs (a character is its code point,
--     `next_token` returns the token and the lexer after it; Progress is about where it then stands), Row
--     is row.rs (Laws is about reading a row, Text is the stored form, its RoundTrip and Separators
--     about reading it), Catalog is catalog.rs
--     (RoundTrip reads the text of a schema back, Loading is about a start), Table is
--     table.rs, Expression is expression.rs (Meaning says what a clause
--     means, Operators compares the operators).
--     Parser is sql_parser.rs: Cursor has the state and the elementary moves, Exprs the expressions,
--     Items the parts of statements, Statements the statements; Grammar is the grammar of expressions, and
--     Complete, Judgement and Sound relate the parser to it.
--   - Prelude: the tests on numbers, lists, results (error.rs), texts as UTF-8 bytes, words in
--     big-endian bytes, 64-bit signed integers, models of `HashMap` and `BTreeMap`, `split` and `join` (Text) and decimal
--     numerals (Decimal).
--   - Tests: the theorems at concrete inputs.
--
-- Parameters. `crc32fast::hash` is any function into 32-bit words (Crc32). The two runs of
-- `DefaultHasher` are any functions into 64-bit words (Hasher). `char::is_alphabetic` and
-- `char::is_whitespace` are any tests that are what they are on ASCII (CharClasses). The parser takes
-- any source of tokens. `snap` is any compression that it undoes itself, with outputs below 2 ^ 32 bytes
-- (Snappy); `bincode` on the fields of a Bloom filter is any encoding that it decodes (BloomFormat), and
-- the number of its bits is any positive function of the number of records (Sizing).
--
-- Numbers are natural numbers; an `i64` is an integer whose bound is tested where the source tests it.
-- Lengths that the source casts to `u32` are written in four bytes modulo 2 ^ 32, and sizes in memory are
-- not bounded. Loops over a directory, a file or tokens run on fuel: the number of segments, the
-- length of the file or of the block, the number of the blocks, the length of the input, and one more than
-- the number of tokens. A round takes at least a file, eight bytes, a block, a character or a token, so
-- that this is enough.
--
-- The calls of the file system succeed, but for the opening of a table, which may be missing, and reads
-- beyond its end. The files and the counter of a compaction that fails in the merge are those before it.
-- The fuel of a merge is an argument; with no more of it than the records of the tables it ends in a panic,
-- and no theorem needs that a merge succeeds. Not modelled: the end of `compact` and
-- `init_sstable_counter`; of the engine, the scans, the iterators and `execute`; `SSTableIndex::serialize`
-- and `deserialize`; the executor; the sizing of a Bloom filter by floating point; Display
-- implementations, the command line, the compaction thread, and src/schema.rs.
pub mod Prelude
pub mod Command
pub mod Storage
pub mod Cache
pub mod Bloom
pub mod Value
pub mod Sstable
pub mod Manager
pub mod Engine
pub mod Iterators
pub mod Sql
pub mod Tests
