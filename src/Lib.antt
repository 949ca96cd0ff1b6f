-- ===== src/Lib.antt =====
-- toyDB, a distributed SQL database: its storage, its consensus, and values, expressions, the
-- folding of constants, joins and aggregation of its SQL.
--
-- The parts and their files:
--   Error          src/error.rs: the error values, without their messages. A `Result` has a third
--                  outcome, `panic`, for a failed assertion.
--   Exec           methods that change an object: `Exec S A` takes the object and gives the outcome
--                  and the object, also after an error, since what was written stays written.
--   Encoding       src/encoding: Bytes has byte strings, their order and ranges; Keycode is
--                  src/encoding/keycode.rs (byte strings, integers, floats, booleans, enum variants,
--                  prefix ranges); Codec stands for the bincode crate, a parameter with its
--                  round-trip law.
--   Storage        src/storage: BTreeMap is the ordered map of the standard library as an
--                  association list in ascending order, Memory is src/storage/memory.rs with the
--                  trait of src/storage/engine.rs, Mvcc is src/storage/mvcc.rs. An operation on a
--                  transaction takes its `TransactionState` and the engine behind the mutex;
--                  `delete` and `set` are `delete_key` and `set_key`. Its `Scan` has
--                  `ScanIterator`, each call of which takes the engine as it is then, and
--                  `VersionIterator`; the buffer size is a parameter. BitCask is
--                  src/storage/bitcask.rs, its file a list of bytes; `scan_log` is the loop of
--                  `Log::build_keydir`.
--   Raft           src/raft: Log is src/raft/log.rs, over a Memory engine; Message is
--                  src/raft/message.rs; Node is src/raft/node.rs. In Node, Raw has what a node
--                  keeps in every role, and Candidate, Follower, Leader and Roles have the methods
--                  of `RawNode<Candidate>`, `RawNode<Follower>`, `RawNode<Leader>` and `Node`.
--                  Messages that are sent are appended to `tx`.
--   Sql            src/sql: Types.Value and Types.Expression are the files of src/sql/types with
--                  these names; Types.Operators has the arms of `Expression::evaluate`. Execution.Join
--                  and Execution.HashJoin are src/sql/execution/join.rs, with a source as the list
--                  of what it returns, and Execution.Aggregator is
--                  src/sql/execution/aggregator.rs. Types.Order is the order of values in
--                  src/sql/types/value.rs, Planner.Aggregate is from src/sql/planner/plan.rs, and
--                  Planner.ConstantFolding is the optimizer with this name in
--                  src/sql/planner/optimizer.rs.
--   Prelude        names of the libraries, tests on numbers, and lists.
--
-- How they interact: MVCC and the Raft log run on an engine; keys of both are Keycode, values are
-- bincode. A node owns a log and a state machine, and answers messages with messages.
--
-- Parameters: the bincode crate (a `Codec` for each stored type), the state machine behind the
-- `State` trait and the random election timeouts (`Environment`), the 64-bit floating-point
-- numbers (`Floats`), the matching of LIKE by the regex crate, the sameness of the keys of a hash
-- map, and the comparison of the garbage of a log file with its threshold.
--
-- Bounds: a 64-bit counter wraps at 2 ^ 64 and a tick counter at 256, as in a release build; where
-- a result needs a counter not to run out, it says so. The negation of an integer wraps too, and
-- the exponent of a float's integer power is cut to 32 bits. Most loops run over a list or count
-- down; a later term in `step` is adopted once, after which the message is of the current term.
-- Five have fuel, and panic when it runs out: `scan_log` has the length of the file, of which each
-- round reads eight bytes; `transform` and `pop_ands` have the number of nodes of the expressions;
-- `fill_loop` has one round more than the entries that it scans; `collect` of a join or a scan,
-- which is what gathers the rows of an iterator, has a bound on its calls.
--
-- Not modelled: the lexer, parser, planner and engine of SQL, the optimizers but the constant
-- folding, `shift_column`, the display of values, and the network and terminal
-- programs. The file system does not fail, so `flush` does nothing.
pub mod Prelude
pub mod Error
pub mod Exec
pub mod Encoding
pub mod Storage
pub mod Raft
pub mod Sql
