-- ===== src/Lib.antt =====
-- A model of the C++ core of pomagma, an inference engine for extensional untyped λ-calculus, with
-- proofs about it. The engine saturates a finite algebraic structure: obs that are proved equal are
-- merged, the merged obs are scheduled, and a scheduler moves the tables of all functions and
-- relations from the merged obs to their representatives before it removes those obs.
--
-- What is modelled, file by file (the paths are from the repository's root):
-- - Word: the 64-bit words and constants of pomagma/util/util.hpp and the bit references of
--   pomagma/util/sequential/bool_ref.hpp. Words are natural numbers below 2 ^ 64.
-- - DenseSet: pomagma/util/sequential/dense_set.hpp and dense_set.cpp. A set is its item_dim and its
--   list of words. DenseSet has the operations on one item, DenseSet/Whole those on whole sets,
--   DenseSet/Scan those that scan the words (count_items, max_item, insert_one, insert_all,
--   validate), DenseSet/Iter the class SetIterator with its Intersections. The other children
--   hold the proofs: an operation word by word is one item by item.
-- - Carrier: pomagma/atlas/macro/carrier.hpp and carrier.cpp. The state is the support, the counts,
--   the array of parents, and the list of calls of the merge callback. Carrier/Root has the
--   specification: the representative that an array of parents leads to. Carrier/Classes states
--   the merges on the partition of the obs that the carrier stands for.
-- - NullaryFunction, InjectiveFunction, UnaryRelation, BinaryRelation: the files of these names in
--   pomagma/atlas/macro. Their operations take the carrier and return it where they can merge obs of
--   it. InjectiveFunction/Mutual has the invariant: a function and its inverse up to equality.
--   BinaryRelation also has the two tables of lines of base_bin_rel.hpp, one the transpose of the
--   other.
-- - BinaryFunction, SymmetricFunction: the operations of binary_function.hpp and
--   symmetric_function.hpp in pomagma/atlas/macro, with their lines. A value table is a list of pairs.
-- - Program: the instructions of the virtual machine with the types of their arguments, from
--   pomagma/atlas/program.hpp, and in Program/Floats the 8-bit numbers of SEQUENCE from program.cpp.
-- - Parser: the class ProgramParser of pomagma/atlas/program_fwd.hpp and program.cpp, which makes the bytes
--   of programs and their listings from text. Parser/Lines has `parse`, Parser/Symbols is about the
--   class SymbolTable.
-- - Vm: pomagma/atlas/vm.hpp and vm_impl.hpp, the interpreter of those programs, over an interface of
--   tables, the record Structure. Vm/Loop has the loops over sets, Vm/Steps and Vm/Functions the
--   instructions, Vm/Execute the switch over them. Vm/Total is about whole programs, Vm/Fold about
--   loops. Tables fills the interface with the tables of the macro atlas,
--   and Tables/Counts is about programs on those.
-- - Agenda: the class Agenda of pomagma/atlas/vm.hpp and vm_impl.hpp: the programs that run on each event,
--   in Agenda/Run by the virtual machine, and the cleanup tasks with the blocks of obs they go through.
-- - Queue: pomagma/util/queue.hpp and queue.cpp, VectorQueue and FileBackedQueue. Queue/Fifo is their
--   contract, a first-in first-out queue of messages.
-- - DenseSetStore: pomagma/util/dense_set_store.hpp and dense_set_store.cpp, sets stored by fingerprint.
-- - Scheduler: the merge queue of pomagma/atlas/macro/scheduler.cpp, a set and a deque.
-- - Mergers: process_mergers of the same file, over the tables of all kinds.
-- - Syntax: pomagma/solver/syntax.hpp and syntax.cpp, terms and literals made by hash-consing.
--   Syntax/Check has assert_valid, with the introductions of a release build and of one
--   with a POMAGMA_DEBUG_LEVEL of at least 1.
-- - Prelude: lists with native indices, Boolean tests, counting, unordered_map as a list of pairs.
--   Each component's child Examples holds its tests and concrete instances of its theorems.
--
-- How it is modelled. Assertions of debug builds are no part of the operations; the theorems take
-- what they assert as hypotheses. An assertion of all builds is the result `none`. State is passed
-- on explicitly. Loops whose number of rounds is not in sight run on fuel, and `none` is a round
-- too many: `find` of an ob has the fuel ob + 1 and `merge` has dep + rep + 1, since each round
-- goes to a smaller ob; `insert_one` runs through the words of the set; an iterator takes at most
-- 64 rounds in a word, and a loop over it at most item_dim + 1; `ivar` makes rank + 1 variables. The
-- theorems on these operations state the result `some ...`, so that the fuel is enough. Counts wrap
-- around at 2 ^ 64, terms at 2 ^ 32, literals at 2 ^ 31 with a sign.
--
-- Where the code counts an ob, a term or a literal of 32 bits up to a bound with `<=`, the model's
-- counter wraps around as the code's does, and the loop has fuel for the rounds up to the bound and one
-- more. At the greatest bound the code never ends; the theorems on these loops exclude it.
--
-- The virtual machine takes one byte more of fuel than the program has bytes, and a loop of it
-- 64 * word_dim + 1 rounds; running out is the fault `no_fuel`, and so is an iterator or a merge of the
-- carrier that runs out of its own fuel. The parser's names of functions and
-- constants, `atoi` and the fingerprint of a set store are parameters. The file behind a queue is a
-- list of bytes, and its reads and writes do not fail. The fuel of process_mergers is one more than the
-- queued obs and the representatives together, since each further round takes the call of one merge;
-- that it is enough is not proved.
--
-- What is not modelled: logging, timing, messages and random generators, which are input and output;
-- locks (the writers of a carrier are serialized by a mutex, and a model runs one at a time); the
-- variants for many threads in pomagma/atlas/micro and pomagma/util/concurrent, with the inverse
-- indices of functions that they have; the files of structures and the sampler; the analyst, the
-- cartographer, the surveyor and the theorist; the Python parts.
pub mod Prelude
pub mod Word
pub mod DenseSet
pub mod Carrier
pub mod Agenda
pub mod BinaryFunction
pub mod BinaryRelation
pub mod DenseSetStore
pub mod InjectiveFunction
pub mod Mergers
pub mod NullaryFunction
pub mod Parser
pub mod Program
pub mod Queue
pub mod Scheduler
pub mod SymmetricFunction
pub mod Syntax
pub mod Tables
pub mod UnaryRelation
pub mod Vm
