-- ===== src/Lib.antt =====
-- FPTL: the compilation and the execution of functional schemes.
--
-- A program of the language is parsed to a syntax tree, and a generator of schemes
-- (Source/FScheme/FSchemeGenerator.cpp) makes a functional scheme of it, a tree of nodes with calls of
-- other schemes. A generator (Source/InternalForm/Generator.cpp) turns it to an internal form, code
-- in continuation passing style, and the classes of the internal form (InternalForm.cpp) run on an
-- execution context (Source/Evaluator/Context.cpp) with a stack of tuples and a control stack.
-- Where both operands of a parallel composition are long, the right one becomes a task of an
-- evaluator unit (EvaluatorUnit.cpp), and the left one's code ends in a join.
--
-- The files, and what they model:
--   Vector: elements of a vector moved down in place, and resize.
--   WorkQueue: Source/Evaluator/LockFreeWorkStealingQueue.h, its operations one after the other.
--   WorkQueue/Threads: the same with the owner and any number of thieves at once, an access to a
--     shared variable at a time. A state is followed by any state that one access leads to.
--   Value: DataValue of Source/DataTypes/Values/DataValue.h.
--   Ops: the classes of operations of Source/DataTypes/Ops: conversions, arithmetic, comparisons.
--   Frame: the stack of an execution context, with getArg, push, advance and unwind.
--   Scheme: the nodes of Source/FScheme/FScheme.h with the flag isLong of their constructors. A
--     pointer to an FScheme object is its index in the program.
--   Form: the classes of Source/InternalForm/InternalForm.h, ControlValue, and zeroing.
--   Evaluator: execution contexts by address, the queues of a unit, spawn, addForkJob,
--     moveToMainOrder and cancel.
--   Exec: exec of every class, join, run, schedule and cancelFromPendingEnd; Exec/Steps has what
--     each class does to the context before it goes on.
--   Generator: visit, createSpan and generate, and the code of a node without the bookkeeping of
--     the table of functions (`span`).
--   Adt: types and the matching of type parameters (Source/DataTypes/TypeInfo.cpp), constructors and
--     destructors (Source/DataTypes/Ops/ADTValue.cpp).
--   Library: the standard, logic and arithmetic libraries of Source/Libraries and the table of
--     functions by name; Library/Strings: StringLib.cpp.
--   Constructors: the constructors of the data blocks (Source/FScheme/ConstructorGenerator.cpp), with
--     the order of the visitor in Source/Parser/NodeVisitor.cpp. Declared and Whole say what the blocks
--     declare, Lookup is about the map of constructors.
--   Builder: the generator of schemes (Source/FScheme/FSchemeGenerator.cpp) on expressions, whose nodes
--     under way are a stack; Meaning says what an expression means, Made is about its node, and Run puts
--     the generator before the others.
--   Gc: the garbage collector of Source/GC. Gc has the marking, with the mark of the classes of
--     operations, and the tracing; Gc/Collector the heaps, runGc and the round of the collector's
--     thread; Gc/Stops how the threads stop for the scan of the roots, a step at a time. Reach says
--     what can be found, Marks, Trace, Measure and Ends are about the tracing, Sweep and Job
--     about the round of a job, young or full, Calm, Rounds and Runs about collections one after the
--     other. The mark stack, the roots and the flags of the objects are those of the source; an object
--     is its address.
--   CommandLine: the test of the options and the settings of the collector that they give
--     (Source/Parser/CommandLineParser.cpp, CommandLineParser.h).
--   Names: the check of names on the syntax tree (Source/Parser/Semantic.cpp, SemanticCheck.h); what
--     it keeps at a name (Bindings), around a block (Blocks) and over a tree (Whole).
--   Interpreter: a program as the only job of an evaluator, of Source/Evaluator/Run.cpp.
--   Semantics: the meaning of a node as a function on tuples, the specification.
--   Correct: that the code does what the node means. Its parts are the functions of a fuel that
--     settle (Settles), what running a piece of code is (Run, Goal), one module for each group of
--     classes (Leaf, Compose, Branch, Fork, Tuples, Predicate, Cases), the induction on the node
--     (Simulation), the run of a program (Whole), and the generator with its table of functions (Table, Measure, Nodes, Visit, Generate).
--
-- A basic function (TFunction) is a function on the stack that may throw. The theorems on whole
-- nodes ask that it works on its argument tuple only (`IsLocal`), which Library/Local,
-- Library/Tables and Library/Source are about. What the operations use of the C++ library, such as the arithmetic on
-- doubles, <cmath>, <regex> and boost::lexical_cast, is a parameter (`Foreign`). An overflow of
-- int64_t is undefined in C++, and so a fault. An exception is its kind, with the position and the
-- name that callFn and TryGetArg add; undefined behaviour of the source is the exception `fault`.
-- Integers of type size_t wrap around where the source subtracts, and where getArg counts the index of
-- a missing argument from 1.
--
-- The machine need not stop, so exec, join, wait, schedule and run take fuel, which bounds the depth
-- of their calls. `Settles` says that from some fuel on the result is the same. The loop of
-- TryGetArg runs on fuel two more than the number of arguments. The fuel of `eval` bounds the depth of the calls of schemes.
--
-- The tracing of the collector runs on fuel, a round for each value that it takes from the stack;
-- as many rounds as there are values on the stack and in unmarked objects are enough. The values of
-- the program in Gc are pointers to objects; the other files take values as they are, without a heap.
--
-- The model has one evaluator unit. The theorems on runs are for units without proactive tasks,
-- while the definitions cover them. The queue of jobs is a list there, the newest first; WorkQueue
-- has it as the vector of the source. Not modelled: stealing between units, the reorderings of memory
-- accesses that acquire and release alone allow, what the program does to arrays while the
-- collector's thread traces them, the parser, the search for recursive types, function blocks and functional parameters in the generator of schemes, the libraries for
-- arrays, files and time, printing and random numbers, input, output, the reading of the
-- command line and statistics.
pub mod Prelude
pub mod Vector
pub mod WorkQueue
pub mod Value
pub mod Ops
pub mod Frame
pub mod Scheme
pub mod Form
pub mod Evaluator
pub mod Exec
pub mod Semantics
pub mod Generator
pub mod Adt
pub mod Library
pub mod Constructors
pub mod Builder
pub mod Gc
pub mod Names
pub mod CommandLine
pub mod Interpreter
pub mod Correct
