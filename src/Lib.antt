-- ===== src/Lib.antt =====
-- The erl library of this repository (include/erl and src): reflection-based serialization,
-- message buffers, lock-free queues, remote calls, logging, and the parsers around them. This
-- development models its run-time logic and proves what makes it correct.
--
-- How the parts meet: a proxy call serializes an operation's index and its arguments
-- (include/erl/reflect) into a message buffer (include/erl/_impl/net/message/buffer.hpp), the
-- message goes through a queue (include/erl/_impl/queue), and the server loop reads it through
-- a view (include/erl/_impl/net/message/reader.hpp) and calls the service.
--
-- Base: Boolean tests, lists over the native numbers, and the law that a mask of k ones is the
-- remainder by 2^k.
--
-- Message: buffer.hpp and reader.hpp. Message.Memory is raw memory, a list of cells that are
-- written or not; Message.Hybrid is HybridBuffer with its union and its signed cursor, the
-- cursor as the bit pattern of an int32_t; undefined behaviour (an access past a block, a read
-- of the inactive union member) is none. Message.View is MessageView.
--
-- Reflect: include/erl/reflect. Reflect.Types lists what a specialisation of Reflect covers,
-- Reflect.Code has serialize and deserialize with one clause for each, over any buffer that
-- obeys the laws of Reflect.Target, and Reflect.Encoding is the wire format that they are held
-- to. The byte order of the host and the compiler's sizeof are parameters; the size of an array
-- is at least 1, as it is for every array of C++.
--
-- Queues: include/erl/_impl/queue. Queues.Spsc is BoundedSPSC run one operation at a time;
-- Queues.Mpmc is BoundedMPMC as the steps of any number of threads, its positions counted
-- without wrap-around; Queues.Basic is BasicQueue under its lock, and Queues.Retry the loops of
-- QueueBase around any queue that behaves as a bounded list; Queues.Spsc.Blocking is
-- BoundedSPSC as such a queue. Queues.Spsc.Concurrent takes try_push and try_pop apart into the
-- steps of two threads, both over sequentially consistent memory: the acquire and release
-- orders of the source give each thread the other's writes before the position that announces
-- them, which is what the steps use.
--
-- Rpc: include/erl/rpc, include/erl/_impl/rpc and the channel ends of include/erl/_impl/net.
-- Rpc.Messages builds and reads the messages of RPCProtocol, Rpc.Dispatch is the way from a
-- message to the member function, Rpc.Channel has the client's call and the server's loop,
-- Rpc.Policy the numbering of the remote members, and Rpc.Policies the three policies over what
-- the compiler says of a service (Meta.Info). A call ends with a value, with std::out_of_range
-- or in undefined behaviour (Rpc.Outcome). Rpc.Message is what the protocol asks of its message
-- type, and Rpc.Hybrid shows that HybridBuffer gives it.
--
-- Expect: include/erl/_impl/expect.hpp. Expect.Expr has the expression trees with their
-- evaluation, their printing and the transformation of chained comparisons, Expect.Verbose the
-- evaluation that records the failed terms. Both take the values and the operators on them as
-- parameters; Expect.Evaluate has the operators on operands that are an unsigned or a bool; a
-- result of another type, such as the int of an arithmetic on two bools, is not taken further.
--
-- Logging: include/erl/_impl/log and src/logging/logger.cpp. Logging.Service is LoggingService
-- with its sinks and its table of threads (Logging.Threads), Logging.Remote its members as
-- remote calls, Logging.Calls the histories of calls that Logging.History compares its table
-- with. Logging.Color is include/erl/_impl/log/format/color.hpp, Logging.Line the making of a
-- line in include/erl/_impl/log/format/log.hpp, and Logging.Terminal the sink of
-- include/erl/_impl/log/sinks/terminal.hpp.
--
-- Args: include/erl/args and include/erl/_impl/config/args.hpp. Args.Parser reads a command
-- line by a specification; a reading ends with what the settings object is built from, with a
-- message and an exit (a constraint that refuses a value among them), or in undefined behaviour
-- (Args.Outcome). Args.Render and Args.Lines write command lines out, and Args.Refused has
-- those with a refused value. Args.Make makes the specification from the members of a type,
-- Args.Values turns texts into values, checks their constraints and calls the handlers, and
-- Args.Construct is include/erl/_impl/config/default_construct.hpp: a type is the number of its
-- required members beside what is given for them.
--
-- Trie: include/erl/_impl/util/trie.hpp. Trie.Tree is ParsedState::make, none being a read past
-- the end of a word, and Trie.Lookup the conversion of the tree to states and the lookup of
-- State and Root. A vector of states and a pack of them are one type, a state with what stands
-- behind it.
--
-- Format: include/erl/_impl/format/named.hpp on the Parser of include/erl/_impl/util/parser.hpp
-- (Format.Scan). Format.Fields is the body of the loop of do_parse, Format.Loop the loop and
-- the rendering, Format.Accessor the accessors of parts of an argument; an access out of
-- bounds, which no constant evaluation gets past, is an outcome of its own.
--
-- Meta: include/erl/_impl/util/meta.hpp. Meta.Info is what the compiler answers, a parameter of
-- every model that asks; Meta.Members are the queries of the repository on top of it.
--
-- Util: include/erl/_impl/util. Util.Operators and Util.Hash are the spellings of the operators
-- and the hash that the reading of them switches on, Util.Strings the decimal numbers.
--
-- Bounds: the digits of a number are taken with a fuel of 20, the digits of the largest 64-bit
-- number; the loop over the options has a round for each argument of the command line, the loop
-- over a format string one for each character, and the loop of a word into the tree one for
-- each of its characters; no other fuel is used. A buffer's size is at most 2^31 - 2, the
-- largest whose complement a signed 32-bit cursor holds without overflow on negation, and a
-- realloc to the size 0 is none, since its result is not defined; an array that is read has
-- fewer than 2^32 elements, which its loop counts; the capacity 2^k of a queue with one
-- producer is below 2^64, and a run of the other queue hands out fewer than 2^63 positions,
-- where the signed differences of the source are exact.
--
-- Not modelled: who owns a heap block (memory is compared by content), memory orders weaker
-- than sequential consistency, what the compiler answers to reflection, sockets and dynamic
-- libraries.
pub mod Base
pub mod Message
pub mod Reflect
pub mod Queues
pub mod Rpc
pub mod Util
pub mod Expect
pub mod Logging
pub mod Args
pub mod Trie
pub mod Meta
pub mod Format
