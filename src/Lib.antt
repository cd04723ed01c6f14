-- ===== src/Lib.antt =====
-- rediscoro: a client for Redis over C++20 coroutines. The code stands under include/rediscoro/ of the
-- repository, where the paths below begin.
--
-- A request is encoded to RESP3 and waits in the pipeline (detail/pipeline.hpp) to be written;
-- once it is written, its sink (detail/response_sink.hpp, detail/pending_response.hpp) waits for its replies. Bytes
-- that are received go into the parser's buffer (resp3/buffer.hpp); the parser (resp3/parser.hpp,
-- resp3/impl/parser.ipp) makes a raw tree (resp3/raw.hpp) of them, a message is built from the tree, and the
-- pipeline gives it to the sink at the front.
--
-- Files and code:
--   Prelude    lists over native numbers, 64-bit integers, Boolean tests, Option with its chain.
--   Ring       detail/ring_queue.hpp. Storage is a list of cells, a cell without an element is `none`; sizes wrap at
--              2 ^ 64. The history theorem takes fewer than 2 ^ 61 elements, so that no allocation wraps.
--   Errors     error.hpp, error_info.hpp and the predicates of impl/error.ipp.
--   Resp3      Kind is resp3/kind.hpp; Buffer is resp3/buffer.hpp; Raw is resp3/raw.hpp; Message is resp3/value.hpp
--              and resp3/message.hpp; Builder is resp3/builder.hpp, whose loop takes its fuel as an argument;
--              Scan is namespace detail of resp3/impl/parser.ipp; Parser is the class `parser`.
--   Request    request.hpp, the argv form of a command; 20 digits are enough for a size below 2 ^ 64.
--   Sink       detail/response_builder.hpp, detail/response_sink.hpp and detail/pending_response.hpp, the builder
--              and the sink for a number of replies known at run time.
--   Adapter    adapter/: Error is adapter/error.hpp, Scalar and Containers are the adapters of adapter/detail/, with
--              `adapt<V>` of the inner type as an argument, and Dispatch is adapter/adapt.hpp over a data type of the
--              types that can be asked for; a map is the list of its entries, with the container's test for keys.
--   Typed      detail/response_builder.hpp and detail/pending_response.hpp again, the builder and the sink for several
--              types, each one a target of the adapters; the dispatch tables are a recursion over the types.
--   Pipeline   detail/pipeline.hpp and impl/pipeline.ipp.
--   Intake     impl/connection/core.ipp, `enqueue_impl`, with detail/connection_state.hpp.
--   Connection impl/connection/: State is detail/connection.hpp with handle_error, close and transition_to_closed;
--              Runtime is what io.ipp and actor_loops.ipp do between two waits; Attempt is connect.ipp from one wait
--              to the next; Owners is what connect, do_reconnect and run_actor make of its end. Life puts these
--              together in a step relation, where what the network, the resolver and the clock answer is an argument
--              of the step; Moves has the diagram of the states. Policy is reconnection_policy of config.hpp with
--              the delay that it gives. Receive is `do_read`, from the bytes that were received, through the parser
--              and the builder, to the sinks; Receive.Steps relates it to the steps of Life.
--
-- How state is written: an operation takes the state and gives the next one; `none` is a failed assertion or an
-- index out of range, and a result of the code that is an error is a value (`fails`). A vector that moves gets a new
-- block number, so a `string_view` (`View`) into the old block reads as `none`. Sinks are shared between the
-- pipeline and the coroutine that waits, so they stand in a store and items hold their place in it. The pipeline's
-- two queues are lists, which the history theorem of Ring lets stand for the ring.
--
-- Fuel: the loop of `parse_one` has twice the unread bytes and two more, since each turn consumes a byte or puts a
-- value frame on top; `fail_all` has the number of open slots; the growth loops have 64 rounds, one for each bit of
-- a size; the loop of `do_read` needs more rounds than bytes were received. That this fuel is enough is part of
-- what is proved.
--
-- Parameters: `std::from_chars` into a double (`from_chars_f64`); `adapter::adapt<T>` for the reply's type
-- (`adapt`); `clock::now()` (`now`); `double` with its operations and `std::llround` (`Doubles`), as far as the
-- policy of reconnection uses them.
--
-- Not modelled: input and output, coroutines and executors, logging, the loop of the handshake over the parser (its
-- messages are single steps), the wait for the delay of a reconnection, exceptions in the actor's loops. The sinks
-- of a connection have one type of reply, also that of the handshake. The step relation of Life leaves out five orders
-- that the code has: a read or a write of the runtime loops that ends well during an attempt, `connect` in FAILED or
-- RECONNECTING, `connect` while an earlier attempt is in flight, `connect` between CLOSED and the completion of the
-- actor (which breaks the diagram, as a test shows), and an actor that throws. That of the pipeline leaves out
-- requests without commands, which enqueue_dynamic takes and whose sinks never complete, as a test shows.
pub mod Prelude
pub mod Ring
pub mod Adapter
pub mod Errors
pub mod Resp3
pub mod Sink
pub mod Pipeline
pub mod Typed
pub mod Intake
pub mod Connection
pub mod Request
