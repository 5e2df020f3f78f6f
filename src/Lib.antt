-- ===== src/Lib.antt =====
-- Verification library of node_reqwest, an undici-compatible HTTP dispatcher over reqwest.
--
-- The program: packages/core holds the agent, which admits requests, runs each as a future and
-- drains or cancels them on close and destroy; packages/node binds it to JavaScript; packages/meta
-- derives the version at build time. A caller's `dispatch` gives a controller and a future. The
-- future calls a handler; controller and agent reach it through a cancellation token and a pause
-- signal, and a guard in the future keeps the agent's count of active requests.
--
-- Where the parts are modelled:
-- * Error (packages/core/src/error.rs): `CoreError`; Error/Message has `cap_message_len` and
--   `error_chain`, Error/Reqwest `from_reqwest`.
-- * Dispatcher (packages/core/src/dispatcher.rs): options and response start; Dispatcher/Method has
--   `parse_method`, Dispatcher/Pause `PauseState`, Dispatcher/Controller `RequestController`.
-- * Agent/Request (packages/core/src/agent.rs, `execute_request`): the async body as a machine.
--   `poll` moves a request from one await point to the next, given the shared signals and what its
--   I/O futures give (`Io`); it returns the callbacks made. Agent/Request/Flight puts the
--   controller's calls and the steps of `destroy` between the polls.
-- * Agent/Lifecycle (packages/core/src/agent.rs): `AgentState` as `Shared`, and `dispatch`, the
--   guard's `drop`, `close`, `destroy` and `wait_for_idle` as tasks. A `Move` is one access to the
--   shared state, a `Step` a move of any task or a new call, so that every interleaving is a run.
--   A caller's `abort` comes between. Lifecycle/Gate is the specification of admission and waiting
--   that Gate/Refines compares it with.
-- * Agent/World puts both together: each request that is in flight has its exchange, shares its token
--   with the agent and its pause state with the controller, and a `Turn` is an access, a poll, the
--   end or the drop of a future, or a call on a controller.
-- * Agent (packages/core/src/agent.rs): the configuration types; Agent/Build has `Agent::new`.
-- * Meta/Version (packages/meta/src/lib.rs): `Version`, its `Display` and its parser. Meta/Describe
--   (packages/meta/build.rs): `get_version`, with the results of the git calls as a
--   parameter; Meta/Package (lib.rs): `npm_version`; Meta/Resource (lib.rs): `cdylib_win_rc` as the
--   calls that it makes on the resource; Meta/Release: `main` of build.rs, of src/bin/npm_version.rs
--   and of packages/node/build.rs, one after another.
-- * Node/Js has what the addon uses of neon and num_traits. Node/FfiUtil, Node/Dispatch and
--   Node/Create (packages/node/src/ffi_util.rs, dispatch.rs and agent.rs) read option objects,
--   Node/Body (body.rs) streams a request body, Node/Handler (handler.rs) turns the callbacks of
--   Agent/Request into calls of JavaScript functions, and Node/Entry (agent.rs) has
--   `agent_dispatch` and the functions of a request handle. Node/Promise has `agent_close` and
--   `agent_destroy`, whose promises are settled while the world of Agent/World runs on. Node/Startup
--   (lib.rs) has the runtime of the process, and Node/Handler/AnyOrder a header map without an order;
--   Node/Handler/Echo follows header options to the lines of a request and back from a response.
-- * Runtime holds what the crates use of tokio and tokio-util, as interfaces with documented laws, each
--   with a plain implementation for the examples. Prelude: shared names and lemmas.
--
-- Conventions: a string is the list of its UTF-8 bytes; a 64-bit counter wraps or saturates as
-- written, and `Version::parse` is given whether its profile checks overflow; a hash map is a list
-- in the order in which it is walked; durations are milliseconds.
-- The only bound is on the calls made of one agent: `Step.enter` keeps their number below 2^64,
-- which memory does in the program. Loops recur on the text, the list or the counter that they walk,
-- and none needs fuel but decimal printing, where the number itself is enough.
--
-- Not modelled: the network, TLS, timers and the thread scheduler, which enter as inputs or as the
-- choice of the next step; memory order below the level of atomic accesses, which are taken one after
-- another; a panic that poisons a mutex, since the code recovers the guard, or that is caught in a
-- callback; a getter of an option object that changes other options; the end of the JavaScript
-- environment, in which a promise can no longer be settled; the resource compiler and neon's build
-- helper; the allocator; the TypeScript side.
mod Prelude
pub mod Runtime
pub mod Error
pub mod Dispatcher
pub mod Agent
pub mod Meta
pub mod Node
