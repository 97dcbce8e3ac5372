-- ===== src/Lib.antt =====
-- Verification library of lgtv_manager, a manager of connections to LG webOS TVs.
--
-- The program. A caller sends `ManagerMessage`s to an `LgTvManager` and receives
-- `ManagerOutputMessage`s from it. The manager's loop (`run` in src/lgtv_manager.rs) waits for four
-- sources: the caller, a state machine in a task of its own (src/state_machine.rs), the handler of a
-- WebSocket in another task (src/websocket_client.rs) and a task that pings the TV
-- (src/tv_network_check.rs). A discovery of TVs (src/discovery.rs) runs in a task that reports to the
-- caller itself. What the manager may do next is the state machine's to say: the
-- manager sends it inputs and acts on its outputs. Beside it the manager keeps a reconnect flow,
-- which decides whether a lost connection is made again, and a file with the last TV's details.
--
-- The files.
--   Prelude: shared names of the libraries; Prelude/Channel: the sender of a tokio channel;
--     Prelude/Strings: the lines and words of Rust's `str`; Prelude/Subseq: parts of a list.
--   Environment: the record `Env` of everything outside the repository: the crates url, macaddr,
--     serde_json, uuid, directories and wol, the file system and the texts that `{:?}` derives.
--   Connection, Ssap, TvCommand: the types of src/connection_settings.rs, src/discovery.rs
--     (`LgTvDevice`), src/ssap_payloads.rs, src/state.rs and src/tv_commands.rs; TvCommand/Request:
--     the request that each command is sent as; TvCommand/Decoding: what a TV reads from it;
--     Connection/Builder: the builder of the settings.
--   Display: the texts of the `Display` implementations.
--   Helpers: the functions of src/helpers.rs under their own names; Helpers/Falloff is about
--     `reconnect_falloff`, Helpers/Urls about `generate_possible_websocket_url`.
--   StateMachine: `transition` and `output` of src/state_machine.rs; StateMachine/Diagram: the
--     documented diagram; StateMachine/Paths: runs over inputs; StateMachine/Task: the task of
--     `start_state_machine`, over the crate rust_fsm as a parameter; StateMachine/Task/Replies: what
--     the manager hears of it.
--   Manager/Messages, Manager/State: the types and the fields of `LgTvManager`.
--   Manager/Senders: src/lgtv_manager/message_senders.rs, out_emitters.rs and setters.rs;
--     Manager/Persisted: persisted_state.rs (its two methods `write_persisted_state` and
--     `import_persisted_state` are `save_persisted_state` and `import_persisted_state`);
--     Manager/Reset: `force_manager_reset`, `initialize_manager_state` and `send_to_ws`;
--     Manager/Network: network_utils.rs; Manager/Orchestration: orchestration.rs, in the parts
--     Connect, Reconnect and Responses.
--   Manager/Handlers: the arms of `select!` in `run`, by sender: Caller, Machine, Socket, Network;
--     Manager/MainLoop: `new`, the start-up of `run` and its loop; Manager/Builder:
--     src/lgtv_manager_builder.rs.
--   Manager/Inputs: what the handlers leave alone: the status that the manager shows and what was sent
--     to the state machine, with the proof by handler below it; Manager/Equality: the derived equality
--     of `State`; Manager/Ending: the end of the loop; Manager/Listening: the receiver of a WebSocket
--     handler that has ended.
--   Manager/Invariant: the invariant of the manager, with the proof by handler below it;
--     Manager/Registering: the first message to a WebSocket handler, over the manager's methods (Kept,
--     Connects) and events (Calls, Handled);
--     Manager/Connecting, Resetting, Retrying, Starting, Disconnecting, Cancelling, Failing,
--     Refusing, Waking and Persistence: what the manager does when it connects, is reset, loses a connection,
--     starts to communicate, is told to disconnect or to cancel a reconnect, loses its state machine,
--     remembers a disconnect that was refused, wakes the TV, and writes its file.
--   WebSocket: the task of `LgTvWebSocket::start`; WebSocket/Connect: how it connects;
--     WebSocket/Lifetime, Relaying and Testing are about its statuses, what it passes on and its
--     connection test. WebSocket/Joining: the end of a handler that the manager awaits, over a
--     channel of a capacity; WebSocket/Joining/Flooding is about a TV that fills it.
--   NetworkCheck: the task of `TvNetworkChecker::start`;
--     NetworkCheck/Pinging is about its pings. Their messages and flags are events of the manager.
--   System: the manager and the task of its state machine with the two channels between them, as
--     a step relation in which either task takes its turn; System/Reported and System/Status are
--     about the status that the manager shows, over System/Turns, System/Outputs about the status
--     in which it acts on an output, System/Commands about the way of a caller's command, and
--     System/Registering about the messages to a WebSocket handler and, in Wire, the texts
--     to the TV.
--     System/Settling: the turns of the two tasks when nothing happens outside; below it, Weights
--     measures what is unread and Lower shows what each turn does to it, for System/Bounded.
--     System/Bounded: the same two tasks with channels of a capacity, in which a task that sends
--     waits for room and a shut down awaits the end of the state machine; System/Bounded/Refines,
--     Progress, Jams and Closing are about what the capacity changes, and Ends, over Settling, about
--     where the tasks come to when nothing happens outside; Rooms has the lemmas on a channel and
--     Commands those on a caller that sends nothing but commands.
--   Discovery: `discover_lgtv_devices` and `mac_address_for_ip` of src/discovery.rs and the task of
--     `discover` in network_utils.rs, over the crate rupnp and the tool arp as parameters;
--     Discovery/Found, Discovery/Macs and Discovery/Told are about the devices given, the MAC address
--     read and the messages to the caller.
--   Examples: the programs examples/control.rs and examples/discover.rs; Examples/Ends is about when
--     they end.
--   Tests: the theorems at concrete inputs; Tests/Demo: concrete instances of the parameters.
--
-- Conventions and bounds. A method that takes `&mut self` is a function from the manager to the
-- manager; results that every caller drops are not returned. Awaiting is not modelled: a handler
-- runs to its end, and the shared flags are as they stand when it begins. The loop of `run` is a
-- list of events in any order, so that whatever holds after every list holds under every
-- interleaving of the four sources; a notification of the network checker may come at any time,
-- also where the checker did not start, and a message of a discovery whenever the loop runs, which
-- allows more than the code does. A channel is the list of what was sent and the number of
-- messages that its receiver still takes before it goes away (`none`: for ever), so that a send
-- fails exactly where no room is left. In this, room in a full buffer is not waited for;
-- System/Bounded adds that wait for the two channels between the manager and its state machine,
-- there with a capacity that is any number (32 in the code, `channel_capacity`), and takes what a
-- handler does besides sending as done when it begins; WebSocket/Joining adds it for the channel
-- from a WebSocket handler that the manager awaits. The loop that waits for a reconnect is the
-- list of the ticks that it sees before its time is over, each with the time passed. No definition
-- has fuel: recursion is on lists and texts, and on the number of digits of a `u8` and of a `u64`.
-- Numbers are natural; a `u64` counter wraps at 2 ^ 64, as in a release build. The power of
-- `reconnect_falloff` is exact as a floating-point number where it counts, and `as_f64` rounds its
-- bounds, which are exact below 2 ^ 53. A shut down awaits the state machine's task: `MainLoop`
-- has what it does where that ends, and System/Bounded the wait itself, which may last for ever.
-- In System the channels have receivers that stay, and after the end of the manager's loop, which
-- awaits the state machine's task, neither takes a turn. The stream of a discovery is the list of
-- the devices and errors that it gives. Log messages are left out.
--
-- Not modelled: what the libraries do when a socket is opened, the TV is pinged and the network is
-- searched (the outcomes are events and arguments), the wait for room in the channels to the caller
-- and to the WebSocket handler and, except while the manager awaits its end, in the one from that
-- handler, a line of the console that cannot be read, and src/lib.rs, which has documentation and
-- names passed on only.
pub mod Prelude
pub mod Ssap
pub mod Connection
pub mod TvCommand
pub mod Discovery
pub mod Display
pub mod Environment
pub mod Examples
pub mod Helpers
pub mod Manager
pub mod StateMachine
pub mod Tests
pub mod NetworkCheck
pub mod WebSocket
pub mod System
