-- ===== src/Lib.antt =====
-- Noire, a microphone noise reducer for Linux: the control plane that owns the configuration, the
-- registry of inputs, and the bounded audio primitives that the real-time callbacks are made of.
--
-- The parts and how they interact. The daemon (crates/noired/src/control.rs) owns the configuration,
-- its revision and the last observation of the audio engine. A client's request names the revision
-- that it has seen; the daemon validates the changed configuration, applies it to the engine, saves
-- it, and only then takes it over. The configuration (crates/noire-config/src/lib.rs) is a TOML file
-- with a backup beside it, each replaced by writing a temporary file and renaming it. The engine
-- recovers from faults on the schedule of crates/noired/src/recovery.rs, chooses its microphone
-- among the nodes of crates/noire-pipewire/src/registry.rs, and processes audio with the primitives
-- of crates/noire-dsp/src. Captured bytes are checked and decoded in the capture callback
-- (crates/noire-pipewire/src/capture.rs), pass through the model and the dry delay line in frames
-- (crates/noire-pipewire/src/live.rs), cross to the source callback
-- (crates/noire-pipewire/src/source.rs) in a ring of samples that carry their generation
-- (crates/noire-pipewire/src/bypass.rs), and are rendered through the fault ramp.
--
-- Which file models which part:
--   Base               names of the libraries, Boolean tests, lists over native numbers, machine
--                      words (saturating and wrapping addition), Result, and text (Base/Text)
--   Config/Types       types and defaults of crates/noire-config/src/lib.rs
--   Config/Check       `Config::validate`
--   Config/Decode      `decode_and_migrate`, `LegacyConfigV0::migrate`, `to_canonical_toml`
--   Config/Store       `ConfigStore::save`, `ConfigStore::load`, `atomic_write`
--   Config/Migration, Config/Durable, Config/Save, Config/Load    what they guarantee
--   Ipc                types and error catalogue of crates/noire-ipc/src/lib.rs
--   Control/Ports      the engine, the store and the launch manager as interfaces, each with a
--                      contract: of the engine from the documentation of its trait, of the store
--                      and the launch manager only what a call that succeeds has done
--   Control/Systemd    the launch manager of crates/noired/src/systemd.rs
--   Control/Daemon, Control/Methods, Control/Upkeep, Control/Launch    the methods of `Daemon`
--   Control/Commands   the requests of clients as data, and their execution
--   Control/Transaction, Control/Atomic, Control/Validity, Control/Convergence, Control/Refresh
--                      what the methods guarantee over any engine and store
--   Control/FileStore, Control/Startup    the daemon over the file store of Config/Store
--   Recovery           `RecoveryController`, with Recovery/Run, Recovery/Invariant,
--                      Recovery/Schedule and Recovery/Episodes
--   Registry           nodes, selectors and `RegistryMonitor`; Registry/Selection has the candidates
--                      and `RegistrySnapshot::resolve`; Registry/Debounce, Registry/Candidates and
--                      Registry/Resolution say what they guarantee
--   Dsp/Canonical, Dsp/Sanitize, Dsp/Frame, Dsp/Delay, Dsp/Fault  the files of the same names in
--                      crates/noire-dsp/src, with their theorems in the modules below them
--   Dsp/Floats, Dsp/Meter, Dsp/Ramp    f32 arithmetic as an interface,
--                      crates/noire-dsp/src/meter.rs, and the strength ramp and mixer of
--                      crates/noire-dsp/src/ramp.rs
--   Dsp/Channels       the channel map of crates/noire-dsp/src/channels.rs; the module
--                      Dsp/Channels/Selected says which channels reach the output
--   Transport          the producer and the shared state of crates/noire-pipewire/src/bypass.rs;
--                      Transport/Output has the consumer; Transport/Laws, Transport/Written,
--                      Transport/Ends, Transport/Fill, Transport/Resync, Transport/Sensitive,
--                      Transport/Playing and Transport/Stream say what the two ends guarantee
--   Capture            the types of crates/noire-pipewire/src/capture.rs; Capture/Process has
--                      `CaptureProcessor`; Capture/Chunk, Capture/Deliver, Capture/Encoded and
--                      Capture/Order say what reaches the sink
--   Source             the control state of crates/noire-pipewire/src/source.rs; Source/Callback has
--                      `process_available_buffers`; Source/Demand, Source/Bounds and Source/Privacy
--                      say what they guarantee
--   Live               parameters, timing and telemetry of crates/noire-pipewire/src/live.rs;
--                      Live/Sink has `LiveCaptureSink`; Live/Closed and Live/Frames say what it
--                      publishes after a failure and while suppression is off
--   Model              descriptor.rs and frame.rs of crates/noire-model/src; Model/Rnnoise has the
--                      adapter of crates/noire-model-rnnoise/src/adapter.rs; Model/Boundary and
--                      Model/Described say what they guarantee
--   Ui                 the state of crates/noire-ui/src/state.rs; Ui/Truth says what it shows
--   Tests              runs and instances at concrete inputs
--
-- How code corresponds to definitions. A method that takes `&mut self` returns the new state beside
-- its result, on every path, errors included. A `match` on an answer of the engine, the store or a
-- file operation is a function by clauses, named for the step that it follows. Clocks are
-- arguments. An f32 or f64 is its bit pattern; the f32 product and the sine of the fault ramp are
-- parameters with the laws of a factor zero and one, and the arithmetic of the meter is one with no
-- law. The two ends of the ring, the callbacks and the control loop run in threads of their own; a
-- call of one of them is one step, and their interleavings are lists of calls. Between the buffers
-- of one source callback, commands may come in. A u16, u32 or u64 is a number, with the
-- saturation or the wrap-around of the source written out; the counters of the sanitizer and the
-- assembler wrap as a release build does.
--
-- Loops and fuel. The `while` loop of `FrameAssembler::push` has as many rounds as the chunk has
-- samples, which is enough since each round takes at least one; `atomic_write` has its sixteen
-- attempts. The loops that take samples out of the ring have a
-- round for each sample that it holds, and one more where the source tests for the end by taking
-- out. All other loops follow a list.
--
-- Parameters. A model (crates/noire-model/src/lib.rs) is an interface. So is the network of the
-- nnnoiseless crate (NetworkContract). The ring crate is a FIFO of bounded capacity
-- (RingContract). The TOML reader and writer (Config/Decode), the file system (Config/Store) and
-- the session bus of systemd (Control/Systemd) are not part of the repository; the audio engine is
-- behind a trait. What is assumed of them stands in TomlContract, FilesContract, BusContract and
-- EngineContract. The file system may leave anything in a file that a failed operation works on,
-- except that a failed rename changes nothing. A save that fails promises nothing of the file in
-- StoreContract, since the code can report an error after the rename.
--
-- Not modelled: the PipeWire main loop and the building of its streams, the enhanced and offline
-- models, the floating-point filters, the D-Bus service, the command line and the views of the
-- user interface; of the modelled files, the click detector, the discovery of the configuration
-- path, the parsing of node properties, and the order and the qualified labels of the candidates.
pub mod Base
pub mod Config
pub mod Control
pub mod Dsp
pub mod Ipc
pub mod Recovery
pub mod Registry
pub mod Transport
pub mod Capture
pub mod Source
pub mod Live
pub mod Model
pub mod Ui
mod Tests

-- Results:
