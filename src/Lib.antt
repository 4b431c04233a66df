-- ===== src/Lib.antt =====
-- SlugArch drives accelerator IPs over CXL-shaped messages. The parts modelled here:
--
-- Wire, crates/slugarch-cxl-wire/src. `CxlMsg` has the source's variants (msg.rs); `encode` and
--   `decode` (encode.rs, decode.rs) go between a message and a flit of 64 bytes, which is a list
--   of ℕ below 256. The source's fixed arrays [u8; 64] and [u8; 32] are lists with the
--   predicates `IsFlit` and `IsMsg`; `WireError` is the error of a `Result`.
-- Host, crates/slugarch-host/src. Dispatch is dispatch.rs, Readback is result.rs, Run is
--   host.rs: `CxlHost::run_gemm` sends the 49 messages of a product of 4x4 matrices to a device,
--   waits for each response, checks its tag and class, and reads the product back. The device
--   is a parameter, a record `Device` of the calls that host.rs makes of
--   crates/slugarch-verilator/src/impls.rs, which is a binding of compiled hardware. What the
--   host relies on is the record `Serves` of Endpoint: the device is a systolic array that
--   answers each message with one flit of the right class, within the host's timeout. Ideal has
--   a device with that behaviour. Host/Replay is replay.rs, the recorder of the messages.
-- Ir, crates/slugarch-ir/src. Ops and Graph are op.rs, graph.rs and module.rs: a hash map is an
--   association list, and an f32 immediate is its bits. SelectBackend and AssignTokens are the
--   passes of passes/select_backend.rs and passes/assign_tokens.rs: the first picks an IP for each
--   op, the second sorts the ops by their edges and gives each a token to wait for and one to give.
--   FuseDecodeOps is passes/fuse_decode_ops.rs, which joins neighbouring MLP steps.
--   ValidateAgainstRtlmap is passes/validate_against_rtlmap.rs, the comparison of a function with a
--   pipeline of nodes; its maps and sets of texts are the lists of Base/Sets. Pass is pass.rs.
-- Frontend, crates/slugarch-ptx-frontend/src. Ast is the part of the parser's AST that lib.rs and lower/
--   match on, Lower has the six lowerers and their dispatch, Kernel is `lower_to_slugir`. The data of
--   an instruction is a type of its own with its debug text as a parameter.
-- Backend, crates/slugarch-backend/src. Bind has the bindings from an op to a command of an IP, and
--   Emit is emit.rs, which turns a function that the passes have annotated into commands; a panic
--   of an `expect` there is an error of the model.
-- Fabric, crates/slugarch-fabric/src. Engine is engine.rs and cpu_emu.rs: the loop that launches
--   each command whose token is retired, on the CPU or an IP, and retires its token when it is
--   done. The IPs are a parameter, a record `IpDevice` of the calls that engine.rs makes.
--   Artifact is record.rs. Net is the abstract machine that the loop refines: commands that wait, run and
--   are done, and the tokens of those done.
-- Verilator, crates/slugarch-verilator/src: impls.rs and wire.rs, the binding of one compiled IP over its C
--   functions, a parameter `Sys`. `Device` and `IpDevice` are the calls of it that host and fabric make.
-- Cli, crates/slugarch-cli/src/main.rs: the commands `run`, `replay`, `validate`, `run-cxl` and `eval-cxl`
--   as compositions of the parts above, on the contents of the files that they read. Host/SimFeasible is
--   crates/slugarch-host/src/sim_feasible.rs, which measures the record modes, sums up the QEMU runs and
--   writes the ledger of claims; Host/QemuType2 is crates/slugarch-host/src/qemu_type2.rs, which exports the
--   requests of a job as bytes and checks the bytes of the responses.
-- Gen, crates/slugcxl-gen/src: config.rs, the configuration of an endpoint and its checks, and
--   hj_overhead.rs, the estimate of what recording costs.
-- Base has the shared lists, tests, byte conversions and facts on bits.
--
-- Bounds: tags are u16 (% 2 ^ 16), the ids of ops and the tokens between ops u32 (% 2 ^ 32), bit
-- tokens of the array u64 (% 2 ^ 64). Their sums wrap, as they do where overflow is not checked; a
-- debug build panics instead. The counters of cycles, completions, flits and runs are not wrapped:
-- they are u64 or usize, and the budgets and the lengths of lists in memory keep them far below
-- 2^64. The receive loop of host.rs runs on the 64 ticks of FLIT_TIMEOUT_TICKS as fuel, which is
-- the source's own bound. The walk of assign_tokens.rs runs on the ops and twice the edges, since
-- each round takes an id from the queue and each edge puts at most one there. The loop of
-- fuse_decode_ops.rs runs on the ids of the order and the ops, since a round advances or takes an
-- op away. The loop of engine.rs runs on its cycle budget and the length of the stream, since a
-- round passes a cycle or launches a command. All other loops are over lists.
--
-- Not modelled: the Verilator build and the generated hardware, the PTX parser (vendored), the
-- serialisation by serde and bincode, the arguments, files, clocks and texts of the command line
-- and of the reports, the emitters of the endpoint generator, and ratios in f64. The size of a
-- record in bincode, the debug text of an instruction, the text of a diff and the bytes of an
-- artifact are parameters.
pub mod Base
pub mod Wire
pub mod Ir
pub mod Frontend
pub mod Backend
pub mod Fabric
pub mod Verilator
pub mod Host
pub mod Cli
pub mod Gen
