-- ===== src/Lib.antt =====
-- Verification library of open-pincery, a runtime in which agents are woken by messages, think by
-- calling a language model, act through gated tools, and leave every step in a hash-chained log.
--
-- The parts and their files (paths from the repository's root):
--   Prelude, Bytes        shared names, lemmas, texts and byte encodings
--   Status                src/models/agent.rs, `AgentStatus` and its database texts
--   Capability            src/runtime/capability.rs, permission modes and tool capabilities
--   Chain                 src/background/audit_chain.rs: payload, entry hash, walk; Chain.Gate the
--                         startup gate; Chain.Trigger the trigger of
--                         migrations/20260501000001_add_event_hash_chain.sql that writes the hashes
--   Llm, Json             the types of src/runtime/llm.rs and of `serde_json`; Llm.Canary is
--                         `scan_for_canary` of src/runtime/wake_loop.rs
--   Db                    the tables as a record `World`, and actions on it with errors
--   Env                   what is outside the repository: server, clock, randomness, model, executor
--   Agents, Events        the statements of src/models/agent.rs and src/models/event.rs
--   Lifecycle             src/runtime/lifecycle.rs; Lifecycle.Trail has the transition diagram
--   Shape, Nonce          src/runtime/capability_nonce.rs
--   Tools                 src/runtime/tools.rs, with src/models/credential.rs and the audit events of
--                         src/observability
--   Wake                  src/runtime/wake_loop.rs: status changes, Wake.Calls the tool calls of one
--                         response, Wake.Turn one turn of the loop, Wake.Run the whole run
--   Prompt                src/runtime/prompt.rs, the system prompt and the messages
--                         (Prompt.Text what the prompt says, Prompt.Cut how it is shortened)
--   Maintenance           src/runtime/maintenance.rs and src/models/projection.rs
--   Listener              `handle_wake` of src/background/listener.rs, and src/runtime/drain.rs
--   Stale                 one tick of src/background/stale.rs
--   Credentials           src/models/credential.rs and src/api/credentials.rs, the vault's requests
--   Config                src/config.rs: the sandbox mode and the settings; Config.Modes their bounds
--   Sandbox.Kernel        the operating system: what it granted and reported as a log, and its answers
--   Sandbox.Landlock      src/runtime/sandbox/landlock.rs, the path rules and the scopes
--   Sandbox.Policy        src/runtime/sandbox/init_policy.rs
--   Sandbox.Init          src/bin/pincery_init.rs, the wrapper inside the sandbox
--   Sandbox.Bwrap         src/runtime/sandbox/bwrap.rs, the command line and the policy
--   Sandbox.Floor         src/runtime/sandbox/preflight.rs, what the host must offer
--   Sandbox.Cgroup        src/runtime/sandbox/cgroup.rs, the guard of a group and its limits
--   Startup               the gates of src/main.rs, with the rest of src/background/audit_chain.rs
--   Tests                 concrete data, and each theorem applied to it
--
-- How the parts interact: the listener tests the budget, acquires the agent, runs the wake loop and the
-- maintenance, and drains or releases the agent. The wake loop moves the agent by the compare-and-set statements of Agents,
-- writes one lifecycle event for each move, asks the model, screens and validates its answer, mints a
-- nonce for each tool call, and hands the call to Tools, which gates it by Capability, consumes the
-- nonce and only then acts. Every event goes through the trigger, so the chain verifier of Chain can
-- replay the log.
--
-- At its start the server passes the kernel floor, the configuration, the memory gate and the audit
-- chain (Startup). A shell command runs under `bwrap`, which starts the wrapper with the policy that
-- the server wrote (Sandbox.Bwrap); the wrapper installs every restriction and becomes the command
-- (Sandbox.Init).
--
-- Correspondence: an action is a function from the tables to a result and new tables (`M`), composed
-- by do blocks as the Rust code composes `?`. A statement is atomic; it may fail at any tick, as
-- `Env.fault` says, and then changes nothing. Everything that comes from outside is a field of `Env`,
-- asked by tick, so a theorem for every `Env` holds for every behaviour of the server's connection, of
-- the clock, of the model and of the executor. UUIDs, nonces and hex texts are numbers and byte lists,
-- times are microseconds, money is a number of the smallest unit. A run of the wake loop is one
-- sequence of statements: no other process writes the tables in between.
--
-- The sandbox code is a run over `Sandbox.Kernel`: each call asks the kernel with the log of what was
-- granted before, the kernel answers as it likes, and a granted call is noted. Nothing is assumed of
-- the answers, so a theorem says which calls were granted and what was read back, and not that a
-- kernel keeps its promises. Paths and arguments are texts, masks and identities are numbers, the
-- JSON codec of the policy is a parameter.
--
-- Fuel: only `wake_loop` is on fuel, one unit for each turn. `limit * (cap + 1) + cap + 1` turns are
-- enough for the rate limit of tool calls and the cap of schema-invalid responses, where every
-- response of the model calls a tool or stops; Wake.Limits has the proof. A machine word keeps its
-- bound where the code tests or wraps it (`as u32` in push_field, `as i32` of
-- the stale hours, `saturating_add`, the INTEGER column of the iteration count).
--
-- Not modelled: the prompt of the maintenance, HTTP, the command line client, the effect of system calls, the
-- processes and pipes of the sandbox, seccomp filters, log lines and metrics; SHA-256, hex, JSON, JSON Schema and AES-GCM are parameters with their documented laws.
pub mod Prelude
pub mod Status
pub mod Capability
pub mod Bytes
pub mod Chain
pub mod Json
pub mod Llm
pub mod Db
pub mod Env
pub mod Agents
pub mod Events
pub mod Lifecycle
pub mod Shape
pub mod Nonce
pub mod Tools
pub mod Wake
pub mod Maintenance
pub mod Listener
pub mod Config
pub mod Credentials
pub mod Prompt
pub mod Sandbox
pub mod Startup
pub mod Stale
pub mod Tests
