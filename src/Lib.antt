-- ===== src/Lib.antt =====
-- A model of the agent console, and what is proved of it.
--
-- The program. A gateway (gateway/) serves web consoles; on each machine a client (client/) runs
-- coding agents and keeps one web socket to the gateway. The gateway's client hub takes the
-- clients' registrations, snapshots and events, and sends commands that wait for an answer. From
-- these it feeds three stores: the registry of machines, approvals and timelines; the runtime
-- index of threads and resources; and the router, which says where a thread lives. A fourth store
-- keeps the settings. On the client, the supervisor installs, starts and stops the agents.
-- What both sides exchange is in common/.
--
-- The files, with the paths of the code from the root of the repository:
-- - Prelude: Go's strings as lists of bytes (strings.TrimSpace, strings.Split, UTF-8, %d), maps as
--   association lists (Dict), sort.Slice, and the package time as the record TimeText.
-- - Domain: the types of common/domain; Domain.ThreadId is the public thread ids of
--   common/domain/thread.go, and Domain.Base64 the part of encoding/base64 that they use.
-- - Gateway.Registry: gateway/internal/registry/store.go; Upsert is upsert, MarkOffline
--   mark_offline, AppendTimelineEvent append_timeline_event, and so on, a method in snake case.
-- - Gateway.Routing: gateway/internal/routing/router.go.
-- - Gateway.RuntimeIndex: gateway/internal/runtimeindex/store.go.
-- - Gateway.Settings: gateway/internal/settings/memory_store.go; Settings.FileStore:
--   gateway/internal/settings/file_store.go.
-- - Gateway.ConsoleHub: gateway/internal/websocket/console_hub.go; Broadcast is broadcast, writeLoop
--   write_step and stop_step, removeClient remove_client.
-- - Gateway.ClientHub: gateway/internal/websocket/client_hub.go; the snapshot operations in
--   ClientHub and ClientHub.Resources, the time stamps in ClientHub.Activity, the messages to the
--   consoles in ClientHub.Broadcast, registration, cleanup and commands in ClientHub.Connections,
--   handleSnapshotEnvelope in ClientHub.Envelopes, handleEventEnvelope with what it calls in
--   ClientHub.Events, and Handler, the loop of a connection, in ClientHub.Sessions;
--   Gateway.ApprovalId has the ids of the approvals. ClientHub.Invariants shows once for all
--   operations that they keep what each of the changes they are made of keeps.
-- - Domain.Protocol: the envelope and the payloads of common/protocol/messages.go.
-- - Client.AgentId: ValidateAgentID of client/internal/agent/codex/instance_runner.go.
-- - Client.Supervisor: client/internal/agent/manager/supervisor.go, with the runtimes that
--   client/internal/agent/registry/registry.go holds.
-- - Client.Approvals: the approvals of clientSession in client/cmd/client/main.go, and the case
--   approval.respond of handleCommandEnvelope.
-- - Client.FakeAdapter: client/internal/agent/codex/fake_adapter.go, the runtime without a process;
--   its resources, and the slugs of environment.go, in FakeAdapter.Resources.
-- - Client.Manager: client/internal/agent/manager/manager.go, over any runtime that meets the
--   interfaces of client/internal/agent/types/interfaces.go, with the snapshot of
--   client/internal/snapshot/builder.go; Manager.Fake makes the fake adapter,
--   with files of its own, such a runtime.
-- - Client.ConfigApply: client/internal/agent/codex/config_apply.go; its checks in
--   ConfigApply.Checks.
--
-- State and steps. A struct is a record, and a method that changes it returns the new record. A
-- method runs to its end as one step. Most hold their lock while they run. The handlers of the
-- client hub, and SendCommand up to the sending, take and leave the hub's lock more than once,
-- and call the index, the registry and the consoles between: that two of them overlap is not
-- modelled, nor is that two calls write the file of the settings at a time, or that a console's
-- message is taken from the buffer and not yet written. SendCommand is several steps:
-- begin_command, then cancel_command, resolve_pending_command or the loss of the machine. The
-- runs of the theorems have the steps in any order. The order of a map stands for the order in
-- which `range` visits it. Slices and maps are values: that two structs share one is not
-- modelled, except that the copies the code makes are written out.
--
-- Parameters. TimeText is time.Parse and Format, with their round trip for whole seconds as a
-- law; World is what the supervisor calls: the agents' factories, their cleanups, the file
-- system and the tables of the package unicode; Paths is the home directory, filepath.Join and
-- strings.ToLower; ConfigFiles is the file system and go-toml as config_apply.go calls them;
-- Disk is the file system, path/filepath and encoding/json as the file store calls them, with
-- what it relies on as the laws IsDisk and IsCodec. Whether JSON is marshalled is an argument.
-- An envelope's payload is the constructor of its name, or none where its JSON does not decode;
-- what the hub encodes again is taken to decode to the same.
--
-- Numbers and fuel. A version is an int64 and the counter of the commands a uint64: both wrap
-- round. next_agent_id searches with one round more than there are records, which is enough,
-- since the ids that it tries differ; the decimal digits of a number n are found in n + 1 rounds.
--
-- Not modelled: the HTTP interface (gateway/internal/api) but for the end of its approval handler,
-- the check of a console's origin, the sockets, the process that runs an agent and its protocol
-- (the rest of client/internal/agent/codex), the client's main loop and its other commands
-- (client/cmd/client), the configuration files that the supervisor
-- reads and writes, the web console, and logging.
pub mod Prelude
pub mod Domain
pub mod Gateway
pub mod Client
