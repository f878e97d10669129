-- ===== src/Lib.antt =====
-- Verification library of the ScottyLabs agent platform: models of its Go services, translated from
-- the source, and theorems about them. Paths are from the repository's root.
--
-- The parts and how they interact. An agent calls a tool through the gateway, which rate-limits the
-- caller, resolves the tool in the registry, checks the grants, asks for a human approval where the
-- impact is high, calls the tool's server and writes an audit row. The registry, the approvals, the
-- audit log and the scoped memory are tables of the session store. The memory tools offer the facts
-- of the store to recipes; the assembly puts the context of a turn together. The runtime runs tasks
-- and shows their state to pollers, the scheduler submits recurring ones, and the finance rules are
-- one of the servers behind the gateway. The engineering agent runs coding tasks apart from these, in
-- sandboxes, for allowed maintainers. People reach the platform through the Slack gateway, which
-- starts tasks, polls the runtime and passes decisions on, and through the dashboard, which decides
-- approvals and counts what the tables hold. The Google Workspace server is another server behind the
-- gateway, and the infrastructure checks read the repository itself.
--
-- Files.
--   Common       shared names, lists, results, texts, maps, integers, and float64 as an interface
--   Store        services/session-memory/store: Models (models.go, types of registry.go), Db (the
--                tables, statements and transactions), Facts (memory.go), Governance, Sessions,
--                Identity, Registry (the files of these names), History (calls one after another), and
--                Retention (services/session-memory/cmd/retention/main.go)
--   Gateway      gateway/internal: Limits (limits/limits.go), Redact and Policy (policy/redact.go,
--                policy/gateway.go), Manifest (manifest/manifest.go), Server (server/server.go), Proxy
--                (proxy/httpcaller.go), and Sync (gateway/cmd/gateway/main.go)
--   Memory       services/session-memory/internal/memory/tools.go
--   Assembly     services/session-memory/internal/assembly/assemble.go, and Builder (builder.go)
--   Scheduler    services/scheduler/internal/scheduler/scheduler.go, with Client
--                (runtimeclient/client.go) and Main (cmd/scheduler/main.go, config/config.go)
--   Runtime      runtime/agentruntime.go, runtime/runtime.go, and the state of a task in
--                runtime/internal/server/server.go, of which Service has the rest; Spec has
--                runtime/recipe.go, runtime/model.go and `buildSpec`, and Cli the command line of
--                runtime/cmd/runtime/main.go
--   Finance      mcp-servers/finance-rules/internal: domain and service
--   Engineering  services/engineering-agent/internal: authz/authz.go, orchestrator/orchestrator.go,
--                and Egress (egress/egress.go)
--   Slack        services/slack-gateway/internal: Handler, Task and Interactions (slack/handler.go),
--                Value and Blocks (slack/blocks.go), Client (runtimeclient/client.go)
--   Dashboard    services/dashboard/internal: server/server.go and server/api.go, with Statistics
--                (`handleStats`) and Relay (runtimeclient/client.go)
--   Infra        infra/validate: main.go, with Tree (the walks over files) and Validate of validate.go,
--                and Checklist (checklist.go, its scan for secrets in Checklist/Secrets)
--   Workspace    mcp-servers/google-workspace/internal: domain and service, with Message and Client
--                (clients/google.go), and Tools (tools/tools.go)
--   Mcp          the HTTP front in the main.go of the three MCP servers
--   Examples     a small database and concrete inputs
--
-- How the state corresponds. A method of the repository is an `Action` on `Db`: it returns a result
-- and the database it leaves, also where it fails. Statements fail as `Env.faults` says, so that the
-- theorems cover every pattern of failures; a transaction that fails restores the tables. The
-- gateway's state is the store, the buckets of the limiter and the list of the calls it proxied. A
-- running task is a state of `Runtime.System`, and what can happen to it next is `Runtime.Step`; the
-- runtime's service is a table of such tasks, which requests and steps change (`Runtime.Service`).
--
-- Numbers. Times, ids and token counts are natural numbers. A float64 of the rate limiter stands by its
-- bits, and its arithmetic is a parameter; the finance rules take float64 as an interface. A theorem
-- that needs a law of float64 names it.
--
-- Fuel. The shrinking loop of the assembly runs on fuel, of which it gets the length it starts from;
-- each round takes 16 from that length, so this is enough. A Slack task polls on fuel: each round
-- sleeps for 900 ms, so that 113 looks at the clock outlast its 100 s. All else recurs on its data.
--
-- Not modelled: the text of SQL, drivers and migrations, JSON and YAML codecs (a payload is taken by
-- its parse), the HTTP library and the mux, the cron library, the Slack SDK, Google's libraries,
-- the environment and process wiring. Such code is a parameter where the modelled code calls it.
pub mod Assembly
pub mod Common
pub mod Dashboard
pub mod Engineering
pub mod Examples
pub mod Finance
pub mod Gateway
pub mod Infra
pub mod Mcp
pub mod Memory
pub mod Runtime
pub mod Scheduler
pub mod Slack
pub mod Store
pub mod Workspace
