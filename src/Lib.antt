-- ===== src/Lib.antt =====
-- The runtime core of agent-harness, modelled and verified. Paths are from the repository's root;
-- the package is agent-harness/src/agent_harness, below written `…`.
--
-- The program runs coding agents. AgentLoop.run asks a model for responses and executes the tool calls
-- in them until the run is over. A tool call is evaluated by the PermissionEngine (allowlist,
-- capabilities, paths, rules, profile), made stricter by hooks, and where the answer is ASK goes
-- through an approval, whose grants a store remembers. A root agent spawns child agents through the
-- SubagentScheduler, which holds a semaphore and reserves from the RunBudgetManager. What happens in a
-- thread is appended to its rollout by a single writer and checked by a hash chain when it is read; a
-- TurnController appends the items of a turn and its end. Between them, a CheckpointManager saves the
-- state of the run, from which a RecoveryCoordinator plans what a restart does; a CompactionService
-- shortens the history of a completed turn. Guidance files import each other within limits, in
-- workspaces whose trust a store keeps. Skills are shown in a catalog, resolved by name, and narrow the
-- tools of the turn they are executed in. MCP servers are configured by scope under the administrator's
-- policy; a manager starts them, and a connection to one of them reads the server's catalogs page by
-- page, refreshes them after a notification, and calls tools, each of which an adapter puts behind the
-- permission engine under a name that providers accept.
--
--   Common, Common/*             shared names, tests, lists, Python's dict
--   Domain/Errors, Json, Tools   …/domain/errors.py, domain/tools.py, security/models.py
--   Security/Rules, Engine       …/security/rules.py, permission_engine.py
--   Security/PathPolicy, Hooks   …/security/path_policy.py, hooks.py, and the use of hooks in tools/runtime.py
--   Security/Grants, Approval    …/security/approval_grants.py, approval.py, _authorize_or_approve of
--                                tools/runtime.py, the approval table of checkpoints/store.py
--   Tools/Schema, Runtime        …/tools/runtime.py, registry.py: validation, and the whole of execute
--   Checkpoints/Store, Manager   …/checkpoints/models.py, store.py, manager.py; Envelope is the JSON form
--   Checkpoints/Serializer       …/checkpoints/serializer.py; Snapshot is the state and its JSON form
--   Checkpoints/Recovery         …/recovery/coordinator.py
--   Compaction                   …/compaction/service.py
--   Guidance/Trust, Imports      …/guidance/trust.py, imports.py
--   Skills/Execution, Activation …/skills/execution.py, and resolve of activation.py
--   Skills/Catalog               …/skills/catalog.py
--   Runtime/Budgets              …/runtime/budgets.py
--   Subagents/Scheduler          …/runtime/subagents/scheduler.py; Child is _run_child, Steps the
--                                interleavings of calls and tasks
--   Agent/Loop, Completion       …/runtime/agent_loop.py, completion.py
--   Mcp/Models, Config           …/mcp/models.py, config.py: rows, scopes, the managed policy and resolve
--   Mcp/Connection, Pagination   …/mcp/connection.py, pagination.py, schema_validation.py
--   Mcp/Manager                  …/mcp/manager.py
--   Mcp/Naming, Results          …/mcp/naming.py, results.py
--   Mcp/Approval                 …/mcp/approval_policy.py, and _adapter of runtime.py
--   Turns/Controller, Mailbox     …/turns/controller.py, mailbox.py
--   Rollout/Integrity, Recorder  …/rollout/items.py, integrity.py, threads/recorder.py
--   Examples                     the theorems on concrete inputs
--
-- A method is a function with its name over a record that holds the object's fields; what raises returns
-- Result. Methods of the scheduler run up to their next await, and its child tasks are steps of a relation.
-- AgentLoop.run is an action of a state and error monad, its while loop runs on fuel: max_iterations + 2 is
-- enough, as a round either counts an iteration or uses up a response to be reused. collect_paginated runs
-- on fuel as well: max_pages + 1 is enough, 101 for the 100 pages of a refresh; so does expand_imports,
-- where max_depth + 2 is. An MCP connection is a state and exception monad whose operations run one after
-- the other; messages of the server arrive while a refresh fetches, and a session does not end unasked.
--
-- Integers are natural numbers: limits and counters are not negative. Not modelled: trace events,
-- times, the details of errors, the model provider, the executors of tools, the sandbox, files and SQL,
-- whose tables are lists of rows with their constraints; the rendering and storing of skill
-- activations, discovery, memory, tracing, sessions, the harness's own configuration and the command
-- line; of MCP, authorization, the search of tools, the roots and snapshot of a
-- connection. SHA-256, fnmatch, pathlib, the provider, the tools, the mailbox, the user's answers, the
-- MCP server with its SDK, the parsing of URLs and JSON Schema are parameters. That saving a checkpoint
-- succeeds is assumed. A text of an MCP approval decision is one of the three values.
pub mod Common
pub mod Domain
pub mod Security
pub mod Runtime
pub mod Subagents
pub mod Agent
pub mod Mcp
pub mod Rollout
pub mod Turns
pub mod Tools
pub mod Checkpoints
pub mod Compaction
pub mod Guidance
pub mod Skills
mod Examples
