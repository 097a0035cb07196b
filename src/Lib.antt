-- ===== src/Lib.antt =====
-- The A2A platform (cmd/server and internal/): a server at which agents register, talk to each other
-- in groups, and share tasks, with its state in MySQL.
--
-- This library models the parts that decide: who may do what, and what the stores promise.
--
-- - Sql: how the stores of internal/svc talk to the database. A method of a store is an action of
--   type `Sql T A`, from the environment and the world (the tables, a schedule that says which
--   statements the server refuses, the counter that identifiers and tokens are drawn from, and the
--   clock) to a result or an error and the world that it leaves. `db.Exec`, `QueryRow` and `Query`
--   are `exec`, `statement` and `query`; a transaction rolls back to the tables that BEGIN found;
--   where COMMIT reports an error, the server may have committed all the same.
--   `=` between texts compares the collation's sort keys, a parameter, as are SHA-256 and the
--   generators. Sql.Keeps and Sql.Invert are the rules by which actions are proved correct.
-- - Json: decoded JSON, as tools receive it.
-- - Task: internal/svc/task_item_store.go; Task.Tools: internal/tools/task_tools.go, whose five
--   tools are functions of their arguments. encoding/json on []string is a parameter. Task.Order
--   states the order that dependencies impose, and Task.Stuck what NULL columns do.
-- - Group: internal/svc/group_store.go and the types of internal/model/types.go. Group.Members,
--   Group.Tokens and Group.Invites are the stores of these names; joining by an invite calls the
--   other two inside one transaction. Group.Groups, Group.Events and Group.Artifacts are the groups,
--   their messages and their documents.
-- - Membership: GroupMemberHandler of internal/handler/group.go: the members of a group are listed,
--   written and removed. It reads the headers that Auth sets.
-- - Posting: GroupEventHandler of internal/handler/group.go: a message is posted, and Turn follows.
-- - Turn: the turn that internal/handler/group.go runs after a message: Turn.Candidates says who is
--   asked, Turn asks them and writes to Group.Events and Group.Artifacts. The agents are a parameter.
--   Turn.Orchestration is what a group announces, of internal/svc/group_store.go.
-- - Auth: authMiddleware of cmd/server/main.go, with the paths in Auth.Paths. It asks Group.Tokens
--   and Group.Members. Its answer is a refusal or the request with the headers that the handlers of
--   internal/handler/group.go read. Auth.Cors is corsMiddleware, of cmd/server/main.go too.
--
-- - Llm: internal/llm/types.go, and the history that internal/engine/engine.go makes of stored
--   messages. Llm.Paired says what a provider demands of a conversation.
-- - Engine: internal/engine/engine.go. Engine.Calls runs the tools that a message calls, Engine.Rounds
--   asks the provider until it calls none. What a run does is a trace: requests, calls of tools, events
--   of the stream and stored messages. The provider and the tools are parameters.
-- - Subagent: internal/tools/subagent.go. Subagent.Loop is its loop of rounds, Subagent.Sessions the
--   store of internal/svc/context.go. A call locks twice; what other calls do in between is a step
--   relation.
-- - Registry: internal/svc/registry.go. Registry.Agents is AgentStore of internal/svc/store.go,
--   Registry.Cards the cards of agents, Registry.Metadata their change, Registry.Health the checks.
--   What the network answers during a call is a parameter of the call.
-- - Human: internal/svc/human_store.go. Human.Users writes to the tables of Group too, where a person
--   is deleted; Human.Sessions are the sessions.
-- - Tasks: TaskStore of internal/svc/store.go, the tasks that agents give each other, with their pages.
-- - Broadcaster: internal/events/broadcaster.go, which cmd/server and the stores tell what happened,
--   and the end of internal/handler/events.go that a client holds. A Go channel is a bounded queue.
--
-- No loop here needs fuel: all recursion is on a list, a text or a table, and in the engine
-- and in subagents on the rounds that are left. A number that the code
-- keeps in an int or a time is a native natural number; the code only adds one to counts and compares.
-- A text is the text that Go's bytes encode.
--
-- Not modelled: HTTP input and output, the providers of language models, the bridges' processes, the
-- configuration, and the handlers that only call a store; the other
-- languages of the repository (apps/human-client, web/admin, bridges).
pub mod Prelude
pub mod Sql
pub mod Json
pub mod Auth
pub mod Broadcaster
pub mod Engine
pub mod Group
pub mod Human
pub mod Llm
pub mod Membership
pub mod Posting
pub mod Registry
pub mod Subagent
pub mod Task
pub mod Tasks
pub mod Turn
