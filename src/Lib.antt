-- ===== src/Lib.antt =====
-- A verification library of the backend's own core: what a Mission may go through, which plans are
-- accepted, how its Tasks are run, what an Agent may do and spend, and which model provider answers.
-- Paths are from the repository's root.
--
-- The parts and how they interact. A Mission's statuses and the guards on them are in
-- backend/app/core/domain.py; a plan of steps is checked by backend/app/core/mission_dag.py before
-- the Mission is validated. An Agent's Task is answered through backend/app/inference: a
-- `ModelRouter` (router.py) walks the candidates that a request names, asks the `ProviderRegistry`
-- (registry.py) for profiles and evidence, and keeps unhealthy providers out by a circuit breaker
-- and a rate-limit cooldown (health.py), which all routers of a process share.
--
--   * Prelude and its children: Boolean tests on the native ℕ, equality as an instance (`Eq`),
--     lists, results, dicts as association lists (the first entry of a key is its value), strings as
--     code lists for `strip().lower()`, joined texts, and the values of JSON.
--   * Domain (core/domain.py): `transitions` is the table TRANSITIONS, indexed by the aggregate, so
--     a key of another aggregate has no type; `transition` raises as the source does.
--     Domain/Lifecycle: what histories of accepted transitions look like.
--   * MissionDag (core/mission_dag.py): `validate_mission_steps`; the nested function `visit` with
--     its two mutated sets becomes state passing over `Marks`. A set is iterated in the order of its
--     list's first occurrences. MissionDag/Search, /Total and /Accepts are the proofs.
--   * Inference/Contracts (inference/contracts.py): requests, answers, profiles and errors.
--     Inference/Health (inference/health.py): `CircuitBreaker` and `RateLimitCooldown`, each
--     operation returning the record that it leaves. Health/Breaker, /Counts, /Probe and /Cooldown are the
--     proofs.
--   * Inference/Registry (inference/registry.py), Registry/Defaults its invariant.
--   * Inference/Router and Router/Candidates (inference/router.py): `generate` is `route` over
--     `candidate_names`, one `visit_candidate` for each turn of the loop; `try_provider` is the
--     part behind the gates. Providers and the clock are the parameter `World`, whose answers may
--     depend on everything that happened before; `State` is what is mutated, with the list of
--     events. Router/Gates, /Stops, /Fallback, /Wedge and /Unrecorded are the proofs.
--   * Capabilities/Contracts, /Policy, /Gateway (backend/app/capabilities/contracts.py, policy.py,
--     gateway.py): `authorize_capability` with one function per check, and the gateway that asks it
--     before it runs an adapter. Policy/Decision and Gateway/Calls are the proofs.
--     Capabilities/Grant (mission_authorization.py): the Creator writes a Mission's authorization;
--     Grant/Versions is its proofs.
--     Capabilities/Spending and /Runtime (runtime.py): the tables are a `Database`; `claim` is what the
--     code does before the adapter, `perform` what it does after its row is stored, and other calls take
--     steps between. Runtime/Rows, /AtMostOnce and /Replays are the proofs.
--   * Economy (backend/app/services/economy.py): Economy/Ledger the projection of a ledger, /Entries
--     `append_ledger_entry` and the suspension that a loss brings, /Capital the operations that reserve,
--     commit, settle and doubt capital. Economy/Flows is the abstract view, the open flows of capital;
--     /Projection, /Floor, /Suspension and /Replay are the other proofs.
--   * Kernel (backend/app/kernel): Kernel/Tasks the rows, Kernel/Orchestrator (orchestrator.py) the
--     readiness loop, claim and finish, Kernel/Reconciler (reconciler.py) the recovery after a
--     restart, Kernel/Completion (completion.py, completion_engine.py, supervisor.py) how a Mission
--     starts and ends. A transaction is one function on a `Store`; the row locks of the source make
--     them run one after another, and none finds a row locked (`skip_locked`). Kernel/Attempts, /Recovery and Completion/Verdict are the proofs.
--     Kernel/AgentProfile (inference/agent_config.py) and /AgentRuntime (agent_runtime.py): `run_next` claims a Task, asks
--     the router, runs the capability that the answer asks for, and ends the attempt, over the models of
--     all of these; an Agent's capabilities are the free-form dict that the table has.
--     AgentRuntime/Attempt and /Ended are the proofs.
--   * Services/Missions (backend/app/services/domain.py, kernel/distributor.py): what a Creator's
--     requests do to a Mission, from its plan to its execution; Missions/Starting is the proofs. The
--     Tasks that it distributes are those that the kernel runs, here with fewer columns.
--     Services/Conversations: messages with their replay check, closing, and decisions on Inceptions;
--     Conversations/Replay is its proof.
--     Services/Chronicle (backend/app/repositories/domain.py): `sanitize`, `add_event` and
--     `verify_chronicle`, over rows with all their columns, with the hash as a parameter; its children
--     are the proofs.
--     Services/Opportunities and its children Competition and Origin (backend/app/services/opportunity.py):
--     theses and leases, the resolution of a competition, and the Mission that comes of it; /Leases,
--     /Exclusive, /Acquire and /Earned are the proofs.
--   * SecurityTaskForce/Grants (backend/app/security_task_force/grants.py, contracts.py): grants and what
--     is spent of them; Grants/Spent and /Revoked are the proofs.
--   * Memory (backend/app/memory): metadata that asserts authority, and `validate_provenance` over the
--     tables that its queries join; Memory/Provenance is its proof.
--
-- Bounds and fuel. `visit` recurses on fuel one above the number of keys, and more is never needed:
-- along one chain of calls every key is new, or the call ends at a key that is being visited.
-- Python's own limit on recursion is not modelled. The loop of `start_mission` has three turns, one
-- for each status that leads on. All other functions are structural recursion.
-- Times and scores are whole ticks and whole parts, with exact arithmetic, where the source has
-- floats; a negative duration, which the constructors refuse, has no value. Amounts of money are whole
-- multiples of the least unit, and ratios of them are compared by multiplying out.
--
-- Not modelled: timestamps of rows, payloads of Tasks and the Chronicle events of the kernel, the
-- messages of exceptions, logging and tracing, the HTTP adapters of the providers
-- (inference/providers), the adapters of capabilities, the list
-- `model_profiles`, the rest of the backend (persistence, the other services, routes, voice,
-- diagnostics and more), the frontend and deployment: glue, external services or code left for an
-- extension of this library.
mod Prelude
pub mod Domain
pub mod MissionDag
pub mod Inference
pub mod Capabilities
pub mod Kernel
pub mod Services
pub mod Memory
pub mod Economy
pub mod SecurityTaskForce
