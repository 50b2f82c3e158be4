-- ===== src/Kernel/AgentRuntime/Ended.antt =====
-- backend/app/kernel/agent_runtime.py, `run_next`: what it leaves of the attempt that it claims.
use the_creation_os.Prelude.{
  ◌≡◌, refl, ap, ◌∙◌, String, Bool, true, false, ◌&&◌, Option, none, some, is_some, List, map,
  Result, ok, err, string_eq, if_both, Distinct, lookup,
}
use the_creation_os.Prelude.Json
use the_creation_os.Prelude.Json.{Json, Fields, truthy}
use the_creation_os.Domain.{MissionStatus}
use the_creation_os.Capabilities.Contracts.{CapabilityIntent, MissionAuthorization}
use the_creation_os.Capabilities.Spending.{present}
use the_creation_os.Capabilities.Runtime
use the_creation_os.Inference.Contracts.{InferenceResponse}
use the_creation_os.Inference.Router.{State, Raised}
use the_creation_os.Kernel.Tasks.{Task, Execution, Store, execution_by_id}
use the_creation_os.Kernel.Orchestrator.{KernelError, claim_next_ready_task, Ending}
use the_creation_os.Kernel.Completion.{CompletionError, evaluate}
use the_creation_os.Kernel.AgentProfile.{effective_agent_capabilities, fallback_names, model_of}
use the_creation_os.Kernel.AgentRuntime.{
  AgentRuntime, AgentRow, MissionPlace, CapabilityRuntime, Turn, Site, kernel,
  active_agent_not_found, mission_not_found, invalid_profile, completion, RunResult, evaluated,
  finish_run, after_capability, run_capability, with_capability, mission_authorization,
  after_intent, after_answer, ask_provider, with_names, run_claimed, after_work, run_next,
}
use the_creation_os.Kernel.AgentRuntime.Attempt.{
  IsClaimedAs, IsEnded, finish-IsEnded, claim-IsClaimedAs, claim-no_attempt, evaluate-executions,
}

-- The Agent's capabilities, as they take effect, can be read: the fallback providers are iterable and the
-- model is a text or `None`.
abbrev pub is_readable : AgentRuntime → AgentRow → Bool
is_readable a agent =
    let fs = effective_agent_capabilities a.first_provider a.more_providers agent.capabilities in
    is_some (fallback_names a.written (Json.get "fallback_providers" fs))
    && is_some (model_of (Json.get "model" fs))

-- A Task was claimed for an Agent whose capabilities cannot be read, and its attempt runs on.
pub record IsStranded (a : AgentRuntime) (turn : Turn) (w w' : Site) : Type 0 where
  task : Task
  agent : AgentRow
  of_task : lookup task.agent_id w.agents ≡ some agent
  unreadable : is_readable a agent ≡ false
  claimed : IsClaimedAs turn.execution_id task w'.store

-- How a turn concludes, from a site to a result.
abbrev pub Concluded : AgentRuntime → Turn → Site → RunResult → Type 0
Concluded a turn w (ok true, w') = IsEnded turn.execution_id w'.store
Concluded a turn w (ok false, w') = execution_by_id turn.execution_id w'.store.executions ≡ none
Concluded a turn w (err (completion e), w') = IsEnded turn.execution_id w'.store
Concluded a turn w (err (kernel e), w') = w' ≡ w
Concluded a turn w (err active_agent_not_found, w') = w' ≡ w
Concluded a turn w (err mission_not_found, w') = w' ≡ w
Concluded a turn w (err invalid_profile, w') = IsStranded a turn w w'

module _ (a : AgentRuntime) (turn : Turn) (start : Site) where
  evaluated-Concluded :
      (w : Site) (e : Result CompletionError (Option MissionStatus × Store))
      → evaluate turn.mission_id w.store ≡ e
      → IsEnded turn.execution_id w.store
      → Concluded a turn start (evaluated w e)
  evaluated-Concluded w (err e) h i = i
  evaluated-Concluded w (ok (target, s)) h i = record {
    execution = i.execution;
    found =
        ap (execution_by_id turn.execution_id)
          (evaluate-executions turn.mission_id w.store s target h)
        ∙ i.found;
    ended = i.ended;
  }

  finish_run-Concluded :
      (t : Task) (ending : Ending) (w : Site)
      → IsClaimedAs turn.execution_id t w.store
      → Concluded a turn start (finish_run a turn t ending w)
  finish_run-Concluded t ending w c =
      let (s, finished, ended) = finish-IsEnded turn.execution_id t ending w.store c in
      rw finished (
        if_both (Concluded a turn start) a.has_completion_engine
          (evaluated-Concluded (record w { store = s }) _ refl ended) ended)

  capability-Concluded :
      (t : Task) (response : InferenceResponse) (w : Site) (o : Runtime.Outcome)
      → IsClaimedAs turn.execution_id t w.store
      → Concluded a turn start (after_capability a turn t response w o)
  capability-Concluded t response w (err e, db, calls) c =
      finish_run-Concluded t _ (record w { database = db }) c
  capability-Concluded t response w (ok result, db, calls) c =
      if_both (Concluded a turn start) result.ok
        (finish_run-Concluded t _ (record w { database = db }) c)
        (finish_run-Concluded t _ (record w { database = db }) c)

  intent-Concluded :
      (t : Task) (response : InferenceResponse) (w : Site) (o : Option Json)
      → IsClaimedAs turn.execution_id t w.store
      → Concluded a turn start (after_intent a turn t response w o)
  intent-Concluded t response w none c = finish_run-Concluded t _ w c
  intent-Concluded t response w (some payload) c = by_runtime a.capability_runtime
    where
      by_reading :
          (r : CapabilityRuntime) (i : Option CapabilityIntent) (m : Option MissionAuthorization)
          → Concluded a turn start (run_capability a turn t response w r i m)
      by_reading r (some intent) (some authorization) = capability-Concluded t response w _ c
      by_reading r (some intent) none = finish_run-Concluded t _ w c
      by_reading r none m = finish_run-Concluded t _ w c

      by_runtime :
          (r : Option CapabilityRuntime)
          → Concluded a turn start (with_capability a turn t response w payload r)
      by_runtime none = finish_run-Concluded t _ w c
      by_runtime (some r) =
          by_reading r (a.read_intent payload)
            (mission_authorization a (lookup turn.mission_id w.missions))

  answer-Concluded :
      (t : Task) (w : Site) (r : Result Raised InferenceResponse × State)
      → IsClaimedAs turn.execution_id t w.store
      → Concluded a turn start (after_answer a turn t w r)
  answer-Concluded t w (err e, routing) c =
      finish_run-Concluded t _ (record w { routing = routing }) c
  answer-Concluded t w (ok response, routing) c =
      intent-Concluded t response (record w { routing = routing })
        (present (lookup "capability_intent" response.metadata)) c

  module _ (t : Task) (s : Store) (m : MissionPlace) (agent : AgentRow)
      (row : lookup t.agent_id start.agents ≡ some agent)
      (c : IsClaimedAs turn.execution_id t s) where
    abbrev profile : Fields
    profile = effective_agent_capabilities a.first_provider a.more_providers agent.capabilities

    stranded :
        is_readable a agent ≡ false
        → Concluded a turn start (err invalid_profile, record start { store = s })
    stranded h = record { task = t; agent = agent; of_task = row; unreadable = h; claimed = c }

    model-Concluded :
        (names : List String) (model : Option (Option String))
        → model_of (Json.get "model" profile) ≡ model
        → Concluded a turn start
            (ask_provider a turn t (record start { store = s }) m profile names model)
    model-Concluded names none h = stranded (unreadable_by _ (ap is_some h))
      where
        unreadable_by : (b : Bool) {d : Bool} → d ≡ false → (b && d) ≡ false
        unreadable_by true h' = h'
        unreadable_by false h' = refl
    model-Concluded names (some model) h = answer-Concluded t (record start { store = s }) _ c

    names-Concluded :
        (names : Option (List String))
        → fallback_names a.written (Json.get "fallback_providers" profile) ≡ names
        → Concluded a turn start (with_names a turn t (record start { store = s }) m profile names)
    names-Concluded none h = stranded (
        ap
          (λ (b : Option (List String)). is_some b && is_some (model_of (Json.get "model" profile)))
          h)
    names-Concluded (some names) h =
        if_both (Concluded a turn start) (truthy (Json.get "inference_provider" profile))
          (model-Concluded names _ refl) (finish_run-Concluded t _ (record start { store = s }) c)

  work-Concluded :
      (t : Task) (s : Store) (agent : Option AgentRow) (m : Option MissionPlace)
      → lookup t.agent_id start.agents ≡ agent
      → IsClaimedAs turn.execution_id t s
      → Concluded a turn start (run_claimed a turn t start s agent m)
  work-Concluded t s none m row c = refl
  work-Concluded t s (some agent) none row c =
      if_both (Concluded a turn start) agent.active refl refl
  work-Concluded t s (some agent) (some m) row c =
      if_both (Concluded a turn start) agent.active (names-Concluded t s m agent row c _ refl) refl

-- What a turn leaves of the attempt that it claims, where the Tasks have different ids and the new
-- execution's id is unused. If it reports work, or its verdict on the Mission raises, then the attempt is
-- in the table and does not run any more, whatever the provider and the capability did. If it reports no
-- work, there is no attempt. Where the Agent's fallback providers are not iterable or its model is neither
-- a text nor `None`, the turn may raise after the claim is stored, and the attempt runs on. Any other error
-- leaves everything as it was.
pub run_next-Concluded :
    (a : AgentRuntime) (turn : Turn) (w : Site)
    → Distinct (map (λ (t : Task). t.id) w.store.tasks)
    → execution_by_id turn.execution_id w.store.executions ≡ none
    → Concluded a turn w (run_next a turn w)
unfolding run_next
run_next-Concluded a turn w d fresh =
    by_claim (claim_next_ready_task turn.execution_id turn.mission_id w.store) refl
  where
    by_claim :
        (r : Result KernelError (Option (Task × Execution) × Store))
        → claim_next_ready_task turn.execution_id turn.mission_id w.store ≡ r
        → Concluded a turn w (after_work a turn w r)
    by_claim (err e) h = refl
    by_claim (ok (none, s)) h = claim-no_attempt turn.execution_id turn.mission_id w.store s fresh h
    by_claim (ok (some (t, e), s)) h =
        work-Concluded a turn w t s (lookup t.agent_id w.agents) (lookup turn.mission_id w.missions)
          refl (claim-IsClaimedAs turn.execution_id turn.mission_id w.store s t e d fresh h)
