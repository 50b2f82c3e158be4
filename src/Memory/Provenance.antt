-- ===== src/Memory/Provenance.antt =====
-- Whose sources a memory may come from (memory/policy.py).
use the_creation_os.Prelude.{
  String, ◌≡◌, ◌↔◌, ◌∙◌, ap, sym, Bool, true, Option, none, some, ok, guard, string_eq, eq_iff,
  lookup, arith, Option-cases, inl, inr,
}
use the_creation_os.Memory.{
  MemorySourceType, conversation, message, inception, mission, task, agent_execution,
  capability_invocation, provenance_error, MemoryCandidate, Tables, joined, creator_of, is_creator,
  validate_provenance,
}

-- A source that belongs to a creator, by the rows that lead from it to them.
pub data BelongsTo (t : Tables) (creator : String) : MemorySourceType → String → Type 0 where
  of_conversation :
      (id : String)
      → lookup id t.conversation_creators ≡ some creator
      → BelongsTo t creator conversation id
  of_message :
      (id c : String)
      → lookup id t.message_conversations ≡ some c
      → BelongsTo t creator conversation c
      → BelongsTo t creator message id
  of_inception :
      (id c : String)
      → lookup id t.inception_conversations ≡ some c
      → BelongsTo t creator conversation c
      → BelongsTo t creator inception id
  of_mission :
      (id : String) → lookup id t.mission_creators ≡ some creator → BelongsTo t creator mission id
  of_task :
      (id m : String)
      → lookup id t.task_missions ≡ some m
      → BelongsTo t creator mission m
      → BelongsTo t creator task id
  of_execution :
      (id k : String)
      → lookup id t.execution_tasks ≡ some k
      → BelongsTo t creator task k
      → BelongsTo t creator agent_execution id
  of_invocation :
      (id m : String)
      → lookup id t.invocation_missions ≡ some m
      → BelongsTo t creator mission m
      → BelongsTo t creator capability_invocation id

found_by :
    (t : Tables) (creator : String) (s : MemorySourceType) (id : String)
    → BelongsTo t creator s id
    → creator_of t s id ≡ some creator
found_by t creator _ _ (of_conversation id e) = e
found_by t creator _ _ (of_mission id e) = e
found_by t creator _ _ (of_message id c e b) =
    ap (joined t.conversation_creators) e ∙ found_by t creator conversation c b
found_by t creator _ _ (of_inception id c e b) =
    ap (joined t.conversation_creators) e ∙ found_by t creator conversation c b
found_by t creator _ _ (of_task id m e b) =
    ap (joined t.mission_creators) e ∙ found_by t creator mission m b
found_by t creator _ _ (of_execution id k e b) =
    ap (λ x. joined t.mission_creators (joined t.task_missions x)) e ∙ found_by t creator task k b
found_by t creator _ _ (of_invocation id m e b) =
    ap (joined t.mission_creators) e ∙ found_by t creator mission m b

BelongsTo-task :
    (t : Tables) (creator id : String)
    → creator_of t task id ≡ some creator
    → BelongsTo t creator task id
BelongsTo-task t creator id h = elim (Option-cases (lookup id t.task_missions)) [
  | inl missing ↦ cc
  | inr (m, e) ↦ of_task id m e (of_mission m (sym (ap (joined t.mission_creators) e) ∙ h))
]

BelongsTo-found :
    (t : Tables) (creator : String) (s : MemorySourceType) (id : String)
    → creator_of t s id ≡ some creator
    → BelongsTo t creator s id
BelongsTo-found t creator conversation id h = of_conversation id h
BelongsTo-found t creator mission id h = of_mission id h
BelongsTo-found t creator message id h = elim (Option-cases (lookup id t.message_conversations)) [
  | inl missing ↦ cc
  | inr (c, e) ↦
      of_message id c e (of_conversation c (sym (ap (joined t.conversation_creators) e) ∙ h))
]
BelongsTo-found t creator inception id h =
    elim (Option-cases (lookup id t.inception_conversations)) [
      | inl missing ↦ cc
      | inr (c, e) ↦
          of_inception id c e (of_conversation c (sym (ap (joined t.conversation_creators) e) ∙ h))
    ]
BelongsTo-found t creator task id h = BelongsTo-task t creator id h
BelongsTo-found t creator agent_execution id h = elim (Option-cases (lookup id t.execution_tasks)) [
  | inl missing ↦ cc
  | inr (k, e) ↦ of_execution id k e (
      BelongsTo-task t creator k
        (sym (ap (λ x. joined t.mission_creators (joined t.task_missions x)) e) ∙ h))
]
BelongsTo-found t creator capability_invocation id h =
    elim (Option-cases (lookup id t.invocation_missions)) [
      | inl missing ↦ cc
      | inr (m, e) ↦
          of_invocation id m e (of_mission m (sym (ap (joined t.mission_creators) e) ∙ h))
    ]

is_creator_iff :
    (creator : String) (o : Option String) → (is_creator creator o ≡ true) ↔ (o ≡ some creator)
is_creator_iff creator none = ground arith
is_creator_iff creator (some owner) =
    (λ h. ap some ((eq_iff owner creator).0 h), λ h. (eq_iff owner creator).1 cc)

-- A memory's provenance is accepted exactly when rows lead from its source to the creator who asks:
-- through its Conversation, its Mission, or the Task of its execution.
pub validate_provenance_iff :
    (t : Tables) (creator : String) (c : MemoryCandidate)
    → (validate_provenance t creator c ≡ ok tt) ↔ BelongsTo t creator c.source_type c.source_id
unfolding validate_provenance
validate_provenance_iff t creator c =
    let o = creator_of t c.source_type c.source_id in
    (
      λ h.
          BelongsTo-found t creator c.source_type c.source_id
            ((is_creator_iff creator o).0 (passed (is_creator creator o) h)),
      λ b.
          ap (λ x. guard x provenance_error)
            ((is_creator_iff creator o).1 (found_by t creator c.source_type c.source_id b)),
    )
  where
    passed : (x : Bool) → guard x provenance_error ≡ ok tt → x ≡ true
    passed x h = ground arith
