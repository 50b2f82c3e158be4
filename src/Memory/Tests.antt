-- ===== src/Memory/Tests.antt =====
-- A witness and a run for backend/app/memory.
use the_creation_os.Prelude.{◌≡◌, refl, [], ◌∷◌, ok, err}
use the_creation_os.Prelude.Json.{null, done, field}
use the_creation_os.Memory.{
  authority_metadata, MemoryCandidate, agent_execution, Tables, reject_authority_metadata,
  validate_provenance,
}
use the_creation_os.Memory.Provenance.{BelongsTo, validate_provenance_iff}

abbrev tables : Tables
tables = record {
  conversation_creators = [];
  message_conversations = [];
  inception_conversations = [];
  mission_creators = ("m", "c") ∷ [];
  task_missions = ("t", "m") ∷ [];
  execution_tasks = ("e", "t") ∷ [];
  invocation_missions = [];
}

abbrev candidate : MemoryCandidate
candidate = record {
  source_type = agent_execution;
  source_id = "e";
  content = "done";
  metadata = done;
}

authority_refused :
    reject_authority_metadata (field "Creator-Approval" null done) ≡ err authority_metadata
unfolding reject_authority_metadata
authority_refused = refl

validate_provenance_iff_example :
    (validate_provenance tables "c" candidate ≡ ok tt → BelongsTo tables "c" agent_execution "e")
    × (BelongsTo tables "c" agent_execution "e" → validate_provenance tables "c" candidate ≡ ok tt)
validate_provenance_iff_example = validate_provenance_iff tables "c" candidate
