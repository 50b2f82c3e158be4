-- ===== src/Capabilities/Runtime/Tests.antt =====
-- Witnesses for capabilities/runtime.py: a payment whose adapter requires AT_MOST_ONCE.
use the_creation_os.Prelude.{
  ℕ, String, ◌≡◌, ◌≤◌, refl, ap, true, [], ◌∷◌, Option, none, some, Result, ok, string_eq, lookup,
  normalize,
}
use the_creation_os.Prelude.Json
use the_creation_os.Prelude.Json.{Json, Fields, done, field, number, text}
use the_creation_os.Capabilities.Contracts.{
  safe, CapabilityIntent, MissionAuthorization, CapabilityResult,
}
use the_creation_os.Capabilities.Policy.{
  authorize_capability, check_scope, effective_idempotency_class,
}
use the_creation_os.Capabilities.Gateway.{
  AdapterCall, GatewayError, CapabilityGateway, declaration, declaration_for, execute,
}
use the_creation_os.Capabilities.Spending.{
  Readings, prepare_economic_execution, request_of, confirmed_pnl,
}
use the_creation_os.Economy.Ledger.{
  Entry, Settings, genesis, real_mode, is_simulated, add_entry, economic_status,
  project_universe_economy,
}
use the_creation_os.Economy.Entries.{append_ledger_entry}
use the_creation_os.Economy.Capital.{
  gain, check_limits, reserve_for_capability, mark_capability_committed, mark_capability_settling,
  settle_capability_result,
}
use the_creation_os.Capabilities.Runtime.{
  Database, Call, RuntimeError, authorized, invocation, is_once_for, claim, perform,
  execute_capability, Outcome, resolve_at_most_once_replay,
}
use the_creation_os.Capabilities.Runtime.Rows.{calls_with, rows_with}
use the_creation_os.Capabilities.Runtime.AtMostOnce.{
  World, Reachable, begun, claims, performs, after_perform_step, adapter_called_at_most_once,
}
use the_creation_os.Capabilities.Runtime.Replays.{execute_capability_again}

abbrev reads : Readings
reads = record {
  shown = λ j. "u";
  upper = λ t. t;
  magnitude = λ j. some 10;
  signed = λ j. some (gain 3);
  default_currency = "EUR";
}

abbrev limits : Settings
limits = record {
  real_economic_mode_enabled = true;
  unit = 100;
  structural_reserve = 30;
  max_operational = 70;
  max_risk_per_action = 20;
  max_exposure = 50;
  daily_stop = 10;
  drawdown_stop = 25;
}

abbrev no_time : String → Option ℕ
no_time t = none

abbrev bank : CapabilityGateway
bank = record {
  adapters =
      ("bank", record { name = "bank"; external_effect = none; minimum_idempotency_class = none })
      ∷ [];
}

abbrev paid : CapabilityResult
paid = record { capability = "bank"; action = "pay"; ok = true; payload = done; error = done }

abbrev run : AdapterCall → Result GatewayError CapabilityResult
run c = ok paid

abbrev leave : MissionAuthorization
leave = record {
  allowed_capabilities = "bank" ∷ [];
  denied_capabilities = [];
  scope = done;
  external_effects_allowed = true;
  risk_level = "low";
  budget = done;
  expires_at = none;
  version = 1;
  authorized_by = "c";
  authorized_at = "now";
}

abbrev pay : CapabilityIntent
pay = record {
  capability = "bank";
  action = "pay";
  resource = none;
  arguments = done;
  external_effect = true;
  idempotency_class = safe;
  idempotency_key = some "k";
  economic = field "max_spend" (number 10) (field "universe_id" (text "u") done);
}

abbrev call : Call
call = record {
  place = record {
    mission_id = "m";
    task_id = none;
    invocation_id = "i";
    reserve_id = "1";
    commit_id = "2";
    settling_id = "3";
    settle_id = "4";
    outcome_id = "5";
    suspension_id = "6";
    day = 1;
  };
  agent_execution_id = none;
  intent = pay;
  authorization = leave;
}

abbrev allocation : Entry
allocation = record {
  id = "0";
  creator_id = "c";
  universe_id = "u";
  mission_id = none;
  opportunity_id = none;
  kind = genesis;
  amount = 100;
  currency = "EUR";
  status = "SETTLED";
  reference = some "genesis";
  metadata = real_mode;
  day = 1;
}

abbrev database : Database
database = record {
  invocations = [];
  economy_rows = record {
    creators = "c" ∷ [];
    universes = "u" ∷ [];
    missions = ("m", record { creator_id = "c"; opportunity_id = none }) ∷ [];
    opportunities = [];
    entries = allocation ∷ [];
  };
  tasks = [];
}

abbrev first : Outcome
first = execute_capability run no_time reads limits bank 7 call database

answered_first : first.0 ≡ ok paid
unfolding execute_capability claim perform authorize_capability check_scope
    effective_idempotency_class Json.get declaration declaration_for execute lookup
    prepare_economic_execution request_of confirmed_pnl reserve_for_capability
    mark_capability_committed mark_capability_settling settle_capability_result append_ledger_entry
    check_limits economic_status project_universe_economy add_entry is_simulated normalize
answered_first = refl

abbrev second_call : Call
second_call = record call { place = record call.place { invocation_id = "j" } }

once : is_once_for bank call ≡ true
unfolding declaration declaration_for lookup effective_idempotency_class
once = refl

allowed : authorize_capability no_time 9 pay leave (some (declaration bank "bank")) ≡ ok tt
unfolding authorize_capability check_scope effective_idempotency_class Json.get declaration
    declaration_for lookup
allowed = refl

execute_capability_again_example :
    execute_capability run no_time reads limits bank 9 second_call first.1 ≡ (ok paid, first.1, [])
execute_capability_again_example =
    execute_capability_again run no_time reads limits bank 7 9 "k" call second_call database first.1
      paid first.2 refl refl refl once once allowed
      (ap (λ (x : Result RuntimeError CapabilityResult). (x, first.1, first.2)) answered_first)

-- Both calls select before either inserts; the second insert is refused.
abbrev both_claimed : World
both_claimed = record {
  database = record database { invocations = invocation call authorized none ∷ [] };
  open_calls = call ∷ [];
  log = [];
}

abbrev performed : World
performed =
    after_perform_step [] [] (perform run no_time reads limits bank 7 call both_claimed.database)

interleaved : Reachable run no_time reads limits bank both_claimed
unfolding claim authorize_capability check_scope effective_idempotency_class Json.get declaration
    declaration_for lookup resolve_at_most_once_replay
interleaved = claims 8 second_call [] (claims 7 call [] (begun database refl))

reached : Reachable run no_time reads limits bank performed
reached = performs [] [] 7 call interleaved

adapter_called_at_most_once_example :
    (calls_with "k" performed.log ≤ 1) × (rows_with "k" performed.database.invocations ≤ 1)
adapter_called_at_most_once_example =
    adapter_called_at_most_once run no_time reads limits bank "k" performed reached
