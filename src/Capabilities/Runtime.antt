-- ===== src/Capabilities/Runtime.antt =====
-- backend/app/capabilities/runtime.py, `CapabilityRuntime.execute`. What an adapter does is the parameter
-- `run`, as in the gateway. Other sessions may write between the select of an earlier invocation and the
-- insert, so the rows that the select saw are an argument beside the rows that the insert meets.
pub mod Rows
pub mod AtMostOnce
pub mod Replays
mod Tests
use the_creation_os.Prelude.{
  ℕ, String, Bool, true, false, not, ◌&&◌, ◌||◌, Option, none, some, List, [], ◌∷◌, ◌++◌, Result,
  ok, err, guard, ◌>>=◌, ◌>>◌, if◌then◌else◌, ◌==◌, string_eq, Dict, any,
}
use the_creation_os.Prelude.Json.{Fields}
use the_creation_os.Capabilities.Contracts.{
  IdempotencyClass, at_most_once, CapabilityIntent, MissionAuthorization, CapabilityContext,
  CapabilityResult,
}
use the_creation_os.Capabilities.Policy.{
  CapabilityDeclaration, PolicyError, capability_denied, invalid_timestamp,
  effective_idempotency_class, authorize_capability, has_key, is_at_most_once,
}
use the_creation_os.Capabilities.Gateway.{
  AdapterCall, GatewayError, CapabilityGateway, declaration, execute,
}
use the_creation_os.Capabilities.Spending.{
  Readings, SpendingError, economy, Place, TaskPlace, prepare_economic_execution, confirmed_pnl,
}
use the_creation_os.Economy.Ledger.{Entry, Settings}
use the_creation_os.Economy.Entries.{EconomicError, Economy}
use the_creation_os.Economy.Capital.{
  Request, Pnl, gain, mark_capability_uncertain, settle_capability_result,
}

pub data RowStatus : Type 0 where
  authorized denied uncertain failed succeeded : RowStatus

pub data RowError : Type 0 where
  policy_denied economic_policy_denied capability_execution_failed : RowError
  reported_error : Fields → RowError

-- A row of `capability_invocations`, whose `result` is none while it is the empty object.
pub record InvocationRow : Type 0 where
  pub id : String
  pub mission_id : String
  pub task_id : Option String
  pub agent_execution_id : Option String
  pub intent : CapabilityIntent
  pub authorization_version : ℕ
  pub status : RowStatus
  pub result : Option CapabilityResult
  pub error : Option RowError

pub data RuntimeError : Type 0 where
  policy : PolicyError → RuntimeError
  integrity_error reconciliation_required disappeared : RuntimeError
  already_claimed : RowStatus → RuntimeError
  spending : SpendingError → RuntimeError
  gateway : GatewayError → RuntimeError

pub record Database : Type 0 where
  pub invocations : List InvocationRow
  pub economy_rows : Economy
  pub tasks : Dict String TaskPlace

pub record Call : Type 0 where
  pub place : Place
  pub agent_execution_id : Option String
  pub intent : CapabilityIntent
  pub authorization : MissionAuthorization

abbrev pub invocation : Call → RowStatus → Option RowError → InvocationRow
invocation c status error = record {
  id = c.place.invocation_id;
  mission_id = c.place.mission_id;
  task_id = c.place.task_id;
  agent_execution_id = c.agent_execution_id;
  intent = c.intent;
  authorization_version = c.authorization.version;
  status = status;
  result = none;
  error = error;
}

abbrev pub same_key : String → Option String → Bool
same_key key none = false
same_key key (some own) = own == key

abbrev pub row_with_key : String → List InvocationRow → Option InvocationRow
row_with_key key [] = none
row_with_key key (i ∷ is) =
    let rest = row_with_key key is in if same_key key i.intent.idempotency_key then some i else rest

abbrev pub has_row_with : String → List InvocationRow → Bool
has_row_with key is = any (λ i. same_key key i.intent.idempotency_key) is

-- The unique index is on the key of any class, where there is a key.
abbrev pub is_taken : Option String → List InvocationRow → Bool
is_taken none is = false
is_taken (some key) is = has_row_with key is

abbrev pub add_invocation : InvocationRow → Database → Result RuntimeError Database
add_invocation i db =
    if is_taken i.intent.idempotency_key db.invocations
    then err integrity_error
    else ok (record db { invocations = db.invocations ++ i ∷ [] })

-- `session.get(CapabilityInvocation, invocation_id)`, then what is written to its columns.
abbrev pub with_invocation :
    String → (InvocationRow → InvocationRow) → List InvocationRow → List InvocationRow
with_invocation id change [] = []
with_invocation id change (i ∷ is) =
    let rest = with_invocation id change is in if i.id == id then change i ∷ rest else i ∷ rest

abbrev pub has_invocation : String → List InvocationRow → Bool
has_invocation id is = any (λ i. i.id == id) is

abbrev pub write_status :
    RowStatus → Option CapabilityResult → Option RowError → InvocationRow → InvocationRow
write_status status result error i = record i { status = status; result = result; error = error }

abbrev pub resolved_by : RowStatus → Option CapabilityResult → Result RuntimeError CapabilityResult
resolved_by uncertain result = err reconciliation_required
resolved_by succeeded (some r) = ok r
resolved_by failed (some r) = ok r
resolved_by status result = err (already_claimed status)

unfoldable pub resolve_at_most_once_replay : InvocationRow → Result RuntimeError CapabilityResult
resolve_at_most_once_replay i = resolved_by i.status i.result

-- What the code before the adapter comes to: an answer, or a row to go on with.
pub data Claim : Type 0 where
  answered : Result RuntimeError CapabilityResult → Claim
  claimed : Claim

-- A denial whose own row is refused raises that error.
abbrev pub deny_by : PolicyError → Database → Result RuntimeError Database → Claim × Database
deny_by e db (err refused) = (answered (err refused), db)
deny_by e db (ok db') = (answered (err (policy e)), db')

abbrev pub deny : Call → PolicyError → Database → Claim × Database
deny c e db = deny_by e db (add_invocation (invocation c denied (some policy_denied)) db)

abbrev pub existing_once : Bool → Option String → List InvocationRow → Option InvocationRow
existing_once once none seen = none
existing_once once (some key) seen = if once && not (key == "") then row_with_key key seen else none

-- `except IntegrityError`
abbrev pub resolve_or_raise : Option InvocationRow → Result RuntimeError CapabilityResult
resolve_or_raise none = err integrity_error
resolve_or_raise (some existing) = resolve_at_most_once_replay existing

abbrev pub insert_claim : Bool → Call → Result RuntimeError Database → Database → Claim × Database
insert_claim once c (ok db') db = (claimed, db')
insert_claim once c (err e) db =
    (answered (resolve_or_raise (existing_once once c.intent.idempotency_key db.invocations)), db)

abbrev pub claim_unless : Bool → Call → Option InvocationRow → Database → Claim × Database
claim_unless once c (some existing) db = (answered (resolve_at_most_once_replay existing), db)
claim_unless once c none db =
    insert_claim once c (add_invocation (invocation c authorized none) db) db

abbrev pub claim_by :
    Bool → Call → Result PolicyError (Unit {0}) → List InvocationRow → Database → Claim × Database
claim_by once c (err invalid_timestamp) seen db = (answered (err (policy invalid_timestamp)), db)
claim_by once c (err (capability_denied why)) seen db = deny c (capability_denied why) db
claim_by once c (ok allowed) seen db =
    claim_unless once c (existing_once once c.intent.idempotency_key seen) db

abbrev pub is_once_for : CapabilityGateway → Call → Bool
is_once_for g c =
    is_at_most_once (effective_idempotency_class c.intent (declaration g c.intent.capability))

unfoldable pub claim :
    CapabilityGateway
    → (String → Option ℕ)
    → ℕ
    → Call
    → List InvocationRow
    → Database
    → Claim × Database
claim g instant_of now c seen db =
    claim_by (is_once_for g c) c
      (authorize_capability instant_of now c.intent c.authorization
        (some (declaration g c.intent.capability)))
      seen db

abbrev pub Outcome : Type 0
Outcome = Result RuntimeError CapabilityResult × Database × List AdapterCall

-- The last write of the row, then what is returned or raised.
abbrev pub finish_invocation :
    Call
    → RowStatus
    → Option CapabilityResult
    → Option RowError
    → Result RuntimeError CapabilityResult
    → Database
    → List AdapterCall
    → Outcome
finish_invocation c status result error answer db calls =
    if has_invocation c.place.invocation_id db.invocations
    then (
      answer,
      record db {
        invocations =
            with_invocation c.place.invocation_id (write_status status result error) db.invocations;
      },
      calls,
    )
    else (err disappeared, db, calls)

-- A failed adapter call: the capital is uncertain or settled; an error of that write is raised
-- before the row is.
abbrev pub failed_economy :
    Settings → Place → Bool → Option Request → Database → Result EconomicError Economy
failed_economy s at once none db = ok db.economy_rows
failed_economy s at true (some r) db =
    mark_capability_uncertain s (record r { id = at.settle_id }) db.economy_rows >>= λ written.
    ok written.1
failed_economy s at false (some r) db =
    settle_capability_result s (record r { id = at.settle_id }) (gain 0) db.economy_rows
    >>= λ written. ok written.1

abbrev pub fail_with :
    Call
    → Bool
    → GatewayError
    → Result EconomicError Economy
    → Database
    → List AdapterCall
    → Outcome
fail_with c once e (err broken) db calls = (err (spending (economy broken)), db, calls)
fail_with c once e (ok x) db calls =
    finish_invocation c (if once then uncertain else failed) none (some capability_execution_failed)
      (err (gateway e)) (record db { economy_rows = x }) calls

abbrev pub settled_economy :
    Settings
    → Readings
    → Place
    → CapabilityResult
    → Option Request
    → Database
    → Result RuntimeError Economy
settled_economy s reads at result none db = ok db.economy_rows
settled_economy s reads at result (some r) db = elim (confirmed_pnl reads result) [
  | err e ↦ err (spending e)
  | ok pnl ↦
      elim (settle_capability_result s (record r { id = at.settle_id }) pnl db.economy_rows) [
        | err e ↦ err (spending (economy e))
        | ok written ↦ ok written.1
      ]
]

abbrev pub complete :
    Call → CapabilityResult → Result RuntimeError Economy → Database → List AdapterCall → Outcome
complete c result (err broken) db calls = (err broken, db, calls)
complete c result (ok x) db calls =
    finish_invocation c (if result.ok then succeeded else failed) (some result)
      (if result.ok then none else some (reported_error result.error)) (ok result)
      (record db { economy_rows = x }) calls

abbrev pub context_of : Call → CapabilityContext
context_of c = record {
  mission_id = c.place.mission_id;
  task_id = c.place.task_id;
  authorization = c.authorization;
}

module _ (run : AdapterCall → Result GatewayError CapabilityResult) (instant_of : String → Option ℕ)
    (reads : Readings) (s : Settings) (g : CapabilityGateway) (now : ℕ) where
  abbrev pub after_adapter :
      Call
      → Option Request
      → Database
      → Result GatewayError CapabilityResult × List AdapterCall
      → Outcome
  after_adapter c economic db (err e, calls) =
      fail_with c (is_once_for g c) e (failed_economy s c.place (is_once_for g c) economic db) db
        calls
  after_adapter c economic db (ok result, calls) =
      complete c result (settled_economy s reads c.place result economic db) db calls

  abbrev pub after_spending :
      Call → Result SpendingError (Option Request) × Economy → Database → Outcome
  after_spending c (err e, x) db =
      finish_invocation c denied none (some economic_policy_denied) (err (spending e))
        (record db { economy_rows = x }) []
  after_spending c (ok economic, x) db =
      after_adapter c economic (record db { economy_rows = x })
        (execute run instant_of now g c.intent (context_of c))

  -- What is done with a row that is authorized.
  unfoldable pub perform : Call → Database → Outcome
  perform c db =
      after_spending c
        (prepare_economic_execution reads s db.tasks c.place c.intent
          ((declaration g c.intent.capability).external_effect || c.intent.external_effect)
          db.economy_rows)
        db

  abbrev pub after_claim : Call → Claim × Database → Outcome
  after_claim c (answered answer, db) = (answer, db, [])
  after_claim c (claimed, db) = perform c db

  -- One call by itself: the insert meets the rows that the select saw.
  unfoldable pub execute_capability : Call → Database → Outcome
  execute_capability c db = after_claim c (claim g instant_of now c db.invocations db)
