-- ===== src/Capabilities/Spending.antt =====
-- backend/app/capabilities/runtime.py, `_prepare_economic_execution` and `_confirmed_pnl`: the capital
-- that a capability asks for, and what it reports to have made of it. `Readings` is what Python's `str`,
-- `upper` and `Decimal` make of a JSON value; `none` where the constructor raises.
use the_creation_os.Prelude.{
  ℕ, zero, suc, String, Bool, true, not, Option, none, some, Result, ok, err, guard, ◌>>=◌, ◌>>◌,
  if◌then◌else◌, ◌==◌, string_eq, Dict, lookup,
}
use the_creation_os.Prelude.Json.{Json, null, object, get, truthy}
use the_creation_os.Capabilities.Contracts.{CapabilityIntent, CapabilityResult}
use the_creation_os.Economy.Ledger.{Entry, Settings, real_mode}
use the_creation_os.Economy.Entries.{EconomicError, Economy, MissionScope}
use the_creation_os.Economy.Capital.{
  Request, Pnl, gain, reserve_for_capability, mark_capability_committed, mark_capability_settling,
}

pub record Readings : Type 0 where
  pub shown : Json → String
  pub upper : String → String
  pub magnitude : Json → Option ℕ
  pub signed : Json → Option Pnl
  pub default_currency : String

pub data SpendingError : Type 0 where
  decimal_invalid no_mapping mission_missing task_missing task_outside_mission : SpendingError
  universe_required universe_mismatch opportunity_mismatch : SpendingError
  economy : EconomicError → SpendingError

-- Where the call stands: its Task, the ids of the rows that it may write, and the day.
pub record Place : Type 0 where
  pub mission_id : String
  pub task_id : Option String
  pub invocation_id : String
  pub reserve_id : String
  pub commit_id : String
  pub settling_id : String
  pub settle_id : String
  pub outcome_id : String
  pub suspension_id : String
  pub day : ℕ

pub record TaskPlace : Type 0 where
  pub mission_id : String
  pub universe_id : String

-- What `get` gives, where a null is `None` too.
abbrev pub present : Option Json → Option Json
present none = none
present (some null) = none
present (some value) = some value

abbrev pub shown_or : Readings → String → Option Json → String
shown_or reads default none = default
shown_or reads default (some value) = if truthy (some value) then reads.shown value else default

abbrev pub find_task :
    Dict String TaskPlace → Option String → Result SpendingError (Option TaskPlace)
find_task tasks none = ok none
find_task tasks (some id) = elim (lookup id tasks) [
  | none ↦ err task_missing
  | some t ↦ ok (some t)
]

abbrev pub check_task_mission : String → Option TaskPlace → Result SpendingError (Unit {0})
check_task_mission mission_id none = ok tt
check_task_mission mission_id (some t) = guard (t.mission_id == mission_id) task_outside_mission

abbrev pub universe_for : Readings → Option Json → Option TaskPlace → String
universe_for reads requested none = shown_or reads "" requested
universe_for reads requested (some t) = t.universe_id

-- `requested is not None and str(requested) != expected`
abbrev pub is_expected : Readings → Option Json → String → Bool
is_expected reads none expected = true
is_expected reads (some value) expected = reads.shown value == expected

abbrev pub text_of : Option String → String
text_of none = ""
text_of (some t) = t

-- `key or other`
abbrev pub key_or : Option String → String → String
key_or none other = other
key_or (some key) other = if key == "" then other else key

abbrev pub economic_request :
    Readings → Place → CapabilityIntent → ℕ → MissionScope → String → Request
economic_request reads at intent amount mission universe_id = record {
  id = at.reserve_id;
  outcome_id = at.outcome_id;
  suspension_id = at.suspension_id;
  day = at.day;
  creator_id = mission.creator_id;
  universe_id = universe_id;
  mission_id = some at.mission_id;
  opportunity_id = mission.opportunity_id;
  amount = amount;
  currency = reads.upper (shown_or reads reads.default_currency (get "currency" intent.economic));
  external_reference = key_or intent.idempotency_key at.invocation_id;
}

abbrev pub found_mission : Option MissionScope → Result SpendingError MissionScope
found_mission none = err mission_missing
found_mission (some m) = ok m

-- Whose capital is asked for, with every check.
unfoldable pub request_of :
    Readings
    → Dict String TaskPlace
    → Place
    → CapabilityIntent
    → ℕ
    → Economy
    → Result SpendingError Request
request_of reads tasks at intent amount x = do
  mission ← found_mission (lookup at.mission_id x.missions)
  task ← find_task tasks at.task_id
  check_task_mission at.mission_id task
  let requested = present (get "universe_id" intent.economic)
  let universe_id = universe_for reads requested task
  guard (not (universe_id == "")) universe_required
  guard (is_expected reads requested universe_id) universe_mismatch
  guard
      (is_expected reads (present (get "opportunity_id" intent.economic))
        (text_of mission.opportunity_id))
      opportunity_mismatch
  ok (economic_request reads at intent amount mission universe_id)

-- Each of the three entries is stored before the next, so an error leaves those before it.
abbrev pub after_commit :
    Request
    → Result EconomicError (Entry × Economy)
    → Economy
    → Result SpendingError (Option Request) × Economy
after_commit r (err e) x = (err (economy e), x)
after_commit r (ok (written, x')) x = (ok (some r), x')

abbrev pub after_reserve :
    Settings
    → Place
    → Request
    → Result EconomicError (Entry × Economy)
    → Economy
    → Result SpendingError (Option Request) × Economy
after_reserve s at r (err e) x = (err (economy e), x)
after_reserve s at r (ok (written, x')) x =
    elim (mark_capability_committed s (record r { id = at.commit_id }) x') [
      | err e ↦ (err (economy e), x')
      | ok (committed, x'') ↦
          after_commit r (mark_capability_settling s (record r { id = at.settling_id }) x'') x''
    ]

abbrev pub spend :
    Settings
    → Place
    → Result SpendingError Request
    → Economy
    → Result SpendingError (Option Request) × Economy
spend s at (err e) x = (err e, x)
spend s at (ok r) x = after_reserve s at r (reserve_for_capability s r real_mode x) x

-- `amount = abs(Decimal(str(raw_amount)))`, and nothing is asked for where it is zero.
abbrev pub spend_amount :
    Readings
    → Settings
    → Dict String TaskPlace
    → Place
    → CapabilityIntent
    → Economy
    → Option ℕ
    → Result SpendingError (Option Request) × Economy
spend_amount reads s tasks at intent x none = (err decimal_invalid, x)
spend_amount reads s tasks at intent x (some zero) = (ok none, x)
spend_amount reads s tasks at intent x (some (suc n)) =
    spend s at (request_of reads tasks at intent (suc n) x) x

abbrev pub spend_raw :
    Readings
    → Settings
    → Dict String TaskPlace
    → Place
    → CapabilityIntent
    → Economy
    → Option Json
    → Result SpendingError (Option Request) × Economy
spend_raw reads s tasks at intent x none = (ok none, x)
spend_raw reads s tasks at intent x (some raw) =
    spend_amount reads s tasks at intent x (reads.magnitude raw)

-- An intent without economic fields has no "max_spend" either.
unfoldable pub prepare_economic_execution :
    Readings
    → Settings
    → Dict String TaskPlace
    → Place
    → CapabilityIntent
    → Bool
    → Economy
    → Result SpendingError (Option Request) × Economy
prepare_economic_execution reads s tasks at intent has_external_effect x =
    if has_external_effect
    then spend_raw reads s tasks at intent x (present (get "max_spend" intent.economic))
    else (ok none, x)

-- `(result.data.get("economic") or {}).get("pnl")`
abbrev pub reported : Option Json → Result SpendingError (Option Json)
reported none = ok none
reported (some (object fields)) = ok (present (get "pnl" fields))
reported (some value) = if truthy (some value) then err no_mapping else ok none

abbrev pub read_pnl : Readings → Option Json → Result SpendingError Pnl
read_pnl reads none = ok (gain 0)
read_pnl reads (some raw) = elim (reads.signed raw) [
  | none ↦ err decimal_invalid
  | some pnl ↦ ok pnl
]

unfoldable pub confirmed_pnl : Readings → CapabilityResult → Result SpendingError Pnl
confirmed_pnl reads result =
    if result.ok then reported (get "economic" result.payload) >>= read_pnl reads else ok (gain 0)
