-- ===== src/Economy/Tests.antt =====
-- Witnesses for backend/app/services/economy.py.
use the_creation_os.Prelude.{
  ◌≡◌, ◌≢◌, refl, false, true, none, some, List, [], ◌∷◌, ◌++◌, ok, string_eq, normalize,
}
use the_creation_os.Economy.Ledger.{
  Entry, genesis, reserve, commit, loss, real_mode, Settings, economic_status, active,
  economic_suspended, is_simulated, project_universe_economy, add_entry,
}
use the_creation_os.Economy.Entries.{
  Economy, append_ledger_entry, account_of, ensure_suspension_if_required,
}
use the_creation_os.Economy.Capital.{
  Request, account, entry_of, totals_for, check_limits, reserve_for_capability,
}
use the_creation_os.Economy.Floor.{IsWithinLimits, reserve-IsWithinLimits}
use the_creation_os.Economy.Suspension.{loss-ends_reserves}
use the_creation_os.Economy.Replay.{again, append_ledger_entry-again}
use the_creation_os.Economy.Flows.{
  Flow, is_reserved, is_committed, begun, apart, opened, moved, IsSumOf, project-IsSumOf,
}

abbrev limits : Settings
limits = record {
  real_economic_mode_enabled = true;
  unit = 100;
  structural_reserve = 30;
  max_operational = 70;
  max_risk_per_action = 20;
  max_exposure = 50;
  daily_stop = 10;
  drawdown_stop = 25;
}

abbrev request : Request
request = record {
  id = "2";
  outcome_id = "3";
  suspension_id = "4";
  day = 1;
  creator_id = "c";
  universe_id = "u";
  mission_id = none;
  opportunity_id = none;
  amount = 20;
  currency = "EUR";
  external_reference = "key";
}

abbrev allocation : Entry
allocation = record (entry_of request genesis "SETTLED" real_mode) {
  id = "1";
  amount = 100;
  reference = some "genesis";
}

abbrev ledger : Economy
ledger = record {
  creators = "c" ∷ [];
  universes = "u" ∷ [];
  missions = [];
  opportunities = [];
  entries = allocation ∷ [];
}

abbrev reservation : Entry
reservation = entry_of request reserve "RESERVED" real_mode

abbrev reserved_ledger : Economy
reserved_ledger = record ledger { entries = allocation ∷ reservation ∷ [] }

accepted :
    reserve_for_capability limits request real_mode ledger ≡ ok (reservation, reserved_ledger)
unfolding reserve_for_capability append_ledger_entry check_limits economic_status
    project_universe_economy add_entry is_simulated normalize
accepted = refl

reserve-IsWithinLimits_example :
    (economic_status limits (totals_for request ledger) ≡ active)
    × IsWithinLimits limits (totals_for request reserved_ledger)
reserve-IsWithinLimits_example =
    reserve-IsWithinLimits limits request real_mode ledger reserved_ledger reservation accepted

abbrev drop : Entry
drop = entry_of request loss "SETTLED" real_mode

abbrev suspended_ledger : Economy
suspended_ledger = record ledger {
  entries = ensure_suspension_if_required limits "4" 1 (account request) (allocation ∷ drop ∷ []);
}

booked : append_ledger_entry limits "4" 1 drop ledger ≡ ok (drop, suspended_ledger)
unfolding append_ledger_entry
booked = refl

stopped :
    economic_status limits (project_universe_economy 1 (account_of drop) (allocation ∷ drop ∷ []))
    ≡ economic_suspended
unfolding economic_status project_universe_economy add_entry is_simulated normalize
stopped = refl

loss-ends_reserves_example :
    reserve_for_capability limits
      (record request { day = 2; external_reference = "later" })
      real_mode
      (record suspended_ledger { entries = suspended_ledger.entries ++ allocation ∷ [] })
    ≢ ok (reservation, ledger)
loss-ends_reserves_example =
    loss-ends_reserves limits limits "4" 1 drop drop ledger suspended_ledger (allocation ∷ [])
      (record request { day = 2; external_reference = "later" }) real_mode (reservation, ledger)
      refl refl refl stopped booked refl

written : append_ledger_entry limits "4" 1 reservation ledger ≡ ok (reservation, reserved_ledger)
unfolding append_ledger_entry
written = refl

append_ledger_entry-again_example :
    append_ledger_entry limits "5" 2 (again reservation "9" 7 2 real_mode) reserved_ledger
    ≡ ok (reservation, reserved_ledger)
append_ledger_entry-again_example =
    append_ledger_entry-again limits "4" "5" "9" 1 2 7 2 real_mode "key" reservation reservation
      ledger reserved_ledger refl refl written

abbrev second : Entry
second =
    entry_of (record request { id = "8"; amount = 5; external_reference = "other" }) reserve
      "RESERVED" real_mode

abbrev committed_first : Entry
committed_first = entry_of request commit "COMMITTED" real_mode

real_rows : is_simulated real_mode ≡ false
unfolding is_simulated normalize
real_rows = refl

abbrev rows : List Entry
rows = allocation ∷ reservation ∷ second ∷ committed_first ∷ []

abbrev open_flows : List Flow
open_flows =
    record { stage = is_reserved; amount = 5 } ∷ record { stage = is_committed; amount = 20 } ∷ []

project-IsSumOf_example : IsSumOf open_flows (project_universe_economy 1 (account request) rows)
project-IsSumOf_example = project-IsSumOf 1 (account request) open_flows rows (
    moved (record { stage = is_reserved; amount = 5 } ∷ []) [] committed_first is_reserved
      is_committed real_rows refl
      (opened second real_rows refl
        (opened reservation real_rows refl (apart allocation refl begun))))
