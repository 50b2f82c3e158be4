-- ===== src/Economy/Capital.antt =====
-- backend/app/services/economy.py, from `ensure_genesis_allocation` on: what a capability does with
-- capital. Amounts are absolute values. The advisory lock is not modelled: a call runs alone. The
-- limits are ratios of the net asset value, multiplied out by `unit`.
use the_creation_os.Prelude.{
  ℕ, zero, suc, ◌+◌, ◌*◌, String, Bool, false, Option, none, some, List, [], ◌∷◌, Result, ok, err,
  guard, ◌>>=◌, ◌>>◌, if◌then◌else◌, ltb, leb,
}
use the_creation_os.Economy.Ledger.{
  Kind, genesis, reserve, commit, settling, settle, profit, loss, unknown, real_mode, Metadata,
  Entry, Totals, Account, EconomicStatus, active, economic_suspended, reconciliation_required,
  Settings, economic_status, project_universe_economy,
}
use the_creation_os.Economy.Entries.{
  EconomicError, mode_not_enabled, amount_not_positive, not_active, above_action_risk,
  above_exposure, above_operational, structural_floor, insufficient, Economy, append_ledger_entry,
}

-- The arguments that the operations share, the day, and the ids of the rows that they may write: the
-- entry, the outcome of a settlement, the suspension.
pub record Request : Type 0 where
  pub id : String
  pub outcome_id : String
  pub suspension_id : String
  pub day : ℕ
  pub creator_id : String
  pub universe_id : String
  pub mission_id : Option String
  pub opportunity_id : Option String
  pub amount : ℕ
  pub currency : String
  pub external_reference : String

abbrev pub account : Request → Account
account r = record { creator_id = r.creator_id; universe_id = r.universe_id; currency = r.currency }

abbrev pub entry_of : Request → Kind → String → Metadata → Entry
entry_of r kind status metadata = record {
  id = r.id;
  creator_id = r.creator_id;
  universe_id = r.universe_id;
  mission_id = r.mission_id;
  opportunity_id = r.opportunity_id;
  kind = kind;
  amount = r.amount;
  currency = r.currency;
  status = status;
  reference = some r.external_reference;
  metadata = metadata;
  day = r.day;
}

abbrev pub append_for :
    Settings → Request → Kind → String → Metadata → Economy → Result EconomicError (Entry × Economy)
append_for s r kind status metadata x =
    append_ledger_entry s r.suspension_id r.day (entry_of r kind status metadata) x

-- The reference `f"genesis:{creator_id}:{universe_id}:{currency}"` and the default amount and
-- currency come in the request, which has no Mission and no Opportunity.
unfoldable pub ensure_genesis_allocation :
    Settings → Request → Economy → Result EconomicError (Entry × Economy)
ensure_genesis_allocation s r x = do
  guard s.real_economic_mode_enabled mode_not_enabled
  append_for s (record r { mission_id = none; opportunity_id = none }) genesis "SETTLED" real_mode x

-- `part <= nav * ratio`, where the net asset value is what came in less what went out
abbrev pub within_ratio : Settings → ℕ → ℕ → Totals → Bool
within_ratio s part ratio t = leb (part * s.unit + t.debit * ratio) (t.credit * ratio)

abbrev pub exposure : Totals → ℕ
exposure t = t.reserved + t.committed + t.settling

-- `available - requested >= structural_floor`
abbrev pub keeps_floor : Settings → ℕ → Totals → Bool
keeps_floor s requested t =
    leb ((t.debit + exposure t + requested) * s.unit + t.credit * s.structural_reserve)
      (t.credit * s.unit + t.debit * s.structural_reserve)

-- `requested <= available`
abbrev pub is_available : ℕ → Totals → Bool
is_available requested t = leb (t.debit + exposure t + requested) t.credit

abbrev pub check_economic_status : EconomicStatus → Result EconomicError (Unit {0})
check_economic_status active = ok tt
check_economic_status economic_suspended = err not_active
check_economic_status reconciliation_required = err not_active

unfoldable pub check_limits : Settings → ℕ → Totals → Result EconomicError (Unit {0})
check_limits s requested t = do
  guard (within_ratio s requested s.max_risk_per_action t) above_action_risk
  guard (within_ratio s (exposure t + requested) s.max_exposure t) above_exposure
  guard (within_ratio s (exposure t + requested) s.max_operational t) above_operational
  guard (keeps_floor s requested t) structural_floor
  guard (is_available requested t) insufficient

abbrev pub check_projection : Settings → ℕ → Totals → Result EconomicError (Unit {0})
check_projection s requested t =
    check_economic_status (economic_status s t) >> check_limits s requested t

abbrev pub totals_for : Request → Economy → Totals
totals_for r x = project_universe_economy r.day (account r) x.entries

-- `{**metadata, "mode": "real"}`
abbrev pub with_real_mode : Metadata → Metadata
with_real_mode m = record m { mode = "real" }

unfoldable pub reserve_for_capability :
    Settings → Request → Metadata → Economy → Result EconomicError (Entry × Economy)
reserve_for_capability s r metadata x = do
  guard s.real_economic_mode_enabled mode_not_enabled
  guard (ltb 0 r.amount) amount_not_positive
  check_projection s r.amount (totals_for r x)
  append_for s r reserve "RESERVED" (with_real_mode metadata) x

unfoldable pub mark_capability_committed :
    Settings → Request → Economy → Result EconomicError (Entry × Economy)
mark_capability_committed s r x = append_for s r commit "COMMITTED" real_mode x

unfoldable pub mark_capability_settling :
    Settings → Request → Economy → Result EconomicError (Entry × Economy)
mark_capability_settling s r x = append_for s r settling "SETTLING" real_mode x

unfoldable pub mark_capability_uncertain :
    Settings → Request → Economy → Result EconomicError (Entry × Economy)
mark_capability_uncertain s r x = append_for s r unknown "UNKNOWN" real_mode x

-- The realized profit or loss.
pub data Pnl : Type 0 where
  gain drop : ℕ → Pnl

-- `realized < -settled_amount`
abbrev pub exceeds : Pnl → ℕ → Bool
exceeds (gain n) amount = false
exceeds (drop n) amount = ltb amount n

abbrev pub outcome_of : Request → ℕ → Request
outcome_of r n = record r { id = r.outcome_id; amount = n }

abbrev pub add_outcome :
    Settings → Request → Kind → ℕ → Entry × Economy → Result EconomicError (List Entry × Economy)
add_outcome s r kind n (first, x) =
    append_for s (outcome_of r n) kind "SETTLED" real_mode x >>= λ written.
    ok (first ∷ written.0 ∷ [], written.1)

-- `if realized != 0:`
abbrev pub add_realized :
    Settings → Request → Pnl → Entry × Economy → Result EconomicError (List Entry × Economy)
add_realized s r (gain zero) (first, x) = ok (first ∷ [], x)
add_realized s r (gain (suc n)) (first, x) = add_outcome s r profit (suc n) (first, x)
add_realized s r (drop zero) (first, x) = ok (first ∷ [], x)
add_realized s r (drop (suc n)) (first, x) = add_outcome s r loss (suc n) (first, x)

abbrev pub only : Entry × Economy → Result EconomicError (List Entry × Economy)
only (first, x) = ok (first ∷ [], x)

-- Both entries have one scope and texts that are given, so the second is refused only with the first.
unfoldable pub settle_capability_result :
    Settings → Request → Pnl → Economy → Result EconomicError (List Entry × Economy)
settle_capability_result s r pnl x =
    if exceeds pnl r.amount
    then mark_capability_uncertain s r x >>= only
    else append_for s r settle "SETTLED" real_mode x >>= add_realized s r pnl
