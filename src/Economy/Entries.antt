-- ===== src/Economy/Entries.antt =====
-- backend/app/services/economy.py, `append_ledger_entry` and the suspension that a loss may bring. The
-- texts come stripped and in upper case; the id and the day of a new entry are given. Two sessions that
-- write one entry at once are not modelled: the unique key on it makes the later read the earlier's.
use the_creation_os.Prelude.{
  ℕ, String, Bool, true, false, not, ◌&&◌, Option, none, some, List, [], ◌∷◌, ◌++◌, Result, ok, err,
  guard, ◌>>◌, if◌then◌else◌, ◌==◌, string_eq, contains, Dict, lookup, join_texts,
}
use the_creation_os.Economy.Ledger.{
  Kind, genesis, reserve, release, reservation_released, commit, settling, settle, settled, profit,
  loss, unknown, suspension, reconciled, other, real_mode, Entry, Account, EconomicStatus, active,
  economic_suspended, reconciliation_required, Settings, economic_status, project_universe_economy,
}

pub data EconomicError : Type 0 where
  not_found value_error mode_not_enabled amount_not_positive not_active : EconomicError
  above_action_risk above_exposure above_operational structural_floor insufficient : EconomicError

-- The rows that `_validate_scope` reads: a Mission's creator and Opportunity, an Opportunity's creator.
pub record MissionScope : Type 0 where
  pub creator_id : String
  pub opportunity_id : Option String

pub record Economy : Type 0 where
  pub creators : List String
  pub universes : List String
  pub missions : Dict String MissionScope
  pub opportunities : Dict String String
  pub entries : List Entry

abbrev pub same_opportunity : String → Option String → Bool
same_opportunity id none = true
same_opportunity id (some other_id) = other_id == id

abbrev pub mission_serves : Option String → MissionScope → Bool
mission_serves none m = true
mission_serves (some opportunity) m = same_opportunity opportunity m.opportunity_id

abbrev pub check_mission :
    String → Option String → Option MissionScope → Result EconomicError (Unit {0})
check_mission creator_id opportunity none = err not_found
check_mission creator_id opportunity (some m) = do
  guard (m.creator_id == creator_id) not_found
  guard (mission_serves opportunity m) not_found

abbrev pub check_mission_id :
    Economy → String → Option String → Option String → Result EconomicError (Unit {0})
check_mission_id x creator_id opportunity none = ok tt
check_mission_id x creator_id opportunity (some id) =
    check_mission creator_id opportunity (lookup id x.missions)

abbrev pub is_owned : String → Option String → Bool
is_owned creator_id none = false
is_owned creator_id (some owner) = owner == creator_id

abbrev pub check_opportunity : Economy → String → Option String → Result EconomicError (Unit {0})
check_opportunity x creator_id none = ok tt
check_opportunity x creator_id (some id) =
    guard (is_owned creator_id (lookup id x.opportunities)) not_found

abbrev pub validate_scope : Economy → Entry → Result EconomicError (Unit {0})
validate_scope x e = do
  guard (contains e.creator_id x.creators) not_found
  guard (contains e.universe_id x.universes) not_found
  check_mission_id x e.creator_id e.opportunity_id e.mission_id
  check_opportunity x e.creator_id e.opportunity_id

-- The type of an entry as a text is compared.
abbrev pub same_kind : Kind → Kind → Bool
same_kind genesis genesis = true
same_kind reserve reserve = true
same_kind release release = true
same_kind reservation_released reservation_released = true
same_kind commit commit = true
same_kind settling settling = true
same_kind settle settle = true
same_kind settled settled = true
same_kind profit profit = true
same_kind loss loss = true
same_kind unknown unknown = true
same_kind suspension suspension = true
same_kind reconciled reconciled = true
same_kind (other a) (other b) = a == b
same_kind _ _ = false

abbrev pub has_reference : String → Option String → Bool
has_reference reference none = false
has_reference reference (some own) = own == reference

-- The row that the query for an existing entry finds.
abbrev pub is_transition : Entry → String → Entry → Bool
is_transition e reference x =
    (x.creator_id == e.creator_id)
    && ((x.universe_id == e.universe_id)
        && (same_kind x.kind e.kind && has_reference reference x.reference))

abbrev pub first_entry : (Entry → Bool) → List Entry → Option Entry
first_entry test [] = none
first_entry test (e ∷ es) = let rest = first_entry test es in if test e then some e else rest

-- `if external_reference:`
abbrev pub existing_for : Option String → Entry → List Entry → Option Entry
existing_for none e es = none
existing_for (some reference) e es =
    if reference == "" then none else first_entry (is_transition e reference) es

abbrev pub existing_entry : Entry → List Entry → Option Entry
existing_entry e es = existing_for e.reference e es

abbrev pub is_named : Kind → Bool
is_named (other name) = not (name == "")
is_named _ = true

abbrev pub has_texts : Entry → Bool
has_texts e = is_named e.kind && (not (e.status == "") && not (e.currency == ""))

abbrev pub account_of : Entry → Account
account_of e = record {
  creator_id = e.creator_id;
  universe_id = e.universe_id;
  currency = e.currency;
}

-- The reference `f"suspension:{creator_id}:{universe_id}:{currency}"` of an account.
abbrev pub suspension_reference : Account → String
suspension_reference a =
    join_texts ("suspension:" ∷ a.creator_id ∷ ":" ∷ a.universe_id ∷ ":" ∷ a.currency ∷ [])

-- The row that the query for an existing suspension finds.
abbrev pub is_suspension_of : Account → Entry → Bool
is_suspension_of a e =
    (e.creator_id == a.creator_id)
    && ((e.universe_id == a.universe_id)
        && (same_kind e.kind suspension && has_reference (suspension_reference a) e.reference))

abbrev pub suspension_entry : String → ℕ → Account → Entry
suspension_entry id day a = record {
  id = id;
  creator_id = a.creator_id;
  universe_id = a.universe_id;
  mission_id = none;
  opportunity_id = none;
  kind = suspension;
  amount = 0;
  currency = a.currency;
  status = "ECONOMIC_SUSPENDED";
  reference = some (suspension_reference a);
  metadata = real_mode;
  day = day;
}

abbrev pub suspend_unless : String → ℕ → Account → Option Entry → List Entry → List Entry
suspend_unless id day a none es = es ++ suspension_entry id day a ∷ []
suspend_unless id day a (some existing) es = es

abbrev pub suspend_by : String → ℕ → Account → EconomicStatus → List Entry → List Entry
suspend_by id day a economic_suspended es =
    suspend_unless id day a (first_entry (is_suspension_of a) es) es
suspend_by id day a active es = es
suspend_by id day a reconciliation_required es = es

unfoldable pub ensure_suspension_if_required :
    Settings → String → ℕ → Account → List Entry → List Entry
ensure_suspension_if_required s id today a es =
    suspend_by id today a (economic_status s (project_universe_economy today a es)) es

abbrev pub is_loss : Kind → Bool
is_loss loss = true
is_loss _ = false

-- `id'` is the id of the suspension, if one is written.
abbrev pub with_entry : Settings → String → ℕ → Entry → List Entry → List Entry
with_entry s id' today e es =
    let written = es ++ e ∷ [] in
    if is_loss e.kind
    then ensure_suspension_if_required s id' today (account_of e) written
    else written

abbrev pub write_entry : Settings → String → ℕ → Entry → Option Entry → Economy → Entry × Economy
write_entry s id' today e (some existing) x = (existing, x)
write_entry s id' today e none x = (e, record x { entries = with_entry s id' today e x.entries })

unfoldable pub append_ledger_entry :
    Settings → String → ℕ → Entry → Economy → Result EconomicError (Entry × Economy)
append_ledger_entry s id' today e x = do
  validate_scope x e
  guard (has_texts e) value_error
  ok (write_entry s id' today e (existing_entry e x.entries) x)
