-- ===== src/Economy/Ledger.antt =====
-- backend/app/services/economy.py, `project_universe_economy`: what the entries of a ledger add up to.
-- An amount is a whole number of the least unit, and its sign is not read. A ratio is a whole number of
-- parts of `unit`; comparisons of quotients are multiplied out, so nothing is rounded. Net asset value
-- may be negative: it is kept as what came in and what went out.
use the_creation_os.Prelude.{
  ℕ, ◌+◌, ◌-◌, ◌*◌, max, String, Bool, true, false, not, ◌&&◌, ◌||◌, Option, none, some, List, [],
  ◌∷◌, ltb, leb, if◌then◌else◌, ◌==◌, string_eq, nat_eq, codes_eq, contains, erase, map, normalize,
}

pub data Kind : Type 0 where
  genesis reserve release reservation_released commit settling settle settled : Kind
  profit loss unknown suspension reconciled : Kind
  other : String → Kind

-- What is read of `metadata_json`.
pub record Metadata : Type 0 where
  pub mode : String
  pub real : Option Bool
  pub unknown_reference : Option String
  pub release_settling : Bool

abbrev pub real_mode : Metadata
real_mode = record { mode = "real"; real = none; unknown_reference = none; release_settling = true }

pub record Entry : Type 0 where
  pub id : String
  pub creator_id : String
  pub universe_id : String
  pub mission_id : Option String
  pub opportunity_id : Option String
  pub kind : Kind
  pub amount : ℕ
  pub currency : String
  pub status : String
  pub reference : Option String
  pub metadata : Metadata
  pub day : ℕ

-- SIMULATED_MODES
abbrev pub simulated_modes : List String
simulated_modes = "simulation" ∷ "simulated" ∷ "paper" ∷ "shadow" ∷ []

abbrev pub is_false : Option Bool → Bool
is_false none = false
is_false (some b) = not b

unfoldable pub is_simulated : Metadata → Bool
is_simulated m = contains (normalize m.mode) (map normalize simulated_modes) || is_false m.real

pub record Totals : Type 0 where
  pub credit : ℕ
  pub debit : ℕ
  pub peak : ℕ
  pub reserved : ℕ
  pub committed : ℕ
  pub settling : ℕ
  pub profits : ℕ
  pub unresolved : List String
  pub today_loss : ℕ
  pub sticky : Bool

abbrev pub no_totals : Totals
no_totals = record {
  credit = 0;
  debit = 0;
  peak = 0;
  reserved = 0;
  committed = 0;
  settling = 0;
  profits = 0;
  unresolved = [];
  today_loss = 0;
  sticky = false;
}

abbrev pub add_reference : String → List String → List String
add_reference key keys = if contains key keys then keys else key ∷ keys

-- `x or y` of an optional text
abbrev pub text_or : Option String → String → String
text_or none rest = rest
text_or (some text) rest = if text == "" then rest else text

abbrev pub discard : String → List String → List String
discard key keys = if key == "" then keys else erase key keys

-- The branches on the entry's type.
abbrev pub add_kind : ℕ → Entry → Kind → Totals → Totals
add_kind today e genesis t = record t { credit = t.credit + e.amount }
add_kind today e reserve t = record t { reserved = t.reserved + e.amount }
add_kind today e release t = record t { reserved = t.reserved - e.amount }
add_kind today e reservation_released t = record t { reserved = t.reserved - e.amount }
add_kind today e commit t = record t {
  reserved = t.reserved - e.amount;
  committed = t.committed + e.amount;
}
add_kind today e settling t = record t {
  committed = t.committed - e.amount;
  settling = t.settling + e.amount;
}
add_kind today e settle t = record t { settling = t.settling - e.amount }
add_kind today e settled t = record t { settling = t.settling - e.amount }
add_kind today e profit t = record t {
  credit = t.credit + e.amount;
  profits = t.profits + e.amount;
}
add_kind today e loss t = record t {
  debit = t.debit + e.amount;
  today_loss = if e.day == today then t.today_loss + e.amount else t.today_loss;
}
add_kind today e unknown t = record t {
  unresolved = add_reference (text_or e.reference e.id) t.unresolved;
}
add_kind today e suspension t = record t { sticky = true }
add_kind today e reconciled t = record t {
  unresolved = discard (text_or e.metadata.unknown_reference (text_or e.reference "")) t.unresolved;
  settling = if e.metadata.release_settling then t.settling - e.amount else t.settling;
}
add_kind today e (other name) t = t

abbrev pub raise_peak : Totals → Totals
raise_peak t = record t { peak = max t.peak (t.credit - t.debit) }

unfoldable pub add_entry : ℕ → Totals → Entry → Totals
add_entry today t e = if is_simulated e.metadata then t else raise_peak (add_kind today e e.kind t)

abbrev pub add_entries : ℕ → Totals → List Entry → Totals
add_entries today t [] = t
add_entries today t (e ∷ es) = add_entries today (add_entry today t e) es

-- Whose entries are added up.
pub record Account : Type 0 where
  pub creator_id : String
  pub universe_id : String
  pub currency : String

abbrev pub belongs : Account → Entry → Bool
belongs a e =
    (e.creator_id == a.creator_id)
    && ((e.universe_id == a.universe_id) && (e.currency == a.currency))

abbrev pub entries_of : Account → List Entry → List Entry
entries_of a [] = []
entries_of a (e ∷ es) = let rest = entries_of a es in if belongs a e then e ∷ rest else rest

pub data EconomicStatus : Type 0 where
  active economic_suspended reconciliation_required : EconomicStatus

-- The ratios of the settings, in parts of `unit`, and whether real money is used at all.
pub record Settings : Type 0 where
  pub real_economic_mode_enabled : Bool
  pub unit : ℕ
  pub structural_reserve : ℕ
  pub max_operational : ℕ
  pub max_risk_per_action : ℕ
  pub max_exposure : ℕ
  pub daily_stop : ℕ
  pub drawdown_stop : ℕ

-- `nav <= 0 and peak_nav > 0`
abbrev pub is_ruined : Totals → Bool
is_ruined t = leb t.credit t.debit && ltb 0 t.peak

-- `drawdown >= economic_drawdown_stop_ratio`; the drawdown is (peak - nav) / peak below the peak.
abbrev pub is_drawn_down : Settings → Totals → Bool
is_drawn_down s t =
    if ltb 0 t.peak && ltb t.credit (t.debit + t.peak)
    then leb (s.drawdown_stop * t.peak) (s.unit * (t.debit + t.peak - t.credit))
    else leb s.drawdown_stop 0

-- `daily_loss_ratio >= economic_daily_stop_ratio`
abbrev pub is_stopped_today : Settings → Totals → Bool
is_stopped_today s t =
    if ltb 0 t.peak then leb (s.daily_stop * t.peak) (s.unit * t.today_loss) else leb s.daily_stop 0

abbrev pub status_by : Bool → Bool → EconomicStatus
status_by unresolved stopped =
    if unresolved then reconciliation_required else if stopped then economic_suspended else active

abbrev pub is_empty : List String → Bool
is_empty [] = true
is_empty (x ∷ xs) = false

unfoldable pub economic_status : Settings → Totals → EconomicStatus
economic_status s t =
    status_by (not (is_empty t.unresolved))
      (t.sticky || (is_ruined t || (is_drawn_down s t || is_stopped_today s t)))

unfoldable pub project_universe_economy : ℕ → Account → List Entry → Totals
project_universe_economy today a es = add_entries today no_totals (entries_of a es)
