-- ===== src/Capabilities/Runtime/AtMostOnce.antt =====
-- backend/app/capabilities/runtime.py: how often an adapter runs for one idempotency key, over every
-- interleaving of calls. A call selects, inserts, and goes on later; between, other calls take steps.
use the_creation_os.Prelude.{
  count_if-append, ℕ, ◌+◌, ◌≤◌, ◌≡◌, refl, String, Option, List, [], ◌∷◌, ◌++◌, Result,
  if◌then◌else◌, arith,
}
use the_creation_os.Capabilities.Contracts.{CapabilityResult}
use the_creation_os.Capabilities.Gateway.{AdapterCall, GatewayError, CapabilityGateway}
use the_creation_os.Capabilities.Spending.{Readings}
use the_creation_os.Economy.Ledger.{Settings}
use the_creation_os.Capabilities.Runtime.{
  InvocationRow, Database, Call, Claim, answered, claimed, claim, Outcome, perform,
}
use the_creation_os.Capabilities.Runtime.Rows.{
  uses_key, rows_with, opens_with, calls_with, IsClaimOf, claim-IsClaimOf, IsPerformOf,
  perform-IsPerformOf,
}

-- The tables, the calls that hold a row and have not gone on, and the adapter calls so far.
pub record World : Type 0 where
  pub database : Database
  pub open_calls : List Call
  pub log : List AdapterCall

abbrev pub after_claim_step : Call → World → Claim × Database → World
after_claim_step c w (answered answer, db) = record w { database = db }
after_claim_step c w (claimed, db) = record w { database = db; open_calls = c ∷ w.open_calls }

abbrev pub after_perform_step : List Call → List AdapterCall → Outcome → World
after_perform_step rest log (answer, db, calls) = record {
  database = db;
  open_calls = rest;
  log = log ++ calls;
}

module _ (run : AdapterCall → Result GatewayError CapabilityResult) (instant_of : String → Option ℕ)
    (reads : Readings) (s : Settings) (g : CapabilityGateway) where
  -- The select may have seen any rows, of any time.
  pub data Reachable : World → Type 0 where
    begun :
        (db : Database)
        → db.invocations ≡ []
        → Reachable (record { database = db; open_calls = []; log = [] })
    claims :
        {w : World} (now : ℕ) (c : Call) (seen : List InvocationRow)
        → Reachable w
        → Reachable (after_claim_step c w (claim g instant_of now c seen w.database))
    performs :
        {db : Database} {log : List AdapterCall} (before after : List Call) (now : ℕ) (c : Call)
        → Reachable (record { database = db; open_calls = before ++ c ∷ after; log = log })
        → Reachable
            (after_perform_step (before ++ after) log (perform run instant_of reads s g now c db))

-- Each adapter call and each open call of a key has its row, and there is one row at most.
record IsCovered (key : String) (w : World) : Type 0 where
  few : rows_with key w.database.invocations ≤ 1
  covered :
      calls_with key w.log + opens_with key w.open_calls ≤ rows_with key w.database.invocations

after_claim-IsCovered :
    (key : String) (c : Call) (w : World) (o : Claim × Database)
    → IsCovered key w
    → IsClaimOf key c w.database o
    → IsCovered key (after_claim_step c w o)
after_claim-IsCovered key c w (answered answer, db) i h = record {
  few = h.few;
  covered = omega (arith, i.covered, h.kept);
}
after_claim-IsCovered key c w (claimed, db) i h = record {
  few = h.few;
  covered = ground (arith, i.covered, h.grown refl);
}

opens-split :
    (key : String) (before after : List Call) (c : Call)
    → opens_with key (before ++ c ∷ after)
      ≡ opens_with key (before ++ after) + (if uses_key key c.intent then 1 else 0)
opens-split key [] after c = ground arith
opens-split key (d ∷ before) after c = ground (arith, opens-split key before after c)

after_perform-IsCovered :
    (key : String) (before after : List Call) (c : Call) (db : Database) (log : List AdapterCall)
    (o : Outcome)
    → IsCovered key (record { database = db; open_calls = before ++ c ∷ after; log = log })
    → IsPerformOf key c db.invocations o
    → IsCovered key (after_perform_step (before ++ after) log o)
after_perform-IsCovered key before after c db log (answer, db', calls) i h = record {
  few = omega (arith, i.few, h.same_rows);
  covered = omega (
    arith,
    i.covered,
    h.same_rows,
    h.one_call,
    opens-split key before after c,
    count_if-append (λ (x : AdapterCall). uses_key key x.intent) log calls,
  );
}

module _ (run : AdapterCall → Result GatewayError CapabilityResult) (instant_of : String → Option ℕ)
    (reads : Readings) (s : Settings) (g : CapabilityGateway) where
  Reachable-IsCovered :
      (key : String) (w : World) → Reachable run instant_of reads s g w → IsCovered key w
  Reachable-IsCovered key w (begun db fresh) = record {
    few = rw fresh (omega arith);
    covered = rw fresh (omega arith);
  }
  Reachable-IsCovered key w (claims {w = before} now c seen h) =
      let i = Reachable-IsCovered key before h in
      after_claim-IsCovered key c before _ i
        (claim-IsClaimOf g instant_of now key c seen before.database i.few)
  Reachable-IsCovered key w (performs {db = db} {log = log} before after now c h) =
      after_perform-IsCovered key before after c db log _
        (Reachable-IsCovered key
          (record { database = db; open_calls = before ++ c ∷ after; log = log }) h)
        (perform-IsPerformOf run instant_of reads s g now key c db)

-- However calls interleave, and whatever rows their selects saw, the adapters run at most once for an
-- idempotency key, and the key has one row at most.
pub adapter_called_at_most_once :
    (run : AdapterCall → Result GatewayError CapabilityResult) (instant_of : String → Option ℕ)
    (reads : Readings) (s : Settings) (g : CapabilityGateway) (key : String) (w : World)
    → Reachable run instant_of reads s g w
    → (calls_with key w.log ≤ 1) × (rows_with key w.database.invocations ≤ 1)
adapter_called_at_most_once run instant_of reads s g key w h =
    let i = Reachable-IsCovered run instant_of reads s g key w h in
    (omega (arith, i.covered, i.few), i.few)
