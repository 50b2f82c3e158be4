-- ===== src/Capabilities/Runtime/Replays.antt =====
-- backend/app/capabilities/runtime.py: the answer to an AT_MOST_ONCE call that is made again.
use the_creation_os.Prelude.{
  ℕ, ◌≡◌, refl, sym, ap, ◌∙◌, subst, String, Bool, true, false, Option, none, some, List, [], ◌∷◌,
  ◌++◌, Result, ok, err, if◌then◌else◌, ◌==◌, string_eq, beq_refl, Bool-cases, if_both, inl, inr,
  arith,
}
use the_creation_os.Capabilities.Contracts.{CapabilityResult}
use the_creation_os.Capabilities.Policy.{
  PolicyError, capability_denied, invalid_timestamp, authorize_capability,
}
use the_creation_os.Capabilities.Gateway.{
  AdapterCall, GatewayError, CapabilityGateway, declaration, execute,
}
use the_creation_os.Capabilities.Spending.{Readings, SpendingError, prepare_economic_execution}
use the_creation_os.Economy.Ledger.{Settings}
use the_creation_os.Economy.Entries.{EconomicError, Economy}
use the_creation_os.Economy.Capital.{Request}
use the_creation_os.Capabilities.Runtime.{
  RowStatus, authorized, succeeded, failed, RowError, InvocationRow, RuntimeError, Database, Call,
  invocation, same_key, row_with_key, add_invocation, with_invocation, has_invocation, write_status,
  resolve_at_most_once_replay, existing_once, resolve_or_raise, deny_by, insert_claim, claim_unless,
  claim_by, is_once_for, claim, Outcome, fail_with, failed_economy, complete, settled_economy,
  context_of, after_adapter, after_spending, perform, after_claim, execute_capability,
}
use the_creation_os.Capabilities.Runtime.Rows.{added}

-- The table answers for the key.
abbrev pub Answers : String → CapabilityResult → List InvocationRow → Type 0
Answers key r is =
    (i : InvocationRow) × (row_with_key key is ≡ some i) × (resolve_at_most_once_replay i ≡ ok r)

row_with_key-last :
    (key : String) (is : List InvocationRow) (i : InvocationRow)
    → row_with_key key is ≡ none
    → same_key key i.intent.idempotency_key ≡ true
    → row_with_key key (is ++ i ∷ []) ≡ some i
row_with_key-last key [] i h t = ground arith
row_with_key-last key (j ∷ is) i h t = ground (arith, row_with_key-last key is i)

row_with_key-with :
    (key id : String) (status : RowStatus) (r : Option CapabilityResult) (e : Option RowError)
    (is : List InvocationRow) (i : InvocationRow)
    → row_with_key key is ≡ some i
    → (i.id == id) ≡ true
    → row_with_key key (with_invocation id (write_status status r e) is)
      ≡ some (write_status status r e i)
row_with_key-with key id status r e [] i h t = cc
row_with_key-with key id status r e (j ∷ is) i h t =
    elim (Bool-cases (same_key key j.intent.idempotency_key)) [
      | inl hit ↦
          let same : j ≡ i = ground (arith, hit) in
          let there : (j.id == id) ≡ true =
            subst (λ (x : InvocationRow). (x.id == id) ≡ true) (sym same) t in
          rw (there, hit) (ap (λ x. some (write_status status r e x)) same)
      | inr miss ↦
          let rest : row_with_key key is ≡ some i = ground (arith, miss) in
          ground (arith, miss, row_with_key-with key id status r e is i rest t)
    ]

-- The row that a call has inserted is the key's.
record Holds (key : String) (c : Call) (is : List InvocationRow) : Type 0 where
  row : InvocationRow
  found : row_with_key key is ≡ some row
  own : (row.id == c.place.invocation_id) ≡ true

completed :
    (b : Bool) (i : InvocationRow) (r : CapabilityResult) (e : Option RowError)
    → resolve_at_most_once_replay (write_status (if b then succeeded else failed) (some r) e i)
      ≡ ok r
unfolding resolve_at_most_once_replay
completed true i r e = refl
completed false i r e = refl

-- What returns a result leaves its answer.
abbrev LeavesAnswer : String → Outcome → Type 0
LeavesAnswer key o = (r : CapabilityResult) → o.0 ≡ ok r → Answers key r o.1.invocations

module _ (key : String) (c : Call) where
  complete-LeavesAnswer :
      (result : CapabilityResult) (x : Result RuntimeError Economy) (db : Database)
      (calls : List AdapterCall)
      → Holds key c db.invocations
      → LeavesAnswer key (complete c result x db calls)
  complete-LeavesAnswer result (err broken) db calls h = λ r e. cc
  complete-LeavesAnswer result (ok x) db calls h = λ r.
      if_both (λ (o : Outcome). o.0 ≡ ok r → Answers key r o.1.invocations)
        (has_invocation c.place.invocation_id db.invocations)
        (λ e. (
          write_status _ (some result) _ h.row,
          row_with_key-with key c.place.invocation_id _ (some result) _ db.invocations h.row h.found
              h.own,
          completed result.ok h.row result _ ∙ e,
        ))
        (λ e. cc)

  fail_with-LeavesAnswer :
      (once : Bool) (e : GatewayError) (x : Result EconomicError Economy) (db : Database)
      (calls : List AdapterCall)
      → LeavesAnswer key (fail_with c once e x db calls)
  fail_with-LeavesAnswer once e (err broken) db calls = λ r h. cc
  fail_with-LeavesAnswer once e (ok x) db calls = λ r.
      if_both (λ (o : Outcome). o.0 ≡ ok r → Answers key r o.1.invocations)
        (has_invocation c.place.invocation_id db.invocations) (λ h. cc) (λ h. cc)

  module _ (run : AdapterCall → Result GatewayError CapabilityResult)
      (instant_of : String → Option ℕ) (reads : Readings) (s : Settings) (g : CapabilityGateway)
      (now : ℕ) where
    after_adapter-LeavesAnswer :
        (economic : Option Request) (db : Database)
        (o : Result GatewayError CapabilityResult × List AdapterCall)
        → Holds key c db.invocations
        → LeavesAnswer key (after_adapter run instant_of reads s g now c economic db o)
    after_adapter-LeavesAnswer economic db (err e, calls) h =
        fail_with-LeavesAnswer (is_once_for g c) e
          (failed_economy s c.place (is_once_for g c) economic db) db calls
    after_adapter-LeavesAnswer economic db (ok result, calls) h =
        complete-LeavesAnswer result (settled_economy s reads c.place result economic db) db calls h

    after_spending-LeavesAnswer :
        (p : Result SpendingError (Option Request) × Economy) (db : Database)
        → Holds key c db.invocations
        → LeavesAnswer key (after_spending run instant_of reads s g now c p db)
    after_spending-LeavesAnswer (err e, x) db h = λ r.
        if_both (λ (o : Outcome). o.0 ≡ ok r → Answers key r o.1.invocations)
          (has_invocation c.place.invocation_id db.invocations) (λ e'. cc) (λ e'. cc)
    after_spending-LeavesAnswer (ok economic, x) db h =
        after_adapter-LeavesAnswer economic (record db { economy_rows = x })
          (execute run instant_of now g c.intent (context_of c))
          (record { row = h.row; found = h.found; own = h.own })

    perform-LeavesAnswer :
        (db : Database)
        → Holds key c db.invocations
        → LeavesAnswer key (perform run instant_of reads s g now c db)
    unfolding perform
    perform-LeavesAnswer db h =
        after_spending-LeavesAnswer
          (prepare_economic_execution reads s db.tasks c.place c.intent _ db.economy_rows) db h

    module _ (keyed : c.intent.idempotency_key ≡ some key) (real : (key == "") ≡ false)
        (once : is_once_for g c ≡ true) where
      inserted :
          (db db' : Database)
          → row_with_key key db.invocations ≡ none
          → add_invocation (invocation c authorized none) db ≡ ok db'
          → Holds key c db'.invocations
      inserted db db' fresh h = record {
        row = invocation c authorized none;
        found =
            ap (row_with_key key) (added (invocation c authorized none) db db' h).1
            ∙ row_with_key-last key db.invocations (invocation c authorized none) fresh
                (rw keyed (beq_refl key));
        own = beq_refl c.place.invocation_id;
      }

      select :
          (db : Database)
          → existing_once (is_once_for g c) c.intent.idempotency_key db.invocations
            ≡ row_with_key key db.invocations
      select db = rw (once, keyed, real) refl

      by_insert :
          (db : Database) (x : Result RuntimeError Database)
          → row_with_key key db.invocations ≡ none
          → add_invocation (invocation c authorized none) db ≡ x
          → LeavesAnswer key
              (after_claim run instant_of reads s g now c (insert_claim (is_once_for g c) c x db))
      by_insert db (err e) fresh h = λ r e'. cc (sym (ap resolve_or_raise (select db ∙ fresh)) ∙ e')
      by_insert db (ok db') fresh h = perform-LeavesAnswer db' (inserted db db' fresh h)

      by_existing :
          (db : Database) (o : Option InvocationRow)
          → row_with_key key db.invocations ≡ o
          → LeavesAnswer key
              (after_claim run instant_of reads s g now c (claim_unless (is_once_for g c) c o db))
      by_existing db (some existing) h = λ r e. (existing, h, e)
      by_existing db none h = by_insert db (add_invocation (invocation c authorized none) db) h refl

      by_denial :
          (db : Database) (e : PolicyError) (x : Result RuntimeError Database)
          → LeavesAnswer key (after_claim run instant_of reads s g now c (deny_by e db x))
      by_denial db e (err refused) = λ r h. cc
      by_denial db e (ok db') = λ r h. cc

      by_policy :
          (db : Database) (p : Result PolicyError (Unit {0}))
          → LeavesAnswer key (
              after_claim run instant_of reads s g now c
                (claim_by (is_once_for g c) c p db.invocations db))
      by_policy db (err invalid_timestamp) = λ r h. cc
      by_policy db (err (capability_denied why)) = by_denial db (capability_denied why) _
      by_policy db (ok allowed) = by_existing db _ (sym (select db))

      execute-LeavesAnswer :
          (db : Database) → LeavesAnswer key (execute_capability run instant_of reads s g now c db)
      unfolding execute_capability claim
      execute-LeavesAnswer db = by_policy db (
          authorize_capability instant_of now c.intent c.authorization
            (some (declaration g c.intent.capability)))

-- What an answer in the table makes of an allowed call with its key.
replayed :
    (run : AdapterCall → Result GatewayError CapabilityResult) (instant_of : String → Option ℕ)
    (reads : Readings) (s : Settings) (g : CapabilityGateway) (now : ℕ) (key : String) (c : Call)
    (db : Database) (r : CapabilityResult)
    → c.intent.idempotency_key ≡ some key
    → (key == "") ≡ false
    → is_once_for g c ≡ true
    → authorize_capability instant_of now c.intent c.authorization
        (some (declaration g c.intent.capability))
      ≡ ok tt
    → Answers key r db.invocations
    → execute_capability run instant_of reads s g now c db ≡ (ok r, db, [])
unfolding execute_capability claim
replayed run instant_of reads s g now key c db r keyed real once allowed (i, found, resolved) =
    rw allowed (
      ap (λ o. after_claim run instant_of reads s g now c (claim_unless (is_once_for g c) c o db))
        (select key c run instant_of reads s g now keyed real once db ∙ found)
      ∙ ap (λ (x : Result RuntimeError CapabilityResult). (x, db, [])) resolved)

-- An AT_MOST_ONCE call that returned a result is not made again: an allowed AT_MOST_ONCE call with the
-- same idempotency key, made later on the tables that the first left, returns the same result, calls no
-- adapter and changes nothing.
pub execute_capability_again :
    (run : AdapterCall → Result GatewayError CapabilityResult) (instant_of : String → Option ℕ)
    (reads : Readings) (s : Settings) (g : CapabilityGateway) (now later : ℕ) (key : String)
    (c c' : Call) (db db' : Database) (r : CapabilityResult) (calls : List AdapterCall)
    → c.intent.idempotency_key ≡ some key
    → c'.intent.idempotency_key ≡ some key
    → (key == "") ≡ false
    → is_once_for g c ≡ true
    → is_once_for g c' ≡ true
    → authorize_capability instant_of later c'.intent c'.authorization
        (some (declaration g c'.intent.capability))
      ≡ ok tt
    → execute_capability run instant_of reads s g now c db ≡ (ok r, db', calls)
    → execute_capability run instant_of reads s g later c' db' ≡ (ok r, db', [])
execute_capability_again run instant_of reads s g now later key c c' db db' r calls keyed keyed'
      real once once' allowed h =
    replayed run instant_of reads s g later key c' db' r keyed' real once' allowed (
      subst (λ (o : Outcome). Answers key r o.1.invocations) h
        (execute-LeavesAnswer key c run instant_of reads s g now keyed real once db r
          (ap (λ (o : Outcome). o.0) h)))
