-- ===== src/Capabilities/Runtime/Rows.antt =====
-- backend/app/capabilities/runtime.py: what one call does to the rows of an idempotency key, and which
-- adapter calls it makes.
use the_creation_os.Prelude.{
  count_if, count_if-append, ℕ, ◌+◌, ◌≤◌, ◌≡◌, refl, ap, ◌∙◌, subst, inl, inr, String, Bool, true,
  false, Option, none, some, List, [], ◌∷◌, ◌++◌, Result, ok, err, if◌then◌else◌, string_eq,
  Bool-cases, if_both, lookup, arith,
}
use the_creation_os.Capabilities.Contracts.{CapabilityIntent, CapabilityResult}
use the_creation_os.Capabilities.Policy.{
  PolicyError, capability_denied, invalid_timestamp, authorize_capability,
}
use the_creation_os.Capabilities.Gateway.{
  Adapter, AdapterCall, GatewayError, CapabilityGateway, declaration, run_adapter, after_policy,
  execute,
}
use the_creation_os.Capabilities.Spending.{Readings, SpendingError, prepare_economic_execution}
use the_creation_os.Economy.Ledger.{Settings}
use the_creation_os.Economy.Entries.{EconomicError, Economy}
use the_creation_os.Economy.Capital.{Request}
use the_creation_os.Capabilities.Runtime.{
  RowStatus, authorized, denied, RowError, policy_denied, InvocationRow, RuntimeError, Database,
  Call, invocation, same_key, is_taken, has_row_with, add_invocation, with_invocation,
  has_invocation, write_status, existing_once, deny, deny_by, insert_claim, claim_unless, claim_by,
  is_once_for, Claim, answered, claimed, claim, Outcome, finish_invocation, fail_with,
  failed_economy, complete, settled_economy, context_of, after_adapter, after_spending, perform,
}

abbrev pub uses_key : String → CapabilityIntent → Bool
uses_key key intent = same_key key intent.idempotency_key

abbrev pub rows_with : String → List InvocationRow → ℕ
rows_with key is = count_if (λ (i : InvocationRow). uses_key key i.intent) is

abbrev pub opens_with : String → List Call → ℕ
opens_with key cs = count_if (λ (c : Call). uses_key key c.intent) cs

abbrev pub calls_with : String → List AdapterCall → ℕ
calls_with key cs = count_if (λ (c : AdapterCall). uses_key key c.intent) cs

-- The rows of a key before and after a row is added.
not_taken :
    (key : String) (own : Option String) (is : List InvocationRow)
    → same_key key own ≡ true
    → is_taken own is ≡ false
    → rows_with key is ≡ 0
not_taken key none is h t = cc
not_taken key (some own) is h t =
    count_zero is (subst (λ k. has_row_with k is ≡ false) ((string_eq.beq_iff own key).0 h) t)
  where
    count_zero : (is : List InvocationRow) → has_row_with key is ≡ false → rows_with key is ≡ 0
    count_zero [] f = refl
    count_zero (i ∷ is) f = ground (arith, count_zero is)

pub added :
    (i : InvocationRow) (db db' : Database)
    → add_invocation i db ≡ ok db'
    → (is_taken i.intent.idempotency_key db.invocations ≡ false)
      × (db'.invocations ≡ db.invocations ++ i ∷ [])
added i db db' h = elim (Bool-cases (is_taken i.intent.idempotency_key db.invocations)) [
  | inl taken ↦ ground (arith, taken)
  | inr free ↦ (free, ground (arith, free))
]

add_invocation-rows :
    (key : String) (i : InvocationRow) (db db' : Database)
    → rows_with key db.invocations ≤ 1
    → add_invocation i db ≡ ok db'
    → (rows_with key db'.invocations
        ≡ rows_with key db.invocations + (if uses_key key i.intent then 1 else 0))
      × (rows_with key db'.invocations ≤ 1)
add_invocation-rows key i db db' few h =
    let (free, grown) = added i db db' h in
    let sum =
      ap (rows_with key) grown
      ∙ count_if-append (λ (x : InvocationRow). uses_key key x.intent) db.invocations (i ∷ []) in
    elim (Bool-cases (uses_key key i.intent)) [
      | inl hit ↦
          let zero_before = not_taken key i.intent.idempotency_key db.invocations hit free in
          ground (arith, sum, hit, zero_before)
      | inr miss ↦ ground (arith, sum, miss)
    ]

with_invocation-rows :
    (key id : String) (status : RowStatus) (r : Option CapabilityResult) (e : Option RowError)
    (is : List InvocationRow)
    → rows_with key (with_invocation id (write_status status r e) is) ≡ rows_with key is
with_invocation-rows key id status r e [] = refl
with_invocation-rows key id status r e (i ∷ is) =
    ground (arith, with_invocation-rows key id status r e is)

-- What a claim makes of the rows of a key: a claimed row is one more, and there is never a second.
pub record IsClaimOf (key : String) (c : Call) (db : Database) (o : Claim × Database) : Type 0 where
  pub few : rows_with key o.1.invocations ≤ 1
  pub kept : rows_with key db.invocations ≤ rows_with key o.1.invocations
  pub grown :
      o.0 ≡ claimed
      → rows_with key o.1.invocations
        ≡ rows_with key db.invocations + (if uses_key key c.intent then 1 else 0)

unclaimed :
    (key : String) (c : Call) (db : Database) (answer : Result RuntimeError CapabilityResult)
    → rows_with key db.invocations ≤ 1
    → IsClaimOf key c db (answered answer, db)
unclaimed key c db answer few = record { few = few; kept = omega arith; grown = λ h. cc }

deny-IsClaimOf :
    (key : String) (c : Call) (e : PolicyError) (db : Database)
    → rows_with key db.invocations ≤ 1
    → IsClaimOf key c db (deny c e db)
deny-IsClaimOf key c e db few = by_insert (add_invocation row db) refl
  where
    row : InvocationRow
    row = invocation c denied (some policy_denied)

    by_insert :
        (r : Result RuntimeError Database)
        → add_invocation row db ≡ r
        → IsClaimOf key c db (deny_by e db r)
    by_insert (err refused) h = unclaimed key c db (err refused) few
    by_insert (ok db') h =
        let (sum, few') = add_invocation-rows key row db db' few h in
        record { few = few'; kept = omega (arith, sum); grown = λ h'. cc }

insert-IsClaimOf :
    (key : String) (once : Bool) (c : Call) (db : Database) (r : Result RuntimeError Database)
    → rows_with key db.invocations ≤ 1
    → add_invocation (invocation c authorized none) db ≡ r
    → IsClaimOf key c db (insert_claim once c r db)
insert-IsClaimOf key once c db (err e) few h = unclaimed key c db _ few
insert-IsClaimOf key once c db (ok db') few h =
    let (sum, few') = add_invocation-rows key (invocation c authorized none) db db' few h in
    record { few = few'; kept = omega (arith, sum); grown = λ _. sum }

pub claim-IsClaimOf :
    (g : CapabilityGateway) (instant_of : String → Option ℕ) (now : ℕ) (key : String) (c : Call)
    (seen : List InvocationRow) (db : Database)
    → rows_with key db.invocations ≤ 1
    → IsClaimOf key c db (claim g instant_of now c seen db)
unfolding claim
claim-IsClaimOf g instant_of now key c seen db few = by_policy (
    authorize_capability instant_of now c.intent c.authorization
      (some (declaration g c.intent.capability)))
  where
    once : Bool
    once = is_once_for g c

    unless : (o : Option InvocationRow) → IsClaimOf key c db (claim_unless once c o db)
    unless (some existing) = unclaimed key c db _ few
    unless none = insert-IsClaimOf key once c db _ few refl

    by_policy : (r : Result PolicyError (Unit {0})) → IsClaimOf key c db (claim_by once c r seen db)
    by_policy (err invalid_timestamp) = unclaimed key c db _ few
    by_policy (err (capability_denied why)) = deny-IsClaimOf key c (capability_denied why) db few
    by_policy (ok allowed) = unless (existing_once once c.intent.idempotency_key seen)

-- What the rest of a call does to the rows of a key, and which adapter calls it makes.
pub record IsPerformOf (key : String) (c : Call) (rows : List InvocationRow) (o : Outcome)
    : Type 0 where
  pub same_rows : rows_with key o.1.invocations ≡ rows_with key rows
  pub one_call : calls_with key o.2 ≤ (if uses_key key c.intent then 1 else 0)

one_fits : (b : Bool) → (if b then 1 else 0) ≤ (if b then 1 else 0)
one_fits b = omega arith

module _ (run : AdapterCall → Result GatewayError CapabilityResult) (instant_of : String → Option ℕ)
    (reads : Readings) (s : Settings) (g : CapabilityGateway) (now : ℕ) (key : String)
    (c : Call) where
  abbrev CallsFit : List AdapterCall → Type 0
  CallsFit calls = calls_with key calls ≤ (if uses_key key c.intent then 1 else 0)

  finish_invocation-IsPerformOf :
      (status : RowStatus) (r : Option CapabilityResult) (e : Option RowError)
      (answer : Result RuntimeError CapabilityResult) (db : Database) (calls : List AdapterCall)
      → CallsFit calls
      → IsPerformOf key c db.invocations (finish_invocation c status r e answer db calls)
  finish_invocation-IsPerformOf status r e answer db calls fit =
      if_both (IsPerformOf key c db.invocations)
        (has_invocation c.place.invocation_id db.invocations)
        (record {
          same_rows = with_invocation-rows key c.place.invocation_id status r e db.invocations;
          one_call = fit;
        })
        (record { same_rows = refl; one_call = fit })

  after_adapter-IsPerformOf :
      (economic : Option Request) (db : Database)
      (o : Result GatewayError CapabilityResult × List AdapterCall)
      → CallsFit o.1
      → IsPerformOf key c db.invocations
          (after_adapter run instant_of reads s g now c economic db o)
  after_adapter-IsPerformOf economic db (err e, calls) fit =
      failing (failed_economy s c.place (is_once_for g c) economic db)
    where
      failing :
          (x : Result EconomicError Economy)
          → IsPerformOf key c db.invocations (fail_with c (is_once_for g c) e x db calls)
      failing (err broken) = record { same_rows = refl; one_call = fit }
      failing (ok x) =
          finish_invocation-IsPerformOf _ none _ _ (record db { economy_rows = x }) calls fit
  after_adapter-IsPerformOf economic db (ok result, calls) fit =
      completing (settled_economy s reads c.place result economic db)
    where
      completing :
          (x : Result RuntimeError Economy)
          → IsPerformOf key c db.invocations (complete c result x db calls)
      completing (err broken) = record { same_rows = refl; one_call = fit }
      completing (ok x) =
          finish_invocation-IsPerformOf _ (some result) _ (ok result)
            (record db { economy_rows = x }) calls fit

  execute-CallsFit : CallsFit (execute run instant_of now g c.intent (context_of c)).1
  unfolding execute
  execute-CallsFit = by_policy (
      authorize_capability instant_of now c.intent (context_of c).authorization
        (some (declaration g c.intent.capability)))
    where
      by_adapter :
          (a : Option Adapter)
          → CallsFit (run_adapter run instant_of now a c.intent (context_of c)).1
      by_adapter none = omega arith
      by_adapter (some a) = one_fits (uses_key key c.intent)

      by_policy :
          (r : Result PolicyError (Unit {0}))
          → CallsFit
              (after_policy run instant_of now r
                (lookup c.intent.capability g.adapters)
                c.intent
                (context_of c)).1
      by_policy (err e) = omega arith
      by_policy (ok allowed) = by_adapter (lookup c.intent.capability g.adapters)

  pub perform-IsPerformOf :
      (db : Database) → IsPerformOf key c db.invocations (perform run instant_of reads s g now c db)
  unfolding perform
  perform-IsPerformOf db =
      by_spending (prepare_economic_execution reads s db.tasks c.place c.intent _ db.economy_rows)
    where
      by_spending :
          (r : Result SpendingError (Option Request) × Economy)
          → IsPerformOf key c db.invocations (after_spending run instant_of reads s g now c r db)
      by_spending (err e, x) =
          finish_invocation-IsPerformOf denied none _ _ (record db { economy_rows = x }) []
            (omega arith)
      by_spending (ok economic, x) =
          after_adapter-IsPerformOf economic (record db { economy_rows = x })
            (execute run instant_of now g c.intent (context_of c)) execute-CallsFit
