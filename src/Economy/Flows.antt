-- ===== src/Economy/Flows.antt =====
-- backend/app/services/economy.py: the open flows of capital of an account, seen abstractly, and the
-- ledger that stands for them. A flow is opened by a reservation, is committed and settling in turn, and
-- is closed by its settlement, by its release or by a reconciliation; flows take turns in any order.
use the_creation_os.Prelude.{
  ℕ, ◌+◌, ◌≡◌, refl, sym, ◌∙◌, subst, Bool, true, false, List, [], ◌∷◌, ◌++◌, arith,
}
use the_creation_os.Economy.Ledger.{
  Kind, genesis, reserve, release, reservation_released, commit, settling, settle, settled, profit,
  loss, unknown, suspension, reconciled, other, Entry, Totals, no_totals, is_simulated, add_entry,
  add_entries, Account, entries_of, project_universe_economy,
}
use the_creation_os.Economy.Projection.{add_entries-append}

pub data Stage : Type 0 where
  is_reserved is_committed is_settling : Stage

pub record Flow : Type 0 where
  pub stage : Stage
  pub amount : ℕ

abbrev pub at_stage : Stage → Stage → ℕ → ℕ
at_stage is_reserved is_reserved n = n
at_stage is_committed is_committed n = n
at_stage is_settling is_settling n = n
at_stage _ _ n = 0

-- What the flows at a stage amount to.
abbrev pub sum_at : Stage → List Flow → ℕ
sum_at s [] = 0
sum_at s (f ∷ fs) = at_stage s f.stage f.amount + sum_at s fs

abbrev pub flow : Stage → Entry → Flow
flow s e = record { stage = s; amount = e.amount }

-- The entry types that neither open nor move nor close a flow.
abbrev pub is_apart : Kind → Bool
is_apart genesis = true
is_apart profit = true
is_apart loss = true
is_apart unknown = true
is_apart suspension = true
is_apart (other name) = true
is_apart _ = false

-- The entry types that close a flow.
abbrev pub closes : Kind → Stage → Bool
closes release is_reserved = true
closes reservation_released is_reserved = true
closes settle is_settling = true
closes settled is_settling = true
closes reconciled is_settling = true
closes _ _ = false

-- The entry types that move a flow on.
abbrev pub moves : Kind → Stage → Stage → Bool
moves commit is_reserved is_committed = true
moves settling is_committed is_settling = true
moves _ _ _ = false

-- The open flows that a history of entries leaves.
pub data History : List Flow → List Entry → Type 0 where
  begun : History [] []
  apart :
      {fs : List Flow} {es : List Entry} (e : Entry)
      → is_apart e.kind ≡ true
      → History fs es
      → History fs (es ++ e ∷ [])
  simulated :
      {fs : List Flow} {es : List Entry} (e : Entry)
      → is_simulated e.metadata ≡ true
      → History fs es
      → History fs (es ++ e ∷ [])
  opened :
      {fs : List Flow} {es : List Entry} (e : Entry)
      → is_simulated e.metadata ≡ false
      → e.kind ≡ reserve
      → History fs es
      → History (flow is_reserved e ∷ fs) (es ++ e ∷ [])
  moved :
      (fs gs : List Flow) {es : List Entry} (e : Entry) (s s' : Stage)
      → is_simulated e.metadata ≡ false
      → moves e.kind s s' ≡ true
      → History (fs ++ flow s e ∷ gs) es
      → History (fs ++ flow s' e ∷ gs) (es ++ e ∷ [])
  closed :
      (fs gs : List Flow) {es : List Entry} (e : Entry) (s : Stage)
      → is_simulated e.metadata ≡ false
      → closes e.kind s ≡ true
      → e.metadata.release_settling ≡ true
      → History (fs ++ flow s e ∷ gs) es
      → History (fs ++ gs) (es ++ e ∷ [])

-- The totals are those of the open flows.
pub record IsSumOf (fs : List Flow) (t : Totals) : Type 0 where
  pub reserved_sum : t.reserved ≡ sum_at is_reserved fs
  pub committed_sum : t.committed ≡ sum_at is_committed fs
  pub settling_sum : t.settling ≡ sum_at is_settling fs

sum_at-append :
    (s : Stage) (fs gs : List Flow) (f : Flow)
    → sum_at s (fs ++ f ∷ gs) ≡ at_stage s f.stage f.amount + sum_at s (fs ++ gs)
sum_at-append s [] gs f = refl
sum_at-append s (g ∷ fs) gs f = omega (arith, sum_at-append s fs gs f)

-- The sums at the three stages, with one flow set apart.
sums_apart :
    (fs gs : List Flow) (f : Flow) (t : Totals)
    → IsSumOf (fs ++ f ∷ gs) t
    → (t.reserved ≡ at_stage is_reserved f.stage f.amount + sum_at is_reserved (fs ++ gs))
      × (t.committed ≡ at_stage is_committed f.stage f.amount + sum_at is_committed (fs ++ gs))
      × (t.settling ≡ at_stage is_settling f.stage f.amount + sum_at is_settling (fs ++ gs))
sums_apart fs gs f t h = (
  h.reserved_sum ∙ sum_at-append is_reserved fs gs f,
  h.committed_sum ∙ sum_at-append is_committed fs gs f,
  h.settling_sum ∙ sum_at-append is_settling fs gs f,
)

sums_together :
    (fs gs : List Flow) (f : Flow) (t : Totals)
    → t.reserved ≡ at_stage is_reserved f.stage f.amount + sum_at is_reserved (fs ++ gs)
    → t.committed ≡ at_stage is_committed f.stage f.amount + sum_at is_committed (fs ++ gs)
    → t.settling ≡ at_stage is_settling f.stage f.amount + sum_at is_settling (fs ++ gs)
    → IsSumOf (fs ++ f ∷ gs) t
sums_together fs gs f t a b c = record {
  reserved_sum = a ∙ sym (sum_at-append is_reserved fs gs f);
  committed_sum = b ∙ sym (sum_at-append is_committed fs gs f);
  settling_sum = c ∙ sym (sum_at-append is_settling fs gs f);
}

after_apart :
    (today : ℕ) (fs : List Flow) (t : Totals) (e : Entry)
    → is_apart e.kind ≡ true
    → IsSumOf fs t
    → IsSumOf fs (add_entry today t e)
unfolding add_entry
after_apart today fs t e plain h = record {
  reserved_sum = ground (arith, h.reserved_sum);
  committed_sum = ground (arith, h.committed_sum);
  settling_sum = ground (arith, h.settling_sum);
}

after_simulated :
    (today : ℕ) (fs : List Flow) (t : Totals) (e : Entry)
    → is_simulated e.metadata ≡ true
    → IsSumOf fs t
    → IsSumOf fs (add_entry today t e)
unfolding add_entry
after_simulated today fs t e plain h = rw plain h

after_open :
    (today : ℕ) (fs : List Flow) (t : Totals) (e : Entry)
    → is_simulated e.metadata ≡ false
    → e.kind ≡ reserve
    → IsSumOf fs t
    → IsSumOf (flow is_reserved e ∷ fs) (add_entry today t e)
unfolding add_entry
after_open today fs t e real k h = record {
  reserved_sum = ground (arith, h.reserved_sum);
  committed_sum = ground (arith, h.committed_sum);
  settling_sum = ground (arith, h.settling_sum);
}

after_move :
    (today : ℕ) (fs gs : List Flow) (t : Totals) (e : Entry) (s s' : Stage)
    → is_simulated e.metadata ≡ false
    → moves e.kind s s' ≡ true
    → IsSumOf (fs ++ flow s e ∷ gs) t
    → IsSumOf (fs ++ flow s' e ∷ gs) (add_entry today t e)
unfolding add_entry
after_move today fs gs t e s s' real k h =
    let (a, b, c) = sums_apart fs gs (flow s e) t h in
    sums_together fs gs (flow s' e) (add_entry today t e) (ground (arith, a)) (ground (arith, b))
      (ground (arith, c))

after_close :
    (today : ℕ) (fs gs : List Flow) (t : Totals) (e : Entry) (s : Stage)
    → is_simulated e.metadata ≡ false
    → closes e.kind s ≡ true
    → e.metadata.release_settling ≡ true
    → IsSumOf (fs ++ flow s e ∷ gs) t
    → IsSumOf (fs ++ gs) (add_entry today t e)
unfolding add_entry
after_close today fs gs t e s real k released h =
    let (a, b, c) = sums_apart fs gs (flow s e) t h in
    record {
      reserved_sum = ground (arith, a);
      committed_sum = ground (arith, b);
      settling_sum = ground (arith, c);
    }

add_entries-IsSumOf :
    (today : ℕ) (fs : List Flow) (es : List Entry)
    → History fs es
    → IsSumOf fs (add_entries today no_totals es)
add_entries-IsSumOf today fs es begun = record {
  reserved_sum = refl;
  committed_sum = refl;
  settling_sum = refl;
}
add_entries-IsSumOf today fs es (apart {es = before} e plain h) =
    subst (IsSumOf fs) (sym (add_entries-append today no_totals before e))
      (after_apart today fs _ e plain (add_entries-IsSumOf today fs before h))
add_entries-IsSumOf today fs es (simulated {es = before} e plain h) =
    subst (IsSumOf fs) (sym (add_entries-append today no_totals before e))
      (after_simulated today fs _ e plain (add_entries-IsSumOf today fs before h))
add_entries-IsSumOf today fs es (opened {fs = old} {es = before} e real k h) =
    subst (IsSumOf fs) (sym (add_entries-append today no_totals before e))
      (after_open today old _ e real k (add_entries-IsSumOf today old before h))
add_entries-IsSumOf today fs es (moved xs ys {es = before} e s s' real k h) =
    subst (IsSumOf fs) (sym (add_entries-append today no_totals before e)) (
      after_move today xs ys _ e s s' real k
        (add_entries-IsSumOf today (xs ++ flow s e ∷ ys) before h))
add_entries-IsSumOf today fs es (closed xs ys {es = before} e s real k released h) =
    subst (IsSumOf fs) (sym (add_entries-append today no_totals before e)) (
      after_close today xs ys _ e s real k released
        (add_entries-IsSumOf today (xs ++ flow s e ∷ ys) before h))

-- The projection implements the open flows: where the entries of an account are a history in which each
-- flow is reserved, committed, settling and closed in turn, and flows take turns in any order, what is
-- reserved, committed and settling is the sum of the open flows at that stage.
pub project-IsSumOf :
    (today : ℕ) (a : Account) (fs : List Flow) (es : List Entry)
    → History fs (entries_of a es)
    → IsSumOf fs (project_universe_economy today a es)
unfolding project_universe_economy
project-IsSumOf today a fs es h = add_entries-IsSumOf today fs (entries_of a es) h
