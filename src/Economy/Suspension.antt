-- ===== src/Economy/Suspension.antt =====
-- backend/app/services/economy.py: a Universe that a loss suspends stays suspended.
use the_creation_os.Prelude.{
  ℕ, ◌≡◌, ◌≢◌, refl, sym, ap, ◌∙◌, subst, String, ◌==◌, Bool, true, false, not, ◌&&◌, ◌||◌, Option,
  none, some, List, [], ◌∷◌, ◌++◌, any, all, ltb, ok, guard, ◌>>=◌, ◌>>◌, >>=-eq-ok, string_eq,
  normalize, beq_refl, if_taken, if_both, Bool-cases, Option-cases, inl, inr, arith,
}
use the_creation_os.Economy.Ledger.{
  Kind, suspension, reserve, Metadata, real_mode, is_simulated, Entry, Totals, no_totals, add_kind,
  add_entry, add_entries, Account, belongs, entries_of, active, economic_suspended, Settings,
  economic_status, project_universe_economy,
}
use the_creation_os.Economy.Entries.{
  Economy, mode_not_enabled, amount_not_positive, same_kind, first_entry, account_of,
  is_suspension_of, suspension_reference, suspension_entry, suspend_by,
  ensure_suspension_if_required, is_loss, existing_entry, validate_scope, has_texts, value_error,
  write_entry, append_ledger_entry,
}
use the_creation_os.Economy.Floor.{active_and_Allowed}
use the_creation_os.Economy.Capital.{
  Request, account, totals_for, append_for, with_real_mode, check_projection,
  reserve_for_capability,
}

-- An entry counts for the account, in its currency and not simulated.
abbrev pub is_real_in : Account → Entry → Bool
is_real_in a e = (e.currency == a.currency) && not (is_simulated e.metadata)

-- An entry that is read as a suspension of the account.
abbrev pub suspends : Account → Entry → Bool
suspends a e = is_suspension_of a e && is_real_in a e

-- The suspensions under the account's reference are in its currency and not simulated.
abbrev pub real_suspensions : Account → List Entry → Bool
real_suspensions a es = all (λ e. not (is_suspension_of a e) || is_real_in a e) es

sticky_kind :
    (today : ℕ) (e : Entry) (k : Kind) (t : Totals)
    → t.sticky ≡ true
    → (add_kind today e k t).sticky ≡ true
sticky_kind today e k t h = ground arith

sticky_entry :
    (today : ℕ) (t : Totals) (e : Entry) → t.sticky ≡ true → (add_entry today t e).sticky ≡ true
unfolding add_entry
sticky_entry today t e h = ground (arith, sticky_kind today e e.kind t h)

sticky_entries :
    (today : ℕ) (t : Totals) (es : List Entry)
    → t.sticky ≡ true
    → (add_entries today t es).sticky ≡ true
sticky_entries today t [] h = h
sticky_entries today t (e ∷ es) h =
    sticky_entries today (add_entry today t e) es (sticky_entry today t e h)

suspension_of_same : (k : Kind) → same_kind k suspension ≡ true → k ≡ suspension
suspension_of_same k h = ground arith

sticky_of_suspends :
    (today : ℕ) (a : Account) (t : Totals) (e : Entry)
    → suspends a e ≡ true
    → (add_entry today t e).sticky ≡ true
unfolding add_entry
sticky_of_suspends today a t e h =
    let same : e.kind ≡ suspension = suspension_of_same e.kind (ground arith) in
    ground (arith, same)

belongs_of_suspends : (a : Account) (e : Entry) → suspends a e ≡ true → belongs a e ≡ true
belongs_of_suspends a e h = ground arith

sticky_of_any :
    (today : ℕ) (a : Account) (t : Totals) (es : List Entry)
    → any (suspends a) es ≡ true
    → (add_entries today t (entries_of a es)).sticky ≡ true
sticky_of_any today a t [] h = cc
sticky_of_any today a t (e ∷ es) h = elim (Bool-cases (suspends a e)) [
  | inl hit ↦ rw (belongs_of_suspends a e hit) (
      sticky_entries today (add_entry today t e) (entries_of a es)
        (sticky_of_suspends today a t e hit))
  | inr miss ↦
      let rest : any (suspends a) es ≡ true = ground arith in
      if_both (λ l. (add_entries today t l).sticky ≡ true) (belongs a e)
        (sticky_of_any today a (add_entry today t e) es rest) (sticky_of_any today a t es rest)
]

any-append_left :
    {A : Type 0} (p : A → Bool) (xs ys : List A) → any p xs ≡ true → any p (xs ++ ys) ≡ true
any-append_left p [] ys h = cc
any-append_left p (x ∷ xs) ys h = ground (arith, any-append_left p xs ys)

any-last :
    {A : Type 0} (p : A → Bool) (xs : List A) (y : A) → p y ≡ true → any p (xs ++ y ∷ []) ≡ true
any-last p [] y h = ground arith
any-last p (x ∷ xs) y h = ground (arith, any-last p xs y h)

any_of_found :
    (p q : Entry → Bool) (es : List Entry) (e : Entry)
    → all (λ x. not (p x) || q x) es ≡ true
    → first_entry p es ≡ some e
    → any (λ x. p x && q x) es ≡ true
any_of_found p q [] e real h = cc
any_of_found p q (x ∷ xs) e real h = ground (arith, any_of_found p q xs e)

real_mode_counts : is_simulated real_mode ≡ false
unfolding is_simulated normalize
real_mode_counts = refl

suspends-suspension_entry :
    (id : String) (day : ℕ) (a : Account) → suspends a (suspension_entry id day a) ≡ true
suspends-suspension_entry id day a = ground (
  arith,
  beq_refl a.creator_id,
  beq_refl a.universe_id,
  beq_refl a.currency,
  beq_refl (suspension_reference a),
  real_mode_counts,
)

any_of_suspend_by :
    (id : String) (day : ℕ) (a : Account) (es : List Entry)
    → real_suspensions a es ≡ true
    → any (suspends a) (suspend_by id day a economic_suspended es) ≡ true
any_of_suspend_by id day a es real = elim (Option-cases (first_entry (is_suspension_of a) es)) [
  | inl new ↦
      rw new
        (any-last (suspends a) es (suspension_entry id day a) (suspends-suspension_entry id day a))
  | inr (e, old) ↦ rw old (any_of_found (is_suspension_of a) (is_real_in a) es e real old)
]

not_active_of_sticky : (s : Settings) (t : Totals) → t.sticky ≡ true → economic_status s t ≢ active
unfolding economic_status
not_active_of_sticky s t h = ground (arith, h)

refused :
    (s : Settings) (r : Request) (m : Metadata) (x : Economy) (p : Entry × Economy)
    → economic_status s (totals_for r x) ≢ active
    → reserve_for_capability s r m x ≢ ok p
unfolding reserve_for_capability
refused s r m x p n h =
    let append = append_for s r reserve "RESERVED" (with_real_mode m) x in
    let after_check = λ (v : Unit {0}). check_projection s r.amount (totals_for r x) >> append in
    let (u1, enabled, rest1) =
      >>=-eq-ok (guard s.real_economic_mode_enabled mode_not_enabled)
        (λ _. guard (ltb 0 r.amount) amount_not_positive >>= after_check) h in
    let (u2, positive, rest2) =
      >>=-eq-ok (guard (ltb 0 r.amount) amount_not_positive) after_check rest1 in
    let (u3, checked, written) =
      >>=-eq-ok (check_projection s r.amount (totals_for r x)) (λ _. append) rest2 in
    n (active_and_Allowed s (totals_for r x) r.amount u3 checked).0

-- What a ledger that was suspended reads as, whatever is added to it, on any day.
sticky_for_good :
    (s : Settings) (id : String) (today day : ℕ) (a : Account) (es later : List Entry)
    → real_suspensions a es ≡ true
    → economic_status s (project_universe_economy today a es) ≡ economic_suspended
    → (project_universe_economy day a
        (ensure_suspension_if_required s id today a es ++ later)).sticky
      ≡ true
unfolding project_universe_economy ensure_suspension_if_required
sticky_for_good s id today day a es later real stopped =
    sticky_of_any day a no_totals _
      (any-append_left (suspends a) _ later (rw stopped (any_of_suspend_by id today a es real)))

written_loss :
    (s : Settings) (id' : String) (today : ℕ) (e e' : Entry) (o : Option Entry) (x x' : Economy)
    → o ≡ none
    → is_loss e.kind ≡ true
    → write_entry s id' today e o x ≡ (e', x')
    → x'.entries ≡ ensure_suspension_if_required s id' today (account_of e) (x.entries ++ e ∷ [])
written_loss s id' today e e' (some found) x x' new lost h = cc
written_loss s id' today e e' none x x' new lost h =
    ap (λ (q : Entry × Economy). q.1.entries) (sym h)
    ∙ if_taken
        (λ z. z ≡ ensure_suspension_if_required s id' today (account_of e) (x.entries ++ e ∷ []))
        (is_loss e.kind) _ lost refl

-- A loss that suspends a Universe, written where every SUSPENSION under the reference of its account
-- is in the account's currency and not simulated, ends the spending: whatever is added to the ledger after it, with any settings and on any day, no capital of
-- the account is reserved again.
pub loss-ends_reserves :
    (s s' : Settings) (id' : String) (today : ℕ) (e e' : Entry) (x x' : Economy)
    (later : List Entry) (r : Request) (m : Metadata) (p : Entry × Economy)
    → is_loss e.kind ≡ true
    → existing_entry e x.entries ≡ none
    → real_suspensions (account_of e) (x.entries ++ e ∷ []) ≡ true
    → economic_status s (project_universe_economy today (account_of e) (x.entries ++ e ∷ []))
      ≡ economic_suspended
    → append_ledger_entry s id' today e x ≡ ok (e', x')
    → account r ≡ account_of e
    → reserve_for_capability s' r m (record x' { entries = x'.entries ++ later }) ≢ ok p
unfolding append_ledger_entry
loss-ends_reserves s s' id' today e e' x x' later r m p lost new real stopped h same =
    let o = existing_entry e x.entries in
    let (u, valid, rest) =
      >>=-eq-ok (validate_scope x e)
        (λ _. guard (has_texts e) value_error >> ok (write_entry s id' today e o x)) h in
    let (v, named, last) =
      >>=-eq-ok (guard (has_texts e) value_error) (λ _. ok (write_entry s id' today e o x)) rest in
    let written : x'.entries
        ≡ ensure_suspension_if_required s id' today (account_of e) (x.entries ++ e ∷ []) =
      written_loss s id' today e e' o x x' new lost cc in
    refused s' r m (record x' { entries = x'.entries ++ later }) p
      (not_active_of_sticky s' _ (
        subst (λ es. (project_universe_economy r.day (account r) (es ++ later)).sticky ≡ true)
          (sym written)
          (subst
            (λ a.
              (project_universe_economy r.day a (
                ensure_suspension_if_required s id' today (account_of e) (x.entries ++ e ∷ [])
                ++ later)).sticky
              ≡ true)
            (sym same)
            (sticky_for_good s id' today r.day (account_of e) (x.entries ++ e ∷ []) later real
              stopped))))
