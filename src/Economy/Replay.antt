-- ===== src/Economy/Replay.antt =====
-- backend/app/services/economy.py, `append_ledger_entry`: an entry with a reference is written once.
use the_creation_os.Prelude.{
  ℕ, ◌≡◌, refl, sym, ap, ◌∙◌, subst, String, Bool, true, false, Option, none, some, List, [], ◌∷◌,
  ◌++◌, Result, ok, guard, ◌>>◌, >>=-eq-ok, ◌==◌, string_eq, beq_refl, if_untaken, if_both, arith,
}
use the_creation_os.Economy.Ledger.{
  Kind, other, Metadata, Entry, Account, EconomicStatus, Settings, active, economic_suspended,
  reconciliation_required, economic_status, project_universe_economy,
}
use the_creation_os.Economy.Entries.{
  EconomicError, value_error, Economy, validate_scope, same_kind, is_transition, first_entry,
  existing_for, existing_entry, has_texts, account_of, suspension_entry, is_suspension_of,
  suspend_unless, suspend_by, ensure_suspension_if_required, is_loss, with_entry, write_entry,
  append_ledger_entry,
}

first_entry-append :
    (test : Entry → Bool) (es later : List Entry) (e : Entry)
    → first_entry test es ≡ some e
    → first_entry test (es ++ later) ≡ some e
first_entry-append test [] later e h = cc
first_entry-append test (x ∷ xs) later e h = ground (arith, first_entry-append test xs later e)

first_entry-last :
    (test : Entry → Bool) (es : List Entry) (e : Entry)
    → first_entry test es ≡ none
    → test e ≡ true
    → first_entry test (es ++ e ∷ []) ≡ some e
first_entry-last test [] e h t = ground arith
first_entry-last test (x ∷ xs) e h t = ground (arith, first_entry-last test xs e)

same_kind_refl : (k : Kind) → same_kind k k ≡ true
same_kind_refl (other name) = beq_refl name
same_kind_refl k = ground arith

is_transition_self :
    (e : Entry) (key : String) → e.reference ≡ some key → is_transition e key e ≡ true
is_transition_self e key keyed = ground (
  arith,
  keyed,
  beq_refl e.creator_id,
  beq_refl e.universe_id,
  same_kind_refl e.kind,
  beq_refl key,
)

-- The entry that is found stays the one that is found when a loss brings a suspension.
found_after_suspension :
    (s : Settings) (id' : String) (today : ℕ) (a : Account) (test : Entry → Bool) (es : List Entry)
    (e : Entry)
    → first_entry test es ≡ some e
    → first_entry test (ensure_suspension_if_required s id' today a es) ≡ some e
unfolding ensure_suspension_if_required
found_after_suspension s id' today a test es e h =
    by_status (economic_status s (project_universe_economy today a es))
  where
    unless : (o : Option Entry) → first_entry test (suspend_unless id' today a o es) ≡ some e
    unless none = first_entry-append test es (suspension_entry id' today a ∷ []) e h
    unless (some old) = h

    by_status :
        (status : EconomicStatus) → first_entry test (suspend_by id' today a status es) ≡ some e
    by_status active = h
    by_status economic_suspended = unless (first_entry (is_suspension_of a) es)
    by_status reconciliation_required = h

found_after_write :
    (s : Settings) (id' : String) (today : ℕ) (e : Entry) (test : Entry → Bool) (es : List Entry)
    → first_entry test es ≡ none
    → test e ≡ true
    → first_entry test (with_entry s id' today e es) ≡ some e
found_after_write s id' today e test es none_before t =
    if_both (λ z. first_entry test z ≡ some e) (is_loss e.kind)
      (found_after_suspension s id' today (account_of e) test _ e
        (first_entry-last test es e none_before t))
      (first_entry-last test es e none_before t)

-- The same transition again, with another id, amount, day and metadata.
abbrev pub again : Entry → String → ℕ → ℕ → Metadata → Entry
again e id amount day m = record e { id = id; amount = amount; day = day; metadata = m }

write_again :
    (s : Settings) (id' : String) (today : ℕ) (e e' : Entry) (key : String) (o : Option Entry)
    (x x' : Economy)
    → e.reference ≡ some key
    → (key == "") ≡ false
    → first_entry (is_transition e key) x.entries ≡ o
    → write_entry s id' today e o x ≡ (e', x')
    → first_entry (is_transition e key) x'.entries ≡ some e'
write_again s id' today e e' key (some found) x x' keyed real old h =
    subst (λ (q : Entry × Economy). first_entry (is_transition e key) q.1.entries ≡ some q.0) h old
write_again s id' today e e' key none x x' keyed real old h =
    subst (λ (q : Entry × Economy). first_entry (is_transition e key) q.1.entries ≡ some q.0) h
      (found_after_write s id' today e (is_transition e key) x.entries old
        (is_transition_self e key keyed))

kept_tables :
    (s : Settings) (id' : String) (today : ℕ) (e e' a : Entry) (o : Option Entry) (x x' : Economy)
    → write_entry s id' today e o x ≡ (e', x')
    → validate_scope x' a ≡ validate_scope x a
kept_tables s id' today e e' a (some found) x x' h =
    ap (λ (q : Entry × Economy). validate_scope q.1 a) (sym h)
kept_tables s id' today e e' a none x x' h =
    ap (λ (q : Entry × Economy). validate_scope q.1 a) (sym h)

existing_by :
    (e : Entry) (key : String) (r : Option String) (es : List Entry)
    → r ≡ some key
    → (key == "") ≡ false
    → existing_for r e es ≡ first_entry (is_transition e key) es
existing_by e key none es keyed real = cc
existing_by e key (some own) es keyed real =
    let same : own ≡ key = cc in
    rw same (if_untaken (λ z. z ≡ first_entry (is_transition e key) es) (key == "") none real refl)

-- An entry with a reference is written once: when the same transition is appended again, whatever its
-- id, amount, day and metadata, the call gives the entry of the first time and changes nothing.
pub append_ledger_entry-again :
    (s : Settings) (id' id'' id : String) (today later amount day : ℕ) (m : Metadata) (key : String)
    (e e' : Entry) (x x' : Economy)
    → e.reference ≡ some key
    → (key == "") ≡ false
    → append_ledger_entry s id' today e x ≡ ok (e', x')
    → append_ledger_entry s id'' later (again e id amount day m) x' ≡ ok (e', x')
unfolding append_ledger_entry
append_ledger_entry-again s id' id'' id today later amount day m key e e' x x' keyed real h =
    let o = existing_entry e x.entries in
    let (u, valid, rest) =
      >>=-eq-ok (validate_scope x e)
        (λ _. guard (has_texts e) value_error >> ok (write_entry s id' today e o x)) h in
    let (v, named, last) =
      >>=-eq-ok (guard (has_texts e) value_error) (λ _. ok (write_entry s id' today e o x)) rest in
    let written : write_entry s id' today e o x ≡ (e', x') = cc in
    let found =
      existing_by (again e id amount day m) key e.reference x'.entries keyed real
      ∙ write_again s id' today e e' key o x x' keyed real
          (sym (existing_by e key e.reference x.entries keyed real)) written in
    let second = again e id amount day m in
    let result : Option Entry → Result EconomicError (Entry × Economy) =
      λ o. ok (write_entry s id'' later second o x') in
    let entry = existing_entry second x'.entries in
    ap
      (λ (q : Result EconomicError (Unit {0})).
        q >> (guard (has_texts e) value_error >> result entry))
      (kept_tables s id' today e e' second o x x' written ∙ valid)
    ∙ ap (λ (q : Result EconomicError (Unit {0})). q >> result entry) named
    ∙ ap result found
