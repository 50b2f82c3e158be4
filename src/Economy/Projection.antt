-- ===== src/Economy/Projection.antt =====
-- backend/app/services/economy.py: what one more entry does to `project_universe_economy`, and what
-- `append_ledger_entry` leaves in the ledger.
use the_creation_os.Prelude.{
  ℕ, ◌≡◌, ◌⊎◌, inl, inr, refl, sym, ap, ◌∙◌, String, true, false, Option, none, some, List, [], ◌∷◌,
  ◌++◌, ok, guard, ◌>>◌, >>=-eq-ok, string_eq, beq_refl, if_untaken, arith,
}
use the_creation_os.Economy.Ledger.{
  Kind, Metadata, Entry, Totals, no_totals, add_entry, add_entries, Account, belongs, entries_of,
  Settings, project_universe_economy,
}
use the_creation_os.Economy.Entries.{
  value_error, Economy, validate_scope, has_texts, existing_entry, is_loss, write_entry,
  append_ledger_entry,
}
use the_creation_os.Economy.Capital.{Request, account, entry_of, append_for, totals_for}

pub add_entries-append :
    (today : ℕ) (t : Totals) (es : List Entry) (e : Entry)
    → add_entries today t (es ++ e ∷ []) ≡ add_entry today (add_entries today t es) e
add_entries-append today t [] e = refl
add_entries-append today t (x ∷ xs) e = add_entries-append today (add_entry today t x) xs e

entries_of-append :
    (a : Account) (es : List Entry) (e : Entry)
    → belongs a e ≡ true
    → entries_of a (es ++ e ∷ []) ≡ entries_of a es ++ e ∷ []
entries_of-append a [] e h = ground arith
entries_of-append a (x ∷ xs) e h = ground (arith, entries_of-append a xs e h)

pub project-append :
    (today : ℕ) (a : Account) (es : List Entry) (e : Entry)
    → belongs a e ≡ true
    → project_universe_economy today a (es ++ e ∷ [])
      ≡ add_entry today (project_universe_economy today a es) e
unfolding project_universe_economy
project-append today a es e h =
    ap (add_entries today no_totals) (entries_of-append a es e h)
    ∙ add_entries-append today no_totals (entries_of a es) e

pub belongs-entry_of :
    (r : Request) (kind : Kind) (status : String) (m : Metadata)
    → belongs (account r) (entry_of r kind status m) ≡ true
belongs-entry_of r kind status m =
    ground (arith, beq_refl r.creator_id, beq_refl r.universe_id, beq_refl r.currency)

written_or_found :
    (s : Settings) (id' : String) (today : ℕ) (e e' : Entry) (o : Option Entry) (x x' : Economy)
    → is_loss e.kind ≡ false
    → write_entry s id' today e o x ≡ (e', x')
    → (x ≡ x') ⊎ (x'.entries ≡ x.entries ++ e ∷ [])
written_or_found s id' today e e' (some found) x x' plain h = inl (ap (λ p. p.1) h)
written_or_found s id' today e e' none x x' plain h = inr (
    ap (λ (p : Entry × Economy). p.1.entries) (sym h)
    ∙ if_untaken (λ z. z ≡ x.entries ++ e ∷ []) (is_loss e.kind) _ plain refl)

-- An entry that is no loss is found, and nothing changes, or it is written at the end.
pub append-found_or_last :
    (s : Settings) (id' : String) (today : ℕ) (e e' : Entry) (x x' : Economy)
    → is_loss e.kind ≡ false
    → append_ledger_entry s id' today e x ≡ ok (e', x')
    → (x ≡ x') ⊎ (x'.entries ≡ x.entries ++ e ∷ [])
unfolding append_ledger_entry
append-found_or_last s id' today e e' x x' plain h =
    let o = existing_entry e x.entries in
    let (u, valid, rest) =
      >>=-eq-ok (validate_scope x e)
        (λ _. guard (has_texts e) value_error >> ok (write_entry s id' today e o x)) h in
    let (v, named, last) =
      >>=-eq-ok (guard (has_texts e) value_error) (λ _. ok (write_entry s id' today e o x)) rest in
    written_or_found s id' today e e' o x x' plain cc

-- What one operation on capital does to the totals: nothing, or one entry more.
pub append_for-totals :
    (s : Settings) (r : Request) (kind : Kind) (status : String) (m : Metadata) (e : Entry)
    (x x' : Economy)
    → is_loss kind ≡ false
    → append_for s r kind status m x ≡ ok (e, x')
    → (x ≡ x') ⊎ (totals_for r x' ≡ add_entry r.day (totals_for r x) (entry_of r kind status m))
append_for-totals s r kind status m e x x' plain h =
    elim (append-found_or_last s r.suspension_id r.day (entry_of r kind status m) e x x' plain h) [
      | inl same ↦ inl same
      | inr grown ↦ inr (
          ap (project_universe_economy r.day (account r)) grown
          ∙ project-append r.day (account r) x.entries _ (belongs-entry_of r kind status m))
    ]
