-- ===== src/Services/Chronicle/Linked.antt =====
-- backend/app/repositories/domain.py, `add_event` and `verify_chronicle`: which chronicles are valid.
use the_creation_os.Prelude.{
  ℕ, ◌+◌, ◌≡◌, ◌↔◌, refl, sym, ap, String, Bool, true, false, not, Option, none, some, List, [],
  ◌∷◌, ◌++◌, if◌then◌else◌, ◌==◌, string_eq, nat_eq, length, arith,
}
use the_creation_os.Services.Chronicle.{
  Material, Chronicle, material_from, Event, Reason, ChronicleIntegrity, valid, invalid,
  broken_sequence, invalid_previous_hash, invalid_event_hash, last_event, hash_of_last,
  next_position, same_hash, event_hash, chronicle_of, add_event, verify_from, verify_chronicle,
}

same_hash_iff : (a b : Option String) → (same_hash a b ≡ true) ↔ (a ≡ b)
same_hash_iff none none = (λ h. refl, λ h. refl)
same_hash_iff none (some b) = (λ h. cc, λ h. cc)
same_hash_iff (some a) none = (λ h. cc, λ h. cc)
same_hash_iff (some a) (some b) =
    (λ h. ap some ((string_eq.beq_iff a b).0 h), λ h. (string_eq.beq_iff a b).1 (ground arith))

-- A check of an event that a valid chronicle passes.
passes :
    (e : Chronicle) (reason : Reason) (b : Bool) (rest : ChronicleIntegrity)
    → (if not b then invalid e.event_id reason else rest) ≡ valid
    → (b ≡ true) × (rest ≡ valid)
passes e reason true rest h = (refl, h)
passes e reason false rest h = cc

module _ (sha256 : List ℕ → String) (dumps : Material → List ℕ) (isoformat : ℕ → String) where
  -- From the previous hash and the position on, each event has its place, points back, and is hashed.
  abbrev pub IsLinked : Option String → ℕ → List Chronicle → Type 0
  IsLinked previous expected [] = Unit
  IsLinked previous expected (e ∷ es) =
      (e.position ≡ expected)
      × (e.previous_hash ≡ previous)
      × (event_hash sha256 dumps (material_from isoformat e) previous ≡ e.payload_hash)
      × IsLinked (some e.payload_hash) (expected + 1) es

  pub verify_from-IsLinked :
      (previous : Option String) (expected : ℕ) (es : List Chronicle)
      → verify_from sha256 dumps isoformat previous expected es ≡ valid
      → IsLinked previous expected es
  verify_from-IsLinked previous expected [] h = tt
  verify_from-IsLinked previous expected (e ∷ es) h =
      let rest = verify_from sha256 dumps isoformat (some e.payload_hash) (expected + 1) es in
      let hashed = event_hash sha256 dumps (material_from isoformat e) previous == e.payload_hash in
      let last = if not hashed then invalid e.event_id invalid_event_hash else rest in
      let (placed, h1) =
        passes e broken_sequence (e.position == expected)
          (if not (same_hash e.previous_hash previous)
            then invalid e.event_id invalid_previous_hash
            else last)
          h in
      let (back, h2) =
        passes e invalid_previous_hash (same_hash e.previous_hash previous) last h1 in
      let (sealed, h3) = passes e invalid_event_hash hashed rest h2 in
      (
        (nat_eq.beq_iff e.position expected).0 placed,
        (same_hash_iff e.previous_hash previous).0 back,
        (string_eq.beq_iff (event_hash sha256 dumps (material_from isoformat e) previous)
              e.payload_hash).0
            sealed,
        verify_from-IsLinked (some e.payload_hash) (expected + 1) es h3,
      )

  IsLinked-verify_from :
      (previous : Option String) (expected : ℕ) (es : List Chronicle)
      → IsLinked previous expected es
      → verify_from sha256 dumps isoformat previous expected es ≡ valid
  IsLinked-verify_from previous expected [] h = refl
  IsLinked-verify_from previous expected (e ∷ es) (placed, back, hashed, rest) =
      rw
        (
          (nat_eq.beq_iff e.position expected).1 placed,
          (same_hash_iff e.previous_hash previous).1 back,
          (string_eq.beq_iff (event_hash sha256 dumps (material_from isoformat e) previous)
                e.payload_hash).1
              hashed,
        )
        (IsLinked-verify_from (some e.payload_hash) (expected + 1) es rest)

  -- What a chain that starts at a place leads to.
  abbrev pub hash_after : Option String → List Chronicle → Option String
  hash_after previous [] = previous
  hash_after previous (e ∷ es) = hash_after (some e.payload_hash) es

  IsLinked-append :
      (previous : Option String) (expected : ℕ) (es : List Chronicle) (e : Chronicle)
      → IsLinked previous expected es
      → e.position ≡ expected + length es
      → e.previous_hash ≡ hash_after previous es
      → event_hash sha256 dumps (material_from isoformat e) (hash_after previous es)
        ≡ e.payload_hash
      → IsLinked previous expected (es ++ e ∷ [])
  IsLinked-append previous expected [] e h p b s = (omega (arith, p), b, s, tt)
  IsLinked-append previous expected (x ∷ xs) e (placed, back, hashed, rest) p b s = (
    placed,
    back,
    hashed,
    IsLinked-append (some x.payload_hash) (expected + 1) xs e rest (omega (arith, p)) b s,
  )

  pub last-hash :
      (e : Chronicle) (es : List Chronicle)
      → hash_of_last (last_event (e ∷ es)) ≡ hash_after (some e.payload_hash) es
  last-hash e [] = refl
  last-hash e (f ∷ es) = last-hash f es

  last-position :
      (previous : Option String) (expected : ℕ) (e : Chronicle) (es : List Chronicle)
      → IsLinked previous expected (e ∷ es)
      → next_position (last_event (e ∷ es)) ≡ expected + length (e ∷ es)
  last-position previous expected e [] (placed, back, hashed, rest) = omega (arith, placed)
  last-position previous expected e (f ∷ es) (placed, back, hashed, rest) =
      omega (arith, last-position (some e.payload_hash) (expected + 1) f es rest)

  add_event-IsLinked :
      (e : Event) (es : List Chronicle)
      → IsLinked none 1 es
      → IsLinked none 1 (add_event sha256 dumps isoformat e es)
  unfolding add_event
  add_event-IsLinked e [] h = (refl, refl, refl, tt)
  add_event-IsLinked e (x ∷ xs) h =
      IsLinked-append none 1 (x ∷ xs) (chronicle_of sha256 dumps isoformat e (last_event (x ∷ xs)))
        h (last-position none 1 x xs h) (last-hash x xs)
        (ap (event_hash sha256 dumps _) (sym (last-hash x xs)))

-- The chronicle after some events.
abbrev pub add_events :
    (List ℕ → String)
    → (Material → List ℕ)
    → (ℕ → String)
    → List Event
    → List Chronicle
    → List Chronicle
add_events sha256 dumps isoformat [] es = es
add_events sha256 dumps isoformat (e ∷ later) es =
    add_events sha256 dumps isoformat later (add_event sha256 dumps isoformat e es)

-- A chronicle that verifies verifies after any further events, whatever the hash: the columns that
-- `add_event` writes, read again, give `verify_chronicle` the bytes that were hashed, and the places and
-- previous hashes that it expects.
pub add_events-valid :
    (sha256 : List ℕ → String) (dumps : Material → List ℕ) (isoformat : ℕ → String)
    (later : List Event) (es : List Chronicle)
    → verify_chronicle sha256 dumps isoformat es ≡ valid
    → verify_chronicle sha256 dumps isoformat (add_events sha256 dumps isoformat later es) ≡ valid
unfolding verify_chronicle
add_events-valid sha256 dumps isoformat [] es h = h
add_events-valid sha256 dumps isoformat (e ∷ later) es h =
    add_events-valid sha256 dumps isoformat later (add_event sha256 dumps isoformat e es) (
      IsLinked-verify_from sha256 dumps isoformat none 1 (add_event sha256 dumps isoformat e es) (
        add_event-IsLinked sha256 dumps isoformat e es
          (verify_from-IsLinked sha256 dumps isoformat none 1 es h)))
