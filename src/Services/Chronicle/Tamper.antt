-- ===== src/Services/Chronicle/Tamper.antt =====
-- backend/app/repositories/domain.py, `verify_chronicle`: what the last hash of a chronicle covers.
use the_creation_os.Prelude.{
  ℕ, ◌+◌, ◌≡◌, refl, sym, ap, ◌∙◌, String, Option, none, some, List, [], ◌∷◌, map, In, inl, inr,
  length, arith,
}
use the_creation_os.Services.Chronicle.{
  Material, Chronicle, material_from, valid, last_event, hash_of_last, event_hash, verify_chronicle,
}
use the_creation_os.Services.Chronicle.Linked.{
  IsLinked, verify_from-IsLinked, hash_after, last-hash,
}

module _ (sha256 : List ℕ → String) (dumps : Material → List ℕ) (isoformat : ℕ → String) where
  abbrev pub own_hash : Chronicle → String
  own_hash e = event_hash sha256 dumps (material_from isoformat e) e.previous_hash

  -- What the hash of a row covers, with the hashes: all columns but `id`, `causation_id` and
  -- `actor_type`, the time as it is written.
  abbrev pub sealed_part : Chronicle → Material × String × Option String
  sealed_part e = (material_from isoformat e, e.payload_hash, e.previous_hash)

  -- No two different events of two chronicles collide.
  abbrev pub NoCollision : List Chronicle → List Chronicle → Type 0
  NoCollision es fs =
      (e f : Chronicle)
      → In e es
      → In f fs
      → own_hash e ≡ own_hash f
      → (material_from isoformat e ≡ material_from isoformat f)
        × (e.previous_hash ≡ f.previous_hash)

  same_chain :
      (p q : Option String) (expected : ℕ) (es fs : List Chronicle)
      → NoCollision es fs
      → IsLinked sha256 dumps isoformat p expected es
      → IsLinked sha256 dumps isoformat q expected fs
      → length es ≡ length fs
      → hash_after sha256 dumps isoformat p es ≡ hash_after sha256 dumps isoformat q fs
      → (map sealed_part es ≡ map sealed_part fs) × (p ≡ q)
  same_chain p q expected [] [] free l k n h = (refl, h)
  same_chain p q expected [] (f ∷ fs) free l k n h = absurd (omega (arith, n))
  same_chain p q expected (e ∷ es) [] free l k n h = absurd (omega (arith, n))
  same_chain p q expected (e ∷ es) (f ∷ fs) free (placed, back, hashed, l)
        (placed', back', hashed', k) n h =
      let (rest, last) =
        same_chain (some e.payload_hash) (some f.payload_hash) (expected + 1) es fs
          (λ x y m m'. free x y (inr m) (inr m')) l k (omega (arith, n)) h in
      let sealed : e.payload_hash ≡ f.payload_hash = cc in
      let collides : own_hash e ≡ own_hash f =
        ap (event_hash sha256 dumps (material_from isoformat e)) back
        ∙ hashed
        ∙ sealed
        ∙ sym hashed'
        ∙ ap (event_hash sha256 dumps (material_from isoformat f)) (sym back') in
      let (m, b) = free e f (inl refl) (inl refl) collides in
      ((λ i. (m i, sealed i, b i) ∷ rest i), sym back ∙ b ∙ back')

-- Two chronicles that verify, have one length and end with one hash agree in every column that is
-- hashed, event by event, where no two of their events collide: under a last hash that is known none of
-- these can be changed and no event moved. Of the columns `id`, `causation_id` and `actor_type` nothing
-- is said.
pub verify_chronicle-pins_down :
    (sha256 : List ℕ → String) (dumps : Material → List ℕ) (isoformat : ℕ → String)
    (es fs : List Chronicle)
    → NoCollision sha256 dumps isoformat es fs
    → verify_chronicle sha256 dumps isoformat es ≡ valid
    → verify_chronicle sha256 dumps isoformat fs ≡ valid
    → length es ≡ length fs
    → hash_of_last (last_event es) ≡ hash_of_last (last_event fs)
    → map (sealed_part sha256 dumps isoformat) es ≡ map (sealed_part sha256 dumps isoformat) fs
unfolding verify_chronicle
verify_chronicle-pins_down sha256 dumps isoformat es fs free v w n h =
    (same_chain sha256 dumps isoformat none none 1 es fs free
      (verify_from-IsLinked sha256 dumps isoformat none 1 es v)
      (verify_from-IsLinked sha256 dumps isoformat none 1 fs w) n
      (from_last es ∙ h ∙ sym (from_last fs))).0
  where
    from_last :
        (l : List Chronicle)
        → hash_after sha256 dumps isoformat none l ≡ hash_of_last (last_event l)
    from_last [] = refl
    from_last (x ∷ xs) = sym (last-hash sha256 dumps isoformat x xs)
