-- ===== src/Services/Chronicle/Tests.antt =====
-- Witnesses for the Chronicle of backend/app/repositories/domain.py, with a hash of two letters.
use the_creation_os.Prelude.{
  ℕ, ◌≡◌, ◌≢◌, refl, sym, ap, ◌∙◌, String, true, none, some, Option, List, [], ◌∷◌, map, inl, inr,
  if◌then◌else◌, ◌==◌, nat_eq, eq_iff,
}
use the_creation_os.Prelude.Json.{Fields, number, object, field, done}
use the_creation_os.Services.Chronicle.{
  Material, Chronicle, material_from, Event, valid, is_sensitive, sanitize, sanitize_items,
  sanitize_fields, event_hash, add_event, verify_chronicle,
}
use the_creation_os.Services.Chronicle.Sanitize.{has_clean, sanitize-clean_and_same}
use the_creation_os.Services.Chronicle.Linked.{add_events, add_events-valid}
use the_creation_os.Services.Chronicle.Tamper.{
  own_hash, sealed_part, NoCollision, verify_chronicle-pins_down,
}

abbrev first_letter : List ℕ → String
first_letter [] = "b"
first_letter (c ∷ cs) = if c == 1 then "a" else "b"

abbrev position_only : Material → List ℕ
position_only m = m.position ∷ []

abbrev stamp : ℕ → String
stamp t = if t == 7 then "seven" else "later"

abbrev secrets : Fields
secrets =
    field "Api-Key" (number 7)
      (field "inner" (object (field "token" (number 8) (field "kept" (number 9) done))) done)

sanitize-clean_and_same_example :
    (has_clean (sanitize_fields secrets) ≡ true)
    × (has_clean secrets ≡ true → sanitize_fields secrets ≡ secrets)
sanitize-clean_and_same_example = sanitize-clean_and_same secrets

abbrev created : Event
created = record {
  id = "r1";
  event_id = "1";
  event_type = "mission_created";
  aggregate_type = "mission";
  aggregate_id = some "m";
  actor_id = "c";
  actor_role = "creator";
  correlation_id = "x";
  payload = some secrets;
  created_at = 7;
}

abbrev planned : Event
planned = record created {
  id = "r2";
  event_id = "2";
  event_type = "mission_planned";
  payload = none;
}

empty_valid : verify_chronicle first_letter position_only stamp [] ≡ valid
unfolding verify_chronicle
empty_valid = refl

abbrev chronicle : List Chronicle
chronicle = add_events first_letter position_only stamp (created ∷ planned ∷ []) []

add_events-valid_example : verify_chronicle first_letter position_only stamp chronicle ≡ valid
add_events-valid_example =
    add_events-valid first_letter position_only stamp (created ∷ planned ∷ []) [] empty_valid

-- The same events, in a column that is not hashed under another role.
abbrev altered : List Chronicle
altered = map (λ (e : Chronicle). record e { actor_type = "system" }) chronicle

verifies : verify_chronicle first_letter position_only stamp chronicle ≡ valid
unfolding verify_chronicle add_event event_hash sanitize sanitize_items sanitize_fields is_sensitive
verifies = refl

verifies_altered : verify_chronicle first_letter position_only stamp altered ≡ valid
unfolding verify_chronicle add_event event_hash sanitize sanitize_items sanitize_fields is_sensitive
verifies_altered = refl

different : ◌≢◌ {A = String} "a" "b"
different h = cc ((eq_iff "a" "b").1 h)

abbrev sealed : Chronicle → Material × Option String
sealed e = (material_from stamp e, e.previous_hash)

abbrev hash : Chronicle → String
hash = own_hash first_letter position_only stamp

apart : NoCollision first_letter position_only stamp chronicle altered
unfolding add_event event_hash sanitize sanitize_items sanitize_fields is_sensitive
apart e f (inl a) (inl b) h =
    let same : sealed e ≡ sealed f = ap sealed a ∙ sym (ap sealed b) in
    (ap (λ z. z.0) same, ap (λ z. z.1) same)
apart e f (inl a) (inr (inl b)) h = absurd (different (sym (ap hash a) ∙ h ∙ ap hash b))
apart e f (inr (inl a)) (inl b) h = absurd (different (sym (sym (ap hash a) ∙ h ∙ ap hash b)))
apart e f (inr (inl a)) (inr (inl b)) h =
    let same : sealed e ≡ sealed f = ap sealed a ∙ sym (ap sealed b) in
    (ap (λ z. z.0) same, ap (λ z. z.1) same)
apart e f (inl a) (inr (inr b)) h = elim b [ ]
apart e f (inr (inl a)) (inr (inr b)) h = elim b [ ]
apart e f (inr (inr a)) m h = elim a [ ]

verify_chronicle-pins_down_example :
    map (sealed_part first_letter position_only stamp) chronicle
    ≡ map (sealed_part first_letter position_only stamp) altered
unfolding add_event
verify_chronicle-pins_down_example =
    verify_chronicle-pins_down first_letter position_only stamp chronicle altered apart verifies
      verifies_altered refl refl
