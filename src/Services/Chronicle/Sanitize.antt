-- ===== src/Services/Chronicle/Sanitize.antt =====
-- backend/app/repositories/domain.py, `sanitize`: no sensitive key is kept, at any depth.
use the_creation_os.Prelude.{
  ◌≡◌, refl, ap, Bool, true, false, ◌&&◌, not, Bool-cases, inl, inr, &&-eq-true, arith,
}
use mathlib.Core.Path.{ap₂}
use the_creation_os.Prelude.Json.{
  Json, Items, Fields, null, bool, number, negative, text, array, object, end, item, done, field,
}
use the_creation_os.Services.Chronicle.{is_sensitive, sanitize, sanitize_items, sanitize_fields}

-- No object at any depth has a sensitive key.
mutual
  pub is_clean : Json → Bool
  is_clean null = true
  is_clean (bool b) = true
  is_clean (number n) = true
  is_clean (negative n) = true
  is_clean (text s) = true
  is_clean (array is) = are_clean is
  is_clean (object fs) = has_clean fs

  pub are_clean : Items → Bool
  are_clean end = true
  are_clean (item v is) = is_clean v && are_clean is

  pub has_clean : Fields → Bool
  has_clean done = true
  has_clean (field k v fs) = not (is_sensitive k) && (is_clean v && has_clean fs)

mutual
  unfolding sanitize sanitize_items sanitize_fields is_clean are_clean has_clean

  clean_value : (v : Json) → is_clean (sanitize v) ≡ true
  clean_value null = refl
  clean_value (bool b) = refl
  clean_value (number n) = refl
  clean_value (negative n) = refl
  clean_value (text s) = refl
  clean_value (array is) = clean_items is
  clean_value (object fs) = clean_fields fs

  clean_items : (is : Items) → are_clean (sanitize_items is) ≡ true
  clean_items end = refl
  clean_items (item v is) = rw (clean_value v) (clean_items is)

  clean_fields : (fs : Fields) → has_clean (sanitize_fields fs) ≡ true
  clean_fields done = refl
  clean_fields (field k v fs) = elim (Bool-cases (is_sensitive k)) [
    | inl hit ↦ rw hit (clean_fields fs)
    | inr miss ↦ rw (miss, miss, clean_value v) (clean_fields fs)
  ]

mutual
  unfolding sanitize sanitize_items sanitize_fields is_clean are_clean has_clean

  same_value : (v : Json) → is_clean v ≡ true → sanitize v ≡ v
  same_value null h = refl
  same_value (bool b) h = refl
  same_value (number n) h = refl
  same_value (negative n) h = refl
  same_value (text s) h = refl
  same_value (array is) h = ap array (same_items is h)
  same_value (object fs) h = ap object (same_fields fs h)

  same_items : (is : Items) → are_clean is ≡ true → sanitize_items is ≡ is
  same_items end h = refl
  same_items (item v is) h =
      let (a, b) = &&-eq-true (is_clean v) (are_clean is) h in
      ap₂ item (same_value v a) (same_items is b)

  same_fields : (fs : Fields) → has_clean fs ≡ true → sanitize_fields fs ≡ fs
  same_fields done h = refl
  same_fields (field k v fs) h =
      let (a, b) = &&-eq-true (not (is_sensitive k)) (is_clean v && has_clean fs) h in
      let (c, d) = &&-eq-true (is_clean v) (has_clean fs) b in
      let kept : is_sensitive k ≡ false = ground (arith, a) in
      rw kept (ap₂ (field k) (same_value v c) (same_fields fs d))

-- What `sanitize` leaves has no sensitive key at any depth, and what has none is left as it is.
pub sanitize-clean_and_same :
    (fs : Fields)
    → (has_clean (sanitize_fields fs) ≡ true) × (has_clean fs ≡ true → sanitize_fields fs ≡ fs)
sanitize-clean_and_same fs = (clean_fields fs, same_fields fs)
