-- ===== src/Common/Logging/Redaction.antt =====
-- What `sanitize` of common/logging.py leaves of a value.
use django_boilderplate.Common.Logging.{
  null, boolean, number, text, opaque, list, dict, nil, item, end, field, Value, Items, Fields,
  is_sensitive, redacted, sanitize, sanitize_items, sanitize_fields,
}
use django_boilderplate.Prelude.{
  eq_iff, arith, ap₂, ap, ◌≡◌, ◌||◌, ◌&&◌, true, str_eq, refl, not, inr, inl, if◌then◌else◌, false,
  String, Bool-cases, Bool,
}

-- whether a value is the text that stands for a redacted one
abbrev is_redacted : Value → Bool
is_redacted (text s) = str_eq s "[REDACTED]"
is_redacted null = false
is_redacted (boolean _) = false
is_redacted (number _) = false
is_redacted (opaque _) = false
is_redacted (list _) = false
is_redacted (dict _) = false

-- No field with a sensitive name, at any depth, has a value other than the redacted one, and no
-- object is left that is not a plain value.
unfoldable mutual
  pub is_clean : Value → Bool
  is_clean null = true
  is_clean (boolean _) = true
  is_clean (number _) = true
  is_clean (text _) = true
  is_clean (opaque _) = false
  is_clean (list xs) = is_clean_items xs
  is_clean (dict fs) = is_clean_fields fs

  pub is_clean_items : Items → Bool
  is_clean_items nil = true
  is_clean_items (item v xs) = is_clean v && is_clean_items xs

  pub is_clean_fields : Fields → Bool
  is_clean_fields end = true
  is_clean_fields (field k v fs) =
      (not (is_sensitive k) || is_redacted v) && (is_clean v && is_clean_fields fs)

clean_field :
    (k : String) (v : Value) (rest : Bool)
    → is_clean v ≡ true
    → rest ≡ true
    → (let kept = if is_sensitive k then redacted else v in
        ((not (is_sensitive k) || is_redacted kept) && (is_clean kept && rest)))
      ≡ true
unfolding is_clean
clean_field k v rest h r = elim (Bool-cases (is_sensitive k)) [
  | inl e ↦ simp (e, r)
  | inr e ↦ simp (e, h, r)
]

mutual
  unfolding sanitize is_clean

  pub sanitize-clean : (v : Value) → is_clean (sanitize v) ≡ true
  sanitize-clean null = refl
  sanitize-clean (boolean _) = refl
  sanitize-clean (number _) = refl
  sanitize-clean (text _) = refl
  sanitize-clean (opaque _) = refl
  sanitize-clean (list xs) = sanitize_items-clean xs
  sanitize-clean (dict fs) = sanitize_fields-clean fs

  pub sanitize_items-clean : (xs : Items) → is_clean_items (sanitize_items xs) ≡ true
  sanitize_items-clean nil = refl
  sanitize_items-clean (item v xs) = simp (sanitize-clean v, sanitize_items-clean xs)

  pub sanitize_fields-clean : (fs : Fields) → is_clean_fields (sanitize_fields fs) ≡ true
  sanitize_fields-clean end = refl
  sanitize_fields-clean (field k v fs) =
      clean_field k (sanitize v) (is_clean_fields (sanitize_fields fs)) (sanitize-clean v)
        (sanitize_fields-clean fs)

redacted-only : (v : Value) → is_redacted v ≡ true → redacted ≡ v
redacted-only (text s) h = ground (arith, eq_iff s "[REDACTED]")
redacted-only null h = cc
redacted-only (boolean _) h = cc
redacted-only (number _) h = cc
redacted-only (opaque _) h = cc
redacted-only (list _) h = cc
redacted-only (dict _) h = cc

kept_field :
    (k : String) (v : Value)
    → (not (is_sensitive k) || is_redacted v) ≡ true
    → sanitize v ≡ v
    → (if is_sensitive k then redacted else sanitize v) ≡ v
kept_field k v h e = elim (Bool-cases (is_sensitive k)) [
  | inl s ↦ simp s (redacted-only v (ground arith))
  | inr s ↦ simp s e
]

mutual
  unfolding sanitize is_clean

  clean-kept : (v : Value) → is_clean v ≡ true → sanitize v ≡ v
  clean-kept null h = refl
  clean-kept (boolean _) h = refl
  clean-kept (number _) h = refl
  clean-kept (text _) h = refl
  clean-kept (opaque _) h = cc
  clean-kept (list xs) h = ap list (clean_items-kept xs h)
  clean-kept (dict fs) h = ap dict (clean_fields-kept fs h)

  clean_items-kept : (xs : Items) → is_clean_items xs ≡ true → sanitize_items xs ≡ xs
  clean_items-kept nil h = refl
  clean_items-kept (item v xs) h =
      ap₂ item (clean-kept v (ground arith)) (clean_items-kept xs (ground arith))

  clean_fields-kept : (fs : Fields) → is_clean_fields fs ≡ true → sanitize_fields fs ≡ fs
  clean_fields-kept end h = refl
  clean_fields-kept (field k v fs) h =
      ap₂ (field k) (kept_field k v (ground arith) (clean-kept v (ground arith)))
        (clean_fields-kept fs (ground arith))

-- Whatever value is given, what `sanitize` returns has no field with a sensitive name, at any
-- depth, whose value is not the redacted one, and no object that is not a plain value; and
-- sanitizing it again changes nothing.
pub sanitize_lem :
    (v : Value) → (is_clean (sanitize v) ≡ true) × (sanitize (sanitize v) ≡ sanitize v)
sanitize_lem v = (sanitize-clean v, clean-kept (sanitize v) (sanitize-clean v))
