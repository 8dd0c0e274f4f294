-- ===== src/Common/Logging.antt =====
-- common/logging.py: the redaction of structured values before they are stored or logged.
use Prim.Native.Char.{code}
use django_boilderplate.Prelude.{
  ℕ, ◌+◌, String, Bool, true, false, ◌&&◌, ◌||◌, List, [], ◌∷◌, leb, ◌==◌, if◌then◌else◌,
}
pub mod Redaction

-- A value handed to the formatter. `opaque` is any other object, with the text that `str` or
-- `isoformat` gives for it. A tuple is a list.
mutual
  pub data Value : Type 0 where
    null : Value
    boolean : Bool → Value
    number : ℕ → Value
    text : String → Value
    opaque : String → Value
    list : Items → Value
    dict : Fields → Value

  pub data Items : Type 0 where
    nil : Items
    item : Value → Items → Items

  pub data Fields : Type 0 where
    end : Fields
    field : String → Value → Fields → Fields

abbrev pub codes : String → List ℕ
codes String.[] = []
codes (String.◌∷◌ c s) = code c ∷ codes s

-- Case folding of one character as `re.IGNORECASE` does it for the letters of the pattern: besides
-- A to Z, the long s, the Kelvin sign and the two dotted and dotless i of Turkish match.
unfoldable pub fold_code : ℕ → ℕ
fold_code c =
    if leb 65 c && leb c 90
    then c + 32
    else if c == 383
    then 115
    else if c == 8490
    then 107
    else if c == 304 || c == 305
    then 105
    else c

unfoldable starts_folded : List ℕ → List ℕ → Bool
unfolding fold_code
starts_folded [] s = true
starts_folded (p ∷ ps) [] = false
starts_folded (p ∷ ps) (c ∷ s) = (fold_code c == p) && starts_folded ps s

-- `re.search` of one word
unfoldable occurs : List ℕ → List ℕ → Bool
unfolding starts_folded
occurs p [] = starts_folded p []
occurs p (c ∷ s) = starts_folded p (c ∷ s) || occurs p s

unfoldable occurs_any : List (List ℕ) → List ℕ → Bool
unfolding occurs
occurs_any [] s = false
occurs_any (p ∷ ps) s = occurs p s || occurs_any ps s

-- The alternatives of the pattern, with `[_-]?` written out.
abbrev sensitive_words : List (List ℕ)
sensitive_words =
    codes "password"
    ∷ codes "authorization"
    ∷ codes "cookie"
    ∷ codes "token"
    ∷ codes "secret"
    ∷ codes "apikey"
    ∷ codes "api_key"
    ∷ codes "api-key"
    ∷ codes "key_hash"
    ∷ codes "session_key"
    ∷ codes "encrypted"
    ∷ codes "totp"
    ∷ codes "recoverycode"
    ∷ codes "recovery_code"
    ∷ codes "recovery-code"
    ∷ []

-- `SENSITIVE_KEY.search(str(key))`
unfoldable pub is_sensitive : String → Bool
unfolding occurs_any
is_sensitive key = occurs_any sensitive_words (codes key)

abbrev pub redacted : Value
redacted = text "[REDACTED]"

unfoldable mutual
  unfolding is_sensitive

  pub sanitize : Value → Value
  sanitize null = null
  sanitize (boolean b) = boolean b
  sanitize (number n) = number n
  sanitize (text s) = text s
  sanitize (opaque s) = text s
  sanitize (list xs) = list (sanitize_items xs)
  sanitize (dict fs) = dict (sanitize_fields fs)

  pub sanitize_items : Items → Items
  sanitize_items nil = nil
  sanitize_items (item v xs) = item (sanitize v) (sanitize_items xs)

  pub sanitize_fields : Fields → Fields
  sanitize_fields end = end
  sanitize_fields (field k v fs) =
      field k (if is_sensitive k then redacted else sanitize v) (sanitize_fields fs)
