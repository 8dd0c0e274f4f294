-- ===== src/Middleware/RequestIds.antt =====
-- What a request identifier looks like.
use mathlib.Core.Bool.{false≢true}
use django_boilderplate.Middleware.{is_id_character, is_request_id, chosen_id, code, all_characters}
use django_boilderplate.Prelude.{
  ◌∙◌, ◌==◌, sym, inr, inl, arith, ap, Bool-cases, ==_iff, ◌≤◌, ◌≡◌, ℕ, true, text_length, refl,
  has_char, false, String, Bool,
}

all_characters-no :
    (p : ℕ → Bool) (c : ℕ) (s : String)
    → all_characters p s ≡ true
    → p c ≡ false
    → has_char c s ≡ false
unfolding all_characters has_char
all_characters-no p c String.[] h out = refl
all_characters-no p c (String.◌∷◌ d s) h out = elim (Bool-cases (code d == c)) [
  | inl e ↦ absurd (false≢true (sym out ∙ ap p (sym ((==_iff (code d) c).0 e)) ∙ ground (arith, h)))
  | inr e ↦ simp e (all_characters-no p c s (ground (arith, h)) out)
]

valid_bounds :
    (s : String) → is_request_id s ≡ true → (text_length s ≤ 64) × (has_char 10 s ≡ false)
unfolding is_request_id text_length has_char
valid_bounds String.[] h = absurd (ground (arith, h))
valid_bounds (String.◌∷◌ c s) h = (
  ground (arith, h),
  ground (arith, h, all_characters-no is_id_character 10 s (ground (arith, h)) refl),
)

-- Whatever the client sends, the identifier has at most 64 characters and no line feed, if the fresh
-- one has.
pub chosen_id_bounds :
    (incoming fresh : String)
    → text_length fresh ≤ 64
    → has_char 10 fresh ≡ false
    → (text_length (chosen_id incoming fresh) ≤ 64)
      × (has_char 10 (chosen_id incoming fresh) ≡ false)
unfolding chosen_id is_request_id
chosen_id_bounds incoming fresh short clean = elim (Bool-cases (is_request_id incoming)) [
  | inl e ↦ (simp e (valid_bounds incoming e).0, simp e (valid_bounds incoming e).1)
  | inr e ↦ (simp e short, simp e clean)
]
