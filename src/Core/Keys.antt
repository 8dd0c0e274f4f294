-- ===== src/Core/Keys.antt =====
-- The keys that `Setting.clean` of apps/core/models.py refuses: a word for a secret between
-- separators or at an end.
use django_boilderplate.Common.Logging.{codes, fold_code}
use django_boilderplate.Prelude.{
  ◌∷◌, ◌||◌, ◌==◌, ◌&&◌, ℕ, true, some, none, if◌then◌else◌, false, exists, [], String, Option,
  List, Bool,
}

-- the characters `.`, `_` and `-`
abbrev is_separator : ℕ → Bool
is_separator c = c == 46 || (c == 95 || c == 45)

-- What follows a word at the head of a text, up to case.
unfoldable pub after_word : List ℕ → List ℕ → Option (List ℕ)
unfolding fold_code
after_word [] s = some s
after_word (p ∷ ps) [] = none
after_word (p ∷ ps) (c ∷ s) = let rest = after_word ps s in if fold_code c == p then rest else none

-- `($|[._-])`; the end may stand before a last line feed.
abbrev ends_word : Option (List ℕ) → Bool
ends_word none = false
ends_word (some []) = true
ends_word (some (c ∷ [])) = is_separator c || c == 10
ends_word (some (c ∷ _ ∷ _)) = is_separator c

abbrev secret_words : List (List ℕ)
secret_words =
    codes "password"
    ∷ codes "secret"
    ∷ codes "credential"
    ∷ codes "private_key"
    ∷ codes "access_key"
    ∷ codes "token"
    ∷ codes "dsn"
    ∷ []

abbrev secret_at : List ℕ → Bool
secret_at s = exists (λ word. ends_word (after_word word s)) secret_words

-- a secret word after a separator
unfoldable pub secret_inside : List ℕ → Bool
unfolding after_word
secret_inside [] = false
secret_inside (c ∷ s) = (is_separator c && secret_at s) || secret_inside s

unfoldable pub is_secret_key : String → Bool
unfolding after_word secret_inside
is_secret_key key = secret_at (codes key) || secret_inside (codes key)
