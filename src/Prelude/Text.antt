-- ===== src/Prelude/Text.antt =====
-- Texts: parts before and after a character, and the sorted set of a list of texts.
use Prim.Native.Nat.{ℕ, suc, Ordering}
use Prim.Native.Char.{Char, code}
use Prim.Native.String.{String, compare, ◌++◌ as cat}
use mathlib.Core.Logic.{inl, inr}
use text.Mathlib.TextLemmas.{nil-append, cons-append}
use mathlib.Core.Path.{◌≡◌, refl}
use mathlib.Core.Bool.{Bool, true, false, ◌&&◌, ◌||◌}
use mathlib.Core.List.{List, [], ◌∷◌}
use native.Mathlib.Omega.{arith}
use text.Mathlib.Text.{◌==◌ as str_eq}
use django_boilderplate.Prelude.Tests.{if◌then◌else◌, ◌==◌, Bool-cases}

-- `len(text)`
unfoldable pub text_length : String → ℕ
text_length String.[] = 0
text_length (String.◌∷◌ c s) = suc (text_length s)

-- `c in text`
unfoldable pub has_char : ℕ → String → Bool
has_char c String.[] = false
has_char c (String.◌∷◌ d s) = code d == c || has_char c s

-- `text.split(c, 1)[0]`
unfoldable pub before : ℕ → String → String
before c String.[] = String.[]
before c (String.◌∷◌ d s) =
    let rest = before c s in if code d == c then String.[] else String.◌∷◌ d rest

-- `text.split(c, 1)[1]`, and the empty text where there is no `c`
unfoldable pub after : ℕ → String → String
after c String.[] = String.[]
after c (String.◌∷◌ d s) = let rest = after c s in if code d == c then s else rest

-- `text.rsplit(c, 1)[-1]`
unfoldable pub after_last : ℕ → String → String
unfolding has_char
after_last c String.[] = String.[]
after_last c (String.◌∷◌ d s) =
    let rest = after_last c s in
    if has_char c s then rest else if code d == c then s else String.◌∷◌ d s

-- `text.startswith(p)`
unfoldable pub starts_with : String → String → Bool
starts_with String.[] s = true
starts_with (String.◌∷◌ c p) String.[] = false
starts_with (String.◌∷◌ c p) (String.◌∷◌ d s) = (code c == code d) && starts_with p s

-- the order of texts by code points
unfoldable pub text_ltb : String → String → Bool
text_ltb s t = elim (compare s t) [ Ordering.lt ↦ true | _ ↦ false ]

-- one text into a sorted list without repetition
unfoldable pub insert_text : String → List String → List String
unfolding text_ltb
insert_text s [] = s ∷ []
insert_text s (t ∷ ts) =
    let rest = insert_text s ts in
    if str_eq s t then t ∷ ts else if text_ltb s t then s ∷ t ∷ ts else t ∷ rest

-- `sorted(set(texts))`
unfoldable pub sorted_set : List String → List String
unfolding insert_text
sorted_set [] = []
sorted_set (t ∷ ts) = insert_text t (sorted_set ts)

-- A text without the character stands whole before it.
pub before-cat :
    (c : ℕ) (s t : String) → has_char c s ≡ false → before c (cat s t) ≡ cat s (before c t)
unfolding before has_char
before-cat c String.[] t h = simp nil-append
before-cat c (String.◌∷◌ d s) t h = elim (Bool-cases (code d == c)) [
  | inl e ↦ ground (arith, h)
  | inr e ↦ simp (e, before-cat c s t (ground arith), cons-append)
]

pub has_char-cat : (c : ℕ) (s t : String) → has_char c (cat s t) ≡ (has_char c s || has_char c t)
unfolding has_char
has_char-cat c String.[] t = simp nil-append
has_char-cat c (String.◌∷◌ d s) t = simp cons-append (ground (arith, has_char-cat c s t))

pub after-cat : (c : ℕ) (s t : String) → has_char c s ≡ false → after c (cat s t) ≡ after c t
unfolding after has_char
after-cat c String.[] t h = simp nil-append
after-cat c (String.◌∷◌ d s) t h = simp cons-append (ground (arith, after-cat c s t))

pub starts_with-cat : (p s : String) → starts_with p (cat p s) ≡ true
unfolding starts_with
starts_with-cat String.[] s = refl
starts_with-cat (String.◌∷◌ c p) s = simp cons-append (ground (arith, starts_with-cat p s))

-- What follows a mark of one character, and what stands before it.
module _ (d : Char) (s : String) where
  pub after_mark : after (code d) (cat (String.◌∷◌ d String.[]) s) ≡ s
  unfolding after
  after_mark = simp (cons-append, nil-append) (ground arith)

  pub before_mark : before (code d) (cat (String.◌∷◌ d String.[]) s) ≡ String.[]
  unfolding before
  before_mark = simp (cons-append, nil-append) (ground arith)

  pub has_char_mark : has_char (code d) (cat (String.◌∷◌ d String.[]) s) ≡ true
  unfolding has_char
  has_char_mark = simp (cons-append, nil-append) (ground arith)
