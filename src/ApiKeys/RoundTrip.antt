-- ===== src/ApiKeys/RoundTrip.antt =====
-- The raw key that `create` returns is the one that `authenticate` accepts.
use django_boilderplate.ApiKeys.{
  use_key, key_accepts, key_hash, authenticate, owner_available, has_prefix, create, underscore,
  dot, raw_key, is_marked, prefix_of,
}
use django_boilderplate.Models.Accounts.{open_ended}
use django_boilderplate.Prelude.TableLaws.{first-none}
use django_boilderplate.Models.ApiKeys.{ApiKey}
use django_boilderplate.World.{ok, World}
use django_boilderplate.Common.Network.{Request}
use django_boilderplate.Env.{Env}
use django_boilderplate.Prelude.{
  ◌&&◌, some, if◌then◌else◌, first-append_none, first, eq_iff, ◌∷◌, ◌+◌, ◌++◌, ℕ, sorted_set, none,
  exists, [], Option, List, ◌≡◌, ◌∙◌, true, sym, starts_with-cat, starts_with, refl, has_char-cat,
  has_char, false, before_mark, before-cat, before, arith, ap, after_mark, after-cat, String,
}
use Prim.Native.String.{◌++◌ as cat}
use text.Mathlib.TextLemmas.{append-nil, append_assoc}

module _ (env : Env) (prefix secret : String) where
  prefix_of-raw_key :
      has_char dot prefix ≡ false → prefix_of env (raw_key env prefix secret) ≡ prefix
  unfolding prefix_of raw_key has_char
  prefix_of-raw_key h =
      ap (before dot) (
        after-cat underscore "dk" (cat "_" (cat prefix (cat "." secret))) refl
        ∙ after_mark "_" (cat prefix (cat "." secret)))
      ∙ before-cat dot prefix (cat "." secret) h
      ∙ ap (cat prefix) (before_mark "." secret)
      ∙ append-nil prefix

  is_marked-raw_key : is_marked env (raw_key env prefix secret) ≡ true
  unfolding is_marked raw_key
  is_marked-raw_key =
      let rest = cat prefix (cat "." secret) in
      let marked : starts_with "dk_" (cat "dk" (cat "_" rest)) ≡ true =
        ap (starts_with "dk_") (sym (append_assoc "dk" "_" rest)) ∙ starts_with-cat "dk_" rest in
      let dotted : has_char dot (cat "dk" (cat "_" rest)) ≡ true =
        simp has_char-cat (ground arith) in
      simp (marked, dotted)

module _ (env : Env) (w : World) (raw : String) (key : ApiKey) where
  key_accepts_unrevoked :
      key.revoked_at ≡ none
      → key.key_hash ≡ key_hash env raw
      → key_accepts env w raw key ≡ (open_ended w.now key.expires_at && owner_available env w key)
  unfolding key_accepts
  key_accepts_unrevoked live same =
      ground (arith, live, same, eq_iff key.key_hash (key_hash env raw))

  pub key_accepts_revoked : (at : ℕ) → key.revoked_at ≡ some at → key_accepts env w raw key ≡ false
  unfolding key_accepts
  key_accepts_revoked at h = ground (arith, h)

-- What `authenticate` answers, by the row that the prefix of the raw key finds.
abbrev pub answer : Env → World → String → Option ApiKey → Option ApiKey
answer env w raw none = none
answer env w raw (some key) = if key_accepts env w raw key then some key else none

module _ (env : Env) (raw : String) (ip : Option String) (w : World) where
  use_key_lem :
      (found : Option ApiKey) → (use_key env raw ip found w).0 ≡ ok (answer env w raw found)
  unfolding use_key
  use_key_lem none = refl
  use_key_lem (some key) = ground arith

  pub authenticate_lem :
      is_marked env raw ≡ true
      → (authenticate env raw ip w).0
        ≡ ok (answer env w raw (first (has_prefix (prefix_of env raw)) w.db.api_keys))
  unfolding authenticate
  authenticate_lem h = simp h (use_key_lem (first (has_prefix (prefix_of env raw)) w.db.api_keys))

module _ (env : Env) (owner : ℕ) (name : String) (scopes : List String) (expires_at : Option ℕ)
    (actor : Option ℕ) (request : Option Request) where
  abbrev pub new_raw : World → String
  new_raw w = raw_key env (env.random_hex w.draws) (env.random_token (w.draws + 1))

  -- the key that `create` stores
  abbrev pub new_key : World → ApiKey
  new_key w = record {
    pk = w.next_pk;
    owner = owner;
    name = name;
    prefix = env.random_hex w.draws;
    key_hash = key_hash env (new_raw w);
    scopes = sorted_set scopes;
    last_used_at = none;
    last_used_ip = none;
    expires_at = expires_at;
    revoked_at = none;
  }

  pub create-result :
      (w : World)
      → exists (has_prefix (env.random_hex w.draws)) w.db.api_keys ≡ false
      → (create env owner name scopes expires_at actor request w).0 ≡ ok (new_key w, new_raw w)
  unfolding create
  create-result w fresh = simp fresh (ground arith)

  pub keys-create :
      (w : World)
      → exists (has_prefix (env.random_hex w.draws)) w.db.api_keys ≡ false
      → (create env owner name scopes expires_at actor request w).1.db.api_keys
        ≡ w.db.api_keys ++ new_key w ∷ []
  unfolding create
  keys-create w fresh = simp fresh (ground arith)

  found-create :
      (w : World)
      → exists (has_prefix (env.random_hex w.draws)) w.db.api_keys ≡ false
      → first
          (has_prefix (env.random_hex w.draws))
          (create env owner name scopes expires_at actor request w).1.db.api_keys
        ≡ some (new_key w)
  found-create w fresh =
      ap (first (has_prefix (env.random_hex w.draws))) (keys-create w fresh)
      ∙ first-append_none (has_prefix (env.random_hex w.draws)) w.db.api_keys (new_key w ∷ [])
          (first-none (has_prefix (env.random_hex w.draws)) w.db.api_keys fresh)
      ∙ ground (arith, eq_iff (env.random_hex w.draws) (env.random_hex w.draws))

-- A key that is created with a prefix that no key has and that has no dot: the raw text that
-- `create` returns finds the new key at any later time, exactly if its expiry has not come and its
-- owner may authenticate at that time.
pub authenticate-create :
    (env : Env) (owner : ℕ) (name : String) (scopes : List String) (expires_at : Option ℕ)
    (actor : Option ℕ) (request : Option Request) (w : World) (ip : Option String) (later : ℕ)
    → exists (has_prefix (env.random_hex w.draws)) w.db.api_keys ≡ false
    → has_char dot (env.random_hex w.draws) ≡ false
    → let (r, w') = create env owner name scopes expires_at actor request w in
      let key = new_key env owner name scopes expires_at actor request w in
      let raw = new_raw env owner name scopes expires_at actor request w in
      let then_world = record w' { now = later } in
      (r ≡ ok (key, raw))
      × ((authenticate env raw ip then_world).0
          ≡ ok (
              if open_ended later expires_at && owner_available env then_world key
              then some key
              else none))
authenticate-create env owner name scopes expires_at actor request w ip later fresh hex =
    let key = new_key env owner name scopes expires_at actor request w in
    let raw = new_raw env owner name scopes expires_at actor request w in
    let w' = record (create env owner name scopes expires_at actor request w).1 { now = later } in
    let prefix_same =
      prefix_of-raw_key env (env.random_hex w.draws) (env.random_token (w.draws + 1)) hex in
    let found : first (has_prefix (prefix_of env raw)) w'.db.api_keys ≡ some key =
      ap (λ p. first (has_prefix p) w'.db.api_keys) prefix_same
      ∙ found-create env owner name scopes expires_at actor request w fresh in
    (
      create-result env owner name scopes expires_at actor request w fresh,
      authenticate_lem env raw ip w'
            (is_marked-raw_key env (env.random_hex w.draws) (env.random_token (w.draws + 1)))
          ∙ ap (λ o. ok (answer env w' raw o)) found
          ∙ ap (λ b. ok (if b then some key else none))
              (key_accepts_unrevoked env w' raw key refl refl),
    )
