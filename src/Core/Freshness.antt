-- ===== src/Core/Freshness.antt =====
-- What is set is what is read.
use django_boilderplate.Common.Logging.{Value}
use django_boilderplate.Audit.{record_audit}
use django_boilderplate.Env.{Env}
use django_boilderplate.World.{
  settings_cache-atomic, db-atomic_ok, enter, err, ok-atomic, value_or, Action, ok, World,
  SettingEntry,
}
use django_boilderplate.Models.Core.{SettingValueType, Setting}
use django_boilderplate.Prelude.{
  ◌∷◌, ◌==◌, first-replaced, first-passes, first-append_none, eq_refl, eq_iff, [], ==-refl,
  first_narrow, first-none, exists_weaken, ◌||◌, sym, suc, refl, none, arith, ap, ◌≡◌, ◌∙◌, ◌&&◌, ℕ,
  true, str_eq, some, not, inr, inl, first, false, exists_never, exists-select, exists,
  delete_where, String, Option, List, Bool-cases, Bool,
}
use django_boilderplate.Core.{
  validation_error, is_live_entry, is_valid_setting, new_setting, change_setting, set, set_found,
  Defaults, read_setting, save_setting, get, is_setting_entry, has_setting_key, bool_eq,
  put_setting,
}

-- a table in which the key has this row
abbrev Stores : String → Setting → World → Type 0
Stores key row w =
    (first (has_setting_key key) w.db.runtime_settings ≡ some row)
    × ((public_only : Bool) → exists (is_setting_entry key public_only) w.settings_cache ≡ false)

cases : (b c : Bool) → (not (bool_eq b false) && (not (bool_eq b true) && bool_eq b c)) ≡ false
cases true c = refl
cases false c = refl

variants :
    (e : SettingEntry) (public_only same : Bool)
    → (not (same && bool_eq e.public_only false)
        && (not (same && bool_eq e.public_only true)
            && (same && bool_eq e.public_only public_only)))
      ≡ false
variants e public_only false = refl
variants e public_only true = cases e.public_only public_only

-- Both variants of the key are out of the cache.
forgotten :
    (key : String) (public_only : Bool) (entries : List SettingEntry)
    → exists (is_setting_entry key public_only) (
        delete_where
          (is_setting_entry key true)
          (delete_where (is_setting_entry key false) entries))
      ≡ false
forgotten key public_only entries =
    exists-select (is_setting_entry key public_only) (λ e. not (is_setting_entry key true e))
      (delete_where (is_setting_entry key false) entries)
    ∙ exists-select (λ e. not (is_setting_entry key true e) && is_setting_entry key public_only e)
        (λ e. not (is_setting_entry key false e)) entries
    ∙ exists_never _ entries (λ e. variants e public_only (str_eq e.key key))

stores :
    (key : String) (row answer : Setting) (entries : List SettingEntry) (w : World)
    → answer ≡ row
    → row.key ≡ key
    → w.settings_cache
      ≡ delete_where
          (is_setting_entry row.key true)
          (delete_where (is_setting_entry row.key false) entries)
    → first (has_setting_key key) w.db.runtime_settings ≡ some row
    → Stores key answer w
stores key row answer entries w same named cache found = (
  found ∙ ap some (sym same),
  λ public_only.
      ap (exists (is_setting_entry key public_only)) (
        cache
        ∙ ap
            (λ k.
              delete_where (is_setting_entry k true)
                (delete_where (is_setting_entry k false) entries))
            named)
      ∙ forgotten key public_only entries,
)

module _ (env : Env) (created : Bool) (actor : Option ℕ) (row : Setting) (w : World) where
  put_setting_ok :
      (answer : Setting)
      → (put_setting env created actor row w).0 ≡ ok answer
      → (answer ≡ row)
        × ((put_setting env created actor row w).1.settings_cache
            ≡ delete_where
                (is_setting_entry row.key true)
                (delete_where (is_setting_entry row.key false) w.settings_cache))
        × ((put_setting env created actor row w).1.db.runtime_settings
            ≡ (save_setting created row w.db).runtime_settings)
  unfolding put_setting record_audit
  put_setting_ok answer h = elim (Bool-cases (is_valid_setting row)) [
    | inl e ↦
        let made : (put_setting env created actor row w).0 ≡ ok row = simp e in
        (sym (ap (value_or answer) (sym made ∙ h)), simp e, simp e)
    | inr e ↦
        let refused : (put_setting env created actor row w).0 ≡ err validation_error = simp e in
        absurd (ground (arith, sym refused ∙ h))
  ]

module _ (env : Env) (key : String) (value : Value) (value_type : SettingValueType)
    (actor : Option ℕ) (defaults : Defaults) where
  set_found_lem :
      (found : Option Setting) (answer : Setting) (w : World)
      → first (has_setting_key key) w.db.runtime_settings ≡ found
      → (set_found env key value value_type actor defaults found w).0 ≡ ok answer
      → (answer.value ≡ value)
        × Stores key answer (set_found env key value value_type actor defaults found w).1
  set_found_lem none answer w missing h =
      let row = change_setting value value_type defaults (new_setting w.next_pk key) in
      let w1 = record w { next_pk = suc w.next_pk } in
      let (same, cache, rows) = put_setting_ok env true actor row w1 answer h in
      let w2 = (put_setting env true actor row w1).1 in
      (
        ap (λ s. s.value) same,
        stores key row answer w.settings_cache w2 same refl cache (
            ap (first (has_setting_key key)) rows
            ∙ first-append_none (has_setting_key key) w.db.runtime_settings (row ∷ []) missing
            ∙ ground (arith, eq_refl key)),
      )
  set_found_lem (some r) answer w there h =
      let row = change_setting value value_type defaults r in
      let (same, cache, rows) = put_setting_ok env false actor row w answer h in
      let w2 = (put_setting env false actor row w).1 in
      let named = first-passes (has_setting_key key) w.db.runtime_settings there in
      (
        ap (λ s. s.value) same,
        stores key row answer w.settings_cache w2 same ((eq_iff r.key key).0 named) cache (
            ap (first (has_setting_key key)) rows
            ∙ first-replaced (has_setting_key key) (λ x. x.pk == r.pk) row w.db.runtime_settings r
                there (==-refl r.pk) named),
      )

  set_lem :
      (answer : Setting) (w : World)
      → (set env key value value_type actor defaults w).0 ≡ ok answer
      → (answer.value ≡ value) × Stores key answer (set env key value value_type actor defaults w).1
  unfolding set
  set_lem answer w h =
      let body : Action Setting = λ w.
        set_found env key value value_type actor defaults
          (first (has_setting_key key) w.db.runtime_settings) w in
      let ran = ok-atomic body w answer h in
      let (same, rows) =
        set_found_lem (first (has_setting_key key) w.db.runtime_settings) answer (enter w) refl
          ran in
      (
        same,
        (
          ap (λ db. first (has_setting_key key) db.runtime_settings)
                (db-atomic_ok body w answer ran)
              ∙ rows.0,
          λ public_only.
              ap (exists (is_setting_entry key public_only)) (settings_cache-atomic body w)
              ∙ rows.1 public_only,
        ),
      )

get-stored :
    (key : String) (default : Value) (public_only : Bool) (row : Setting) (w : World)
    → Stores key row w
    → (not public_only || row.is_public) ≡ true
    → (get key default public_only w).0 ≡ ok row.value
unfolding get read_setting
get-stored key default public_only row w (found, gone) visible =
    let uncached = first-none (is_live_entry w.now key public_only) w.settings_cache (
      exists_weaken (is_live_entry w.now key public_only) (is_setting_entry key public_only)
        w.settings_cache (λ e h. ground (arith, h)) (gone public_only)) in
    simp (
      uncached,
      first_narrow (has_setting_key key) (λ s. not public_only || s.is_public) w.db.runtime_settings
          row found visible,
    )

-- Once `set` has returned, every `get` of the key returns the new value, whatever was cached before
-- and whatever the default, at any later time; one for public settings, if the setting is public.
pub get-set :
    (env : Env) (key : String) (value : Value) (value_type : SettingValueType) (actor : Option ℕ)
    (defaults : Defaults) (row : Setting) (w : World) (default : Value) (public_only : Bool)
    (later : ℕ)
    → (set env key value value_type actor defaults w).0 ≡ ok row
    → (not public_only || row.is_public) ≡ true
    → (get key default public_only
        (record (set env key value value_type actor defaults w).1 { now = later })).0
      ≡ ok value
get-set env key value value_type actor defaults row w default public_only later h visible =
    let (same, stores) = set_lem env key value value_type actor defaults row w h in
    get-stored key default public_only row
      (record (set env key value value_type actor defaults w).1 { now = later }) stores visible
    ∙ ap ok same
