-- ===== src/Api/Closed.antt =====
-- The registration is closed: by the service for the settings, and by an administrator's request.
use django_boilderplate.Audit.{record_audit}
use django_boilderplate.Api.Settings.Stale.{cache-update_setting}
use django_boilderplate.World.{
  raise_if_ok, pure, serializer_error, continue, or_raise, raise_if, ◌>>◌,
}
use django_boilderplate.Notifications.{not_found}
use django_boilderplate.World.{bind-ok, or_raise_ok, Action, Result, ◌>>=◌}
use django_boilderplate.Api.Settings.{
  SettingData, perform_update, update_setting, validate_setting, with_data,
}
use django_boilderplate.Security.LoginProtection.{second}
use django_boilderplate.Api.Settings.{is_key_of_other}
use django_boilderplate.Core.{is_valid_setting, has_setting_key, cache_timeout, stored_setting}
use django_boilderplate.Common.Values.{is_true}
use django_boilderplate.Common.Network.{Request}
use django_boilderplate.Env.{Env}
use django_boilderplate.Api.Registering.{
  registration_closed, registration_key, RegistrationData, register_post,
}
use django_boilderplate.World.{SettingEntry, err, ok, World, Quiet}
use django_boilderplate.Prelude.{
  ◌∙◌, sym, subst, not, is_some-first, is_some, first-passes, ap, ==_iff, inr, inl, eq_refl,
  Bool-cases, ◌≤◌, ◌∷◌, ◌==◌, ◌+◌, ◌*◌, update_where, exists, arith, [], List, All, ◌≡◌, ℕ, true,
  some, refl, none, first, false, String, Option, Bool,
}
use django_boilderplate.Core.{Defaults, is_live_entry, cached_value, read_setting, set, get}
use django_boilderplate.Core.Freshness.{get-set}
use django_boilderplate.Models.Core.{Setting, boolean}
use django_boilderplate.Common.Logging.{Value, boolean as boolean_value}

Quiet-read_setting :
    (cached : Option Value) (key : String) (default : Value) (public_only : Bool)
    → Quiet (read_setting key default public_only cached)
unfolding read_setting
Quiet-read_setting none key default public_only w = refl
Quiet-read_setting (some v) key default public_only w = refl

Quiet-get :
    (key : String) (default : Value) (public_only : Bool) → Quiet (get key default public_only)
unfolding get
Quiet-get key default public_only w =
    Quiet-read_setting (cached_value (first (is_live_entry w.now key public_only) w.settings_cache))
      key default public_only w

-- Once `RuntimeSettingService.set` has set `site.registration_enabled` to false, every registration at any later time
-- is refused as REGISTRATION_DISABLED and writes no row, whatever was cached before.
pub register_post-set :
    (env : Env) (actor : Option ℕ) (defaults : Defaults) (row : Setting) (w : World) (later : ℕ)
    (parsed : Option RegistrationData) (request : Option Request)
    → (set env registration_key (boolean_value false) boolean actor defaults w).0 ≡ ok row
    → let w' = record (set env registration_key (boolean_value false) boolean actor defaults w).1 {
      now = later;
    } in
      ((register_post env parsed request w').0 ≡ err registration_closed)
      × ((register_post env parsed request w').1.db ≡ w'.db)
unfolding register_post is_true
register_post-set env actor defaults row w later parsed request done =
    let w' = record (set env registration_key (boolean_value false) boolean actor defaults w).1 {
      now = later;
    } in
    let closed =
      get-set env registration_key (boolean_value false) boolean actor defaults row w
        (boolean_value true) false later done refl in
    (simp closed, simp closed (Quiet-get registration_key (boolean_value true) false w'))

-- Every entry of the cache of the settings is gone five minutes from now.
abbrev pub Expiring : World → Type 0
Expiring w = All (λ e. e.expires ≤ w.now + cache_timeout * second) w.settings_cache

stale_none :
    (later : ℕ) (limit : ℕ) (key : String) (public_only : Bool) (entries : List SettingEntry)
    → limit ≤ later
    → All (λ e. e.expires ≤ limit) entries
    → first (is_live_entry later key public_only) entries ≡ none
stale_none later limit key public_only [] h all = refl
stale_none later limit key public_only (e ∷ entries) h all =
    ground (arith, h, all.0, stale_none later limit key public_only entries h all.1)

first-updated :
    (row : Setting) (rows : List Setting)
    → exists (λ s. s.pk == row.pk) rows ≡ true
    → exists (is_key_of_other row.pk row.key) rows ≡ false
    → stored_setting row.key false (update_where (λ s. s.pk == row.pk) (λ _. row) rows) ≡ some row
first-updated row [] there alone = cc
first-updated row (s ∷ rows) there alone = elim (Bool-cases (s.pk == row.pk)) [
  | inl e ↦ simp (e, eq_refl row.key)
  | inr e ↦
      let apart : has_setting_key row.key s ≡ false = ground (arith, e, alone) in
      simp (e, apart) (first-updated row rows (ground (arith, e, there)) (ground (arith, alone)))
]

abbrev instance_or : Setting → Result Setting → Setting
instance_or s (ok t) = t
instance_or s (err e) = s

validate_setting-kept :
    (old : Setting) (parsed : Option SettingData) (w : World)
    → (validate_setting old parsed w).1 ≡ w
unfolding validate_setting
validate_setting-kept old parsed w = ground arith

abbrev data_or : SettingData → Result SettingData → SettingData
data_or d (ok d') = d'
data_or d (err e) = d

validate_setting-alone :
    (old : Setting) (parsed : Option SettingData) (w : World) (d : SettingData)
    → (validate_setting old parsed w).0 ≡ ok d
    → exists (is_key_of_other old.pk (with_data d old).key) w.db.runtime_settings ≡ false
unfolding validate_setting
validate_setting-alone old none w d done = absurd (ground (arith, done))
validate_setting-alone old (some given) w d done =
    let new_ = with_data given old in
    let taken = exists (is_key_of_other old.pk new_.key) w.db.runtime_settings in
    let valid : Action SettingData =
      raise_if (not (is_valid_setting new_)) serializer_error >> pure given in
    let (alone, rest) = raise_if_ok valid w d taken serializer_error done in
    let (_, same) =
      raise_if_ok (pure given) w d (not (is_valid_setting new_)) serializer_error rest in
    subst (λ x. exists (is_key_of_other old.pk (with_data x old).key) w.db.runtime_settings ≡ false)
      (ap (data_or given) same) alone

perform_update-stored :
    (env : Env) (inst row : Setting) (d : SettingData) (actor : ℕ) (request : Option Request)
    (w : World)
    → (perform_update env inst d actor request w).0 ≡ ok row
    → (inst ≡ row)
      × ((perform_update env inst d actor request w).1.db.runtime_settings
          ≡ update_where (λ r. r.pk == inst.pk) (λ _. inst) w.db.runtime_settings)
unfolding perform_update record_audit
perform_update-stored env inst row d actor request w done =
    let valid : is_valid_setting inst ≡ true = ground (arith, done) in
    let returned : (perform_update env inst d actor request w).0 ≡ ok inst = simp valid in
    (ap (instance_or inst) (sym returned ∙ done), simp valid)

-- What a change of a setting through the interface that succeeds leaves in the table.
update_setting-stored :
    (env : Env) (pk actor : ℕ) (parsed : Option SettingData) (request : Option Request) (w : World)
    (row : Setting)
    → (update_setting env pk parsed actor request w).0 ≡ ok row
    → stored_setting row.key false
        (update_setting env pk parsed actor request w).1.db.runtime_settings
      ≡ some row
unfolding update_setting
update_setting-stored env pk actor parsed request w row done =
    let put : Setting → SettingData → Action Setting =
      λ old d. perform_update env (with_data d old) d actor request in
    let rest : Setting → Action Setting = λ old. validate_setting old parsed >>= put old in
    let (old, found, checked_) =
      or_raise_ok rest row (first (λ r. r.pk == pk) w.db.runtime_settings) not_found w done in
    let (d, valid, written) = bind-ok (put old) row (validate_setting old parsed) w checked_ in
    let put_at = (validate_setting old parsed w).1 in
    let at_w : put_at ≡ w = validate_setting-kept old parsed w in
    let inst = with_data d old in
    let (same, stored) = perform_update-stored env inst row d actor request put_at written in
    let whole : update_setting env pk parsed actor request w ≡ put old d put_at =
      ap (λ o. (or_raise o not_found >>= rest) w) found
      ∙ ap (λ v. continue v (put old) put_at) valid in
    let its_pk : old.pk ≡ pk =
      (==_iff old.pk pk).0 (first-passes (λ r. r.pk == pk) w.db.runtime_settings found) in
    let known : exists (λ s. s.pk == inst.pk) w.db.runtime_settings ≡ true =
      subst (λ k. exists (λ s. s.pk == k) w.db.runtime_settings ≡ true) (sym its_pk)
        (sym (is_some-first (λ s. s.pk == pk) w.db.runtime_settings) ∙ ap is_some found) in
    let alone = validate_setting-alone old parsed w d valid in
    ap (λ x. stored_setting row.key false x.1.db.runtime_settings) whole
    ∙ ap (stored_setting row.key false) stored
    ∙ ap
        (λ v.
          stored_setting row.key false
            (update_where (λ r. r.pk == inst.pk) (λ _. inst) v.db.runtime_settings))
        at_w
    ∙ ap
        (λ t.
          stored_setting t.key false
            (update_where (λ r. r.pk == inst.pk) (λ _. inst) w.db.runtime_settings))
        (sym same)
    ∙ first-updated inst w.db.runtime_settings known alone
    ∙ ap some same

-- Where the entries of the cache of the settings expire within five minutes, as `get` writes them: five
-- minutes after an administrator has set `site.registration_enabled` to false through the
-- interface, if nothing else has changed meanwhile, every registration is refused as
-- REGISTRATION_DISABLED and writes no row, whatever was cached before.
pub register_post-update_setting :
    (env : Env) (pk actor : ℕ) (change : Option SettingData) (request : Option Request) (w : World)
    (row : Setting) (later : ℕ) (parsed : Option RegistrationData) (sent : Option Request)
    → (update_setting env pk change actor request w).0 ≡ ok row
    → row.key ≡ registration_key
    → row.value ≡ boolean_value false
    → Expiring w
    → w.now + cache_timeout * second ≤ later
    → let w' = record (update_setting env pk change actor request w).1 { now = later } in
      ((register_post env parsed sent w').0 ≡ err registration_closed)
      × ((register_post env parsed sent w').1.db ≡ w'.db)
unfolding register_post is_true get read_setting
register_post-update_setting env pk actor change request w row later parsed sent done its_key
      its_value expiring after =
    let w' = record (update_setting env pk change actor request w).1 { now = later } in
    let (kept, _) = cache-update_setting env pk change actor request w in
    let missed : first (is_live_entry later registration_key false) w'.settings_cache ≡ none =
      ap (first (is_live_entry later registration_key false)) kept
      ∙ stale_none later (w.now + cache_timeout * second) registration_key false w.settings_cache
          after expiring in
    let stored : stored_setting registration_key false w'.db.runtime_settings ≡ some row =
      subst (λ k. stored_setting k false w'.db.runtime_settings ≡ some row) its_key
        (update_setting-stored env pk actor change request w row done) in
    let closed : (get registration_key (boolean_value true) false w').0 ≡ ok (boolean_value false) =
      simp (missed, stored) (ap ok its_value) in
    (simp closed, simp closed (Quiet-get registration_key (boolean_value true) false w'))
