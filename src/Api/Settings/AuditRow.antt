-- ===== src/Api/Settings/AuditRow.antt =====
-- What the audit row of a changed setting says of the values before the change.
use django_boilderplate.Notifications.{not_found}
use django_boilderplate.World.{continue, or_raise, bind-ok, or_raise_ok, ◌>>=◌}
use django_boilderplate.Core.{is_valid_setting}
use django_boilderplate.Common.Logging.{sanitize_fields}
use django_boilderplate.World.{Action, ok, World}
use django_boilderplate.Common.Network.{agent_of, ip_of, request_id_of, Request}
use django_boilderplate.Env.{Env}
use django_boilderplate.Audit.{record_audit}
use django_boilderplate.Models.Core.{Setting}
use django_boilderplate.Models.Audit.{AuditLog}
use django_boilderplate.Api.Settings.{
  with_data, validate_setting, SettingData, perform_update, validated_fields, update_setting,
  instance_fields,
}
use django_boilderplate.Prelude.{
  ◌∙◌, ◌==◌, true, sym, first, ap, ◌≡◌, ◌∷◌, ◌++◌, ℕ, some, refl, none, arith, [], Option, List,
}

instance_fields-with_data :
    (d : SettingData) (row : Setting) → instance_fields d (with_data d row) ≡ validated_fields d
unfolding instance_fields validated_fields
instance_fields-with_data d row = ground arith

abbrev newest_audit : List AuditLog → Option AuditLog
newest_audit [] = none
newest_audit (a ∷ []) = some a
newest_audit (a ∷ rest) = newest_audit rest

newest_audit-append : (rows : List AuditLog) (a : AuditLog) → newest_audit (rows ++ a ∷ []) ≡ some a
newest_audit-append [] a = refl
newest_audit-append (x ∷ []) a = refl
newest_audit-append (x ∷ y ∷ rows) a = newest_audit-append (y ∷ rows) a

audit-perform_update :
    (env : Env) (instance_ s : Setting) (d : SettingData) (actor : ℕ) (request : Option Request)
    (w : World)
    → (perform_update env instance_ d actor request w).0 ≡ ok s
    → (a : AuditLog) × (newest_audit
          (perform_update env instance_ d actor request w).1.db.audit_logs
        ≡ some a)
      × (a.before ≡ sanitize_fields (instance_fields d instance_))
      × (a.after ≡ sanitize_fields (validated_fields d))
unfolding perform_update record_audit
audit-perform_update env instance_ s d actor request w done =
    let valid : is_valid_setting instance_ ≡ true = ground (arith, done) in
    simp valid (
      record {
        actor = some actor;
        action = "setting.updated";
        target_type = "core.setting";
        target_id = env.pk_text instance_.pk;
        before = sanitize_fields (instance_fields d instance_);
        after = sanitize_fields (validated_fields d);
        request_id = request_id_of request;
        ip_address = ip_of env request;
        user_agent = agent_of env request;
        created_at = w.now;
      },
      newest_audit-append w.db.audit_logs _,
      refl,
      refl,
    )

-- The audit row of a change of a setting through the interface names the same values before and
-- after the change.
update_setting-audit :
    (env : Env) (pk : ℕ) (parsed : Option SettingData) (actor : ℕ) (request : Option Request)
    (w : World) (s : Setting)
    → (update_setting env pk parsed actor request w).0 ≡ ok s
    → (a : AuditLog) × (newest_audit (update_setting env pk parsed actor request w).1.db.audit_logs
        ≡ some a)
      × (a.before ≡ a.after)
unfolding update_setting
update_setting-audit env pk parsed actor request w s done =
    let put : Setting → SettingData → Action Setting =
      λ row d. perform_update env (with_data d row) d actor request in
    let rest : Setting → Action Setting = λ row. validate_setting row parsed >>= put row in
    let (row, found, checked_) =
      or_raise_ok rest s (first (λ r. r.pk == pk) w.db.runtime_settings) not_found w done in
    let (d, valid, written) = bind-ok (put row) s (validate_setting row parsed) w checked_ in
    let (a, newest_, before_, after_) =
      audit-perform_update env (with_data d row) s d actor request (validate_setting row parsed w).1
        written in
    let put_at = (validate_setting row parsed w).1 in
    let same : update_setting env pk parsed actor request w ≡ put row d put_at =
      ap (λ o. (or_raise o not_found >>= rest) w) found
      ∙ ap (λ v. continue v (put row) put_at) valid in
    (
      a,
      ap (λ x. newest_audit x.1.db.audit_logs) same ∙ newest_,
      before_ ∙ ap sanitize_fields (instance_fields-with_data d row) ∙ sym after_,
    )
