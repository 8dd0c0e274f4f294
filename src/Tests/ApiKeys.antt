-- ===== src/Tests/ApiKeys.antt =====
-- Runs of the keys of the programmatic interface and of the idempotent requests.
use django_boilderplate.ApiKeys.{key_hash, owner_available, prefix_of, create, revoke, authenticate}
use django_boilderplate.Common.Logging.{null}
use django_boilderplate.ApiKeys.Revocation.{authenticate-revoke}
use django_boilderplate.Common.Idempotency.Requests.{idempotent-repeat}
use django_boilderplate.World.{err, ok, Action, World}
use django_boilderplate.Models.ApiKeys.{ApiKey}
use django_boilderplate.ApiKeys.RoundTrip.{authenticate-create, new_raw, new_key}
use django_boilderplate.Prelude.{
  ◌≡◌, ◌∷◌, ◌+◌, ◌&&◌, true, text_length, some, refl, none, if◌then◌else◌, has_char, false, before,
  after, [],
}
use django_boilderplate.Common.Idempotency.{
  serializable, Response, idempotent, HttpRequest, conflict_error,
}
use django_boilderplate.Models.Accounts.{open_ended}
use django_boilderplate.Tests.Sample.{sample, server, empty_db}

authenticate-create_example :
    let (r, w') = create sample 7 "ci" ("read" ∷ []) none none none (server empty_db) in
    let key = new_key sample 7 "ci" ("read" ∷ []) none none none (server empty_db) in
    let raw = new_raw sample 7 "ci" ("read" ∷ []) none none none (server empty_db) in
    let then_world = record w' { now = 60 } in
    (r ≡ ok (key, raw))
    × ((authenticate sample raw none then_world).0
        ≡ ok (
            if open_ended 60 none && owner_available sample then_world key then some key else none))
unfolding has_char
authenticate-create_example =
    authenticate-create sample 7 "ci" ("read" ∷ []) none none none (server empty_db) none 60 refl
      refl

abbrev stored_key : ApiKey
stored_key = record {
  pk = 1;
  owner = 7;
  name = "ci";
  prefix = "p";
  key_hash = key_hash sample "dk_p.s";
  scopes = [];
  last_used_at = none;
  last_used_ip = none;
  expires_at = none;
  revoked_at = none;
}

abbrev with_key : World
with_key = server (record empty_db { api_keys = stored_key ∷ [] })

authenticate-revoke_example :
    let (r, w') = revoke sample 1 none none with_key in
    (r ≡ ok tt) × ((authenticate sample "dk_p.s" none (record w' { now = 60 })).0 ≡ ok none)
unfolding prefix_of before after
authenticate-revoke_example =
    authenticate-revoke sample stored_key none none with_key "dk_p.s" none 60 refl refl

abbrev pub post_keys : HttpRequest
post_keys = record {
  user = some 7;
  method = "POST";
  path = "/keys";
  body = "{}";
  idempotency_key = "k";
}

-- a view that answers 201 and draws a number
abbrev view : Action Response
view w = (
  ok (record { status = 201; payload = serializable null; replayed = false }),
  record w { draws = w.draws + 1 },
)

abbrev other_view : Action Response
other_view w = (err conflict_error, w)

idempotent-repeat_example :
    let w' = record (idempotent sample view post_keys (server empty_db)).1 { now = 60 } in
    ((idempotent sample other_view post_keys w').0
      ≡ ok (record { status = 201; payload = serializable null; replayed = true }))
    × ((idempotent sample other_view post_keys w').1.db ≡ w'.db)
unfolding text_length idempotent
idempotent-repeat_example =
    idempotent-repeat sample view other_view post_keys 7 60
      (record { status = 201; payload = serializable null; replayed = false }) (server empty_db)
      (refl, refl, refl) (λ _. refl) refl refl
