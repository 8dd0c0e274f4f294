-- ===== src/Config/Production/Guarantees.antt =====
-- What holds of a production server that starts.
use django_boilderplate.Config.Production.{started}
use django_boilderplate.Config.Production.{◌then◌}
use django_boilderplate.Security.LoginProtection.{text_in}
use django_boilderplate.Config.Production.{
  idle_backends, BaseSettings, check_production, production, refuse_if,
}
use django_boilderplate.World.{err, ok, Result}
use django_boilderplate.Prelude.{
  ℕ, sym, not, ap, ◌≤◌, ◌≡◌, ◌==◌, ◌&&◌, true, text_length, starts_with, refl, ltb, false, arith,
  Bool,
}

then_ok : {a b : Result (Unit {0})} → (a then b) ≡ ok tt → (a ≡ ok tt) × (b ≡ ok tt)
unfolding ◌then◌
then_ok {a = ok _} h = (refl, h)
then_ok {a = err e} h = absurd (ground (arith, h))

refuse_if_ok : (b : Bool) → refuse_if b ≡ ok tt → b ≡ false
refuse_if_ok true h = absurd (ground (arith, h))
refuse_if_ok false h = refl

abbrev shown_or : Bool → Result BaseSettings → Bool
shown_or b (ok s) = s.enable_openapi
shown_or b (err e) = b

started_ok :
    (s s' : BaseSettings) (r : Result (Unit {0}))
    → started s r ≡ ok s'
    → (r ≡ ok tt) × (s'.enable_openapi ≡ (s.enable_openapi && s.openapi_in_production))
started_ok s s' (ok _) h = (refl, sym (ap (shown_or false) h))
started_ok s s' (err e) h = absurd (ground (arith, h))

long : {n m : ℕ} → ltb n m ≡ false → m ≤ n
long h = ground (arith, h)

holds : {b : Bool} → not b ≡ false → b ≡ true
holds {b = true} h = refl
holds {b = false} h = cc

-- A production server starts only with a secret key of at least 50 and a key for the encryption of at
-- least 32 characters, with a pepper of at least 32 where API keys are enabled, with a
-- SITE_URL that begins with https://, with an e-mail backend that is none of the three named ones, and
-- with named proxies where their headers are trusted; it shows its interface description only where
-- that is enabled for production.
pub production_lem :
    (s s' : BaseSettings)
    → production s ≡ ok s'
    → (50 ≤ text_length s.secret_key)
      × (32 ≤ text_length s.totp_encryption_key)
      × ((s.enable_api_keys && ltb (text_length s.api_key_pepper) 32) ≡ false)
      × (starts_with "https://" s.site_url ≡ true)
      × (text_in s.email_backend idle_backends ≡ false)
      × ((s.trust_proxy_headers && (s.trusted_proxies == 0)) ≡ false)
      × (s'.enable_openapi ≡ (s.enable_openapi && s.openapi_in_production))
unfolding production check_production
production_lem s s' h =
    let (checked, shown) = started_ok s s' _ h in
    let (p1, _) = then_ok checked in
    let (p2, proxies) = then_ok p1 in
    let (p3, _) = then_ok p2 in
    let (p4, https) = then_ok p3 in
    let (p5, mail) = then_ok p4 in
    let (p6, pepper) = then_ok p5 in
    let (p7, encryption) = then_ok p6 in
    let (_, secret) = then_ok p7 in
    (
      long (refuse_if_ok _ secret),
      long (refuse_if_ok _ encryption),
      refuse_if_ok _ pepper,
      holds (refuse_if_ok _ https),
      refuse_if_ok _ mail,
      refuse_if_ok _ proxies,
      shown,
    )
