-- ===== src/Api/Accounts/Own.antt =====
-- apps/api/views/accounts.py with the serializers of apps/api/serializers/accounts.py: the profile and
-- the preferences of a user.
use django_boilderplate.Security.LoginProtection.{text_in}
use django_boilderplate.Api.Responses.{checked}
use django_boilderplate.Authentication.Accounts.{preferences_of}
use django_boilderplate.Core.{or_kept}
use django_boilderplate.Env.{Env}
use django_boilderplate.Models.Accounts.{UserPreferences, UserProfile}
use django_boilderplate.World.{serializer_error, pure, raise_if, modify_db, ◌>>◌, ◌>>=◌, ok, Action}
use django_boilderplate.Prelude.{
  ◌∷◌, ◌||◌, ◌==◌, ◌++◌, ℕ, update_where, some, not, none, first, [], String, Option, Bool,
}
use django_boilderplate.Api.Accounts.{given_and}

pub record ProfileData : Type 0 where
  pub bio : Option String
  pub website : Option String
  pub location : Option String

pub record PreferencesData : Type 0 where
  pub language : Option String
  pub timezone : Option String
  pub email_notifications : Option Bool
  pub security_emails : Option Bool

-- `UserProfile.objects.get_or_create(user=user)`
unfoldable profile_of : ℕ → Action UserProfile
profile_of user w = elim (first (λ p. p.user == user) w.db.profiles) [
  | some p ↦ (ok p, w)
  | none ↦
      let p : UserProfile = record { user = user; bio = ""; website = ""; location = "" } in
      (ok p, record w { db = record w.db { profiles = w.db.profiles ++ p ∷ [] } })
]

abbrev change_profile : ProfileData → UserProfile → UserProfile
change_profile d p = record p {
  bio = or_kept d.bio p.bio;
  website = or_kept d.website p.website;
  location = or_kept d.location p.location;
}

abbrev change_preferences : PreferencesData → UserPreferences → UserPreferences
change_preferences d p = record p {
  language = or_kept d.language p.language;
  timezone = or_kept d.timezone p.timezone;
  email_notifications = or_kept d.email_notifications p.email_notifications;
  security_emails = or_kept d.security_emails p.security_emails;
}

-- `CurrentUserProfileView.update`, for the user of the request
unfoldable update_profile : ℕ → Option ProfileData → Action UserProfile
unfolding profile_of
update_profile user parsed = do
  profile ← profile_of user
  d ← checked parsed
  modify_db (λ db. record db {
    profiles = update_where (λ p. p.user == user) (λ _. change_profile d profile) db.profiles;
  })
  pure (change_profile d profile)

module _ (env : Env) (known_zone : String → Bool) where
  -- `UserPreferencesSerializer`; `known_zone` is whether `ZoneInfo` finds the name
  unfoldable validate_preferences : Option PreferencesData → Action PreferencesData
  validate_preferences parsed = do
    d ← checked parsed
    raise_if
        (given_and (λ l. not (text_in l env.settings.languages)) d.language
          || given_and (λ z. not (known_zone z)) d.timezone)
        serializer_error
    pure d

  -- `CurrentUserPreferencesView.update`
  unfoldable update_preferences : ℕ → Option PreferencesData → Action UserPreferences
  unfolding preferences_of validate_preferences
  update_preferences user parsed = do
    preferences ← preferences_of user
    d ← validate_preferences parsed
    modify_db (λ db. record db {
      preferences =
          update_where (λ p. p.user == user) (λ _. change_preferences d preferences) db.preferences;
    })
    pure (change_preferences d preferences)
