-- ===== src/ApiKeys/Scopes.antt =====
-- `HasAPIKeyScope` of apps/api_keys/permissions.py.
use django_boilderplate.Models.ApiKeys.{ApiKey}
use django_boilderplate.Security.LoginProtection.{text_in}
use django_boilderplate.Prelude.{
  ◌∷◌, ◌&&◌, true, str_eq, some, none, if◌then◌else◌, false, [], String, Option, List, Bool,
}

-- What a view declares: nothing, one set of scopes, or one for each method.
pub data Declared : Type 0 where
  undeclared : Declared
  scopes : List String → Declared
  by_method : List (String × List String) → Declared

-- `by_method.get(method, ())`
unfoldable scopes_for : String → List (String × List String) → List String
scopes_for method [] = []
scopes_for method ((m, required) ∷ rest) =
    if str_eq m method then required else scopes_for method rest

-- `set(required).issubset(set(granted))`
unfoldable is_subset : List String → List String → Bool
is_subset [] granted = true
is_subset (s ∷ required) granted = text_in s granted && is_subset required granted

-- `has_permission`; `none` is a request without a key.
unfoldable has_scope : Option ApiKey → Declared → String → Bool
unfolding scopes_for is_subset
has_scope none _ method = true
has_scope (some key) undeclared method = false
has_scope (some key) (scopes required) method = is_subset required key.scopes
has_scope (some key) (by_method table) method = is_subset (scopes_for method table) key.scopes
