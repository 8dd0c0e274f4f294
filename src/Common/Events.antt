-- ===== src/Common/Events.antt =====
-- `EventBus` of common/events.py, over any state: the handlers of an event run one after the other,
-- and one that raises does not stop the next. A handler is known by its identity.
use django_boilderplate.Prelude.{
  ◌∷◌, ◌==◌, ◌++◌, ◌&&◌, ℕ, str_eq, if◌then◌else◌, exists, [], String, List, Bool,
}
pub mod Delivery

-- a handler: its identity, and what it does; `false` is a raised exception
pub record Handler (S E : Type 0) : Type 0 where
  pub identity : ℕ
  pub run : E → S → Bool × S

-- `_handlers`
abbrev Handlers : (S E : Type 0) → Type 0
Handlers S E = List (String × Handler S E)

module _ {S E : Type 0} where
  abbrev is_handler : String → ℕ → String × Handler S E → Bool
  is_handler name identity entry = str_eq entry.0 name && (entry.1.identity == identity)

  -- `cls._handlers.get(name, [])`
  unfoldable pub handlers_of : String → Handlers S E → List (Handler S E)
  handlers_of name [] = []
  handlers_of name (entry ∷ rest) =
      let others = handlers_of name rest in if str_eq entry.0 name then entry.1 ∷ others else others

  -- `subscribe`
  unfoldable pub subscribe : String → Handler S E → Handlers S E → Handlers S E
  subscribe name handler handlers =
      if exists (is_handler name handler.identity) handlers
      then handlers
      else handlers ++ (name, handler) ∷ []

  -- the loop of `publish`
  unfoldable pub run_each : List (Handler S E) → E → S → S
  run_each [] event s = s
  run_each (h ∷ hs) event s = run_each hs event (h.run event s).1

  -- `publish`, for an event with its name
  unfoldable pub publish : Handlers S E → String → E → S → S
  unfolding run_each handlers_of
  publish handlers name event s = run_each (handlers_of name handlers) event s
