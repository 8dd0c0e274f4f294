-- ===== src/World/Laws.antt =====
-- Laws of `atomic`: a block that returns keeps its database, one that raises restores it.
use django_boilderplate.Prelude.{
  ◌≡◌, ◌≢◌, suc, refl, sym, ◌∙◌, arith, Bool, true, false, Option, none, some,
}
use django_boilderplate.World.Monad.{
  World, Action, Result, ok, err, Error, atomic, leave, continue, raise_if, when, or_raise, ◌>>=◌,
  ◌>>◌,
}

-- The state inside an `atomic` block that is entered in `w`.
abbrev pub enter : World → World
enter w = record w { depth = suc w.depth }

module _ {A : Type 0} where
  result-leave : (w w' : World) (a : A) → (leave w (ok a) w').0 ≡ ok a
  result-leave w w' a = ground arith

  db-leave : (w w' : World) (a : A) → (leave w (ok a) w').1.db ≡ w'.db
  db-leave w w' a = ground arith

  now-leave : (w w' : World) (r : Result A) → (leave w r w').1.now ≡ w'.now
  now-leave w w' (ok a) = ground arith
  now-leave w w' (err e) = refl

  leave_ok : (w w' : World) (r : Result A) (a : A) → (leave w r w').0 ≡ ok a → r ≡ ok a
  leave_ok w w' (ok b) a h = sym (result-leave w w' b) ∙ h
  leave_ok w w' (err e) a h = absurd (ground (arith, h))

  leave_err : (w w' : World) (r : Result A) (e : Error) → (leave w r w').0 ≡ err e → r ≡ err e
  leave_err w w' (ok a) e h = absurd (ground (arith, h, result-leave w w' a))
  leave_err w w' (err f) e h = h

  settings_cache-leave :
      (w w' : World) (r : Result A) → (leave w r w').1.settings_cache ≡ w'.settings_cache
  settings_cache-leave w w' (ok a) = ground arith
  settings_cache-leave w w' (err e) = refl

  module _ (m : Action A) (w : World) where
    pub settings_cache-atomic : (atomic m w).1.settings_cache ≡ (m (enter w)).1.settings_cache
    settings_cache-atomic = settings_cache-leave w (m (enter w)).1 (m (enter w)).0

  module _ (m : Action A) (w : World) where
    -- What a block answers, its body has answered.
    pub ok-atomic : (a : A) → (atomic m w).0 ≡ ok a → (m (enter w)).0 ≡ ok a
    ok-atomic a h = leave_ok w (m (enter w)).1 (m (enter w)).0 a h

    pub err-atomic : (e : Error) → (atomic m w).0 ≡ err e → (m (enter w)).0 ≡ err e
    err-atomic e h = leave_err w (m (enter w)).1 (m (enter w)).0 e h

    pub atomic-ok : (a : A) → (m (enter w)).0 ≡ ok a → (atomic m w).0 ≡ ok a
    atomic-ok a h = simp h (result-leave w (m (enter w)).1 a)

    pub db-atomic_ok : (a : A) → (m (enter w)).0 ≡ ok a → (atomic m w).1.db ≡ (m (enter w)).1.db
    db-atomic_ok a h = simp h (db-leave w (m (enter w)).1 a)

    pub now-atomic : (atomic m w).1.now ≡ (m (enter w)).1.now
    now-atomic = now-leave w (m (enter w)).1 (m (enter w)).0

    pub atomic-err : (e : Error) → (m (enter w)).0 ≡ err e → (atomic m w).0 ≡ err e
    atomic-err e h = simp h

    pub db-atomic_err : (e : Error) → (m (enter w)).0 ≡ err e → (atomic m w).1.db ≡ w.db
    db-atomic_err e h = simp h

-- What a sequence that returns has returned in its first part.
module _ {A B : Type 0} (f : A → Action B) (b : B) where
  continue-ok :
      (r : Result A) (w : World)
      → (continue r f w).0 ≡ ok b
      → (a : A) × (r ≡ ok a) × ((f a w).0 ≡ ok b)
  continue-ok (ok a) w h = (a, refl, h)
  continue-ok (err e) w h = absurd (ground (arith, h))

  pub bind-ok :
      (m : Action A) (w : World)
      → (continue (m w).0 f (m w).1).0 ≡ ok b
      → (a : A) × ((m w).0 ≡ ok a) × ((f a (m w).1).0 ≡ ok b)
  bind-ok m w h = continue-ok (m w).0 (m w).1 h

  -- What always raises in its second part returns nothing.
  pub bind-raises :
      (m : Action A)
      → ((a : A) (w : World) → (f a w).0 ≢ ok b)
      → (w : World) → (continue (m w).0 f (m w).1).0 ≢ ok b
  bind-raises m never w h = let (a, _, rest) = bind-ok m w h in never a (m w).1 rest

module _ {B : Type 0} (k : Action B) (w : World) (b : B) where
  pub raise_if_ok :
      (c : Bool) (e : Error) → ((raise_if c e >> k) w).0 ≡ ok b → (c ≡ false) × ((k w).0 ≡ ok b)
  raise_if_ok true e h = absurd (ground (arith, h))
  raise_if_ok false e h = (refl, h)

pub when_ok :
    (c : Bool) (k : Action (Unit {0})) (w : World) (a : Unit {0})
    → c ≡ true
    → (when c k w).0 ≡ ok a
    → (k w).0 ≡ ok a
when_ok true k w a e h = h
when_ok false k w a e h = cc

module _ {A B : Type 0} (f : A → Action B) (b : B) where
  pub or_raise_ok :
      (o : Option A) (e : Error) (w : World)
      → ((or_raise o e >>= f) w).0 ≡ ok b
      → (a : A) × (o ≡ some a) × ((f a w).0 ≡ ok b)
  or_raise_ok none e w h = absurd (ground (arith, h))
  or_raise_ok (some a) e w h = (a, refl, h)

abbrev pub value_or : {A : Type 0} → A → Result A → A
value_or a (ok b) = b
value_or a (err e) = a
