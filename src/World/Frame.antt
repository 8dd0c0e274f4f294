-- ===== src/World/Frame.antt =====
-- What an action leaves alone: a part of the database that it does not write.
use django_boilderplate.Prelude.{ℕ, ◌≡◌, refl, ◌∙◌, suc, Bool, true, false, Option, none, some}
use django_boilderplate.World.Monad.{
  World, Db, Action, Result, ok, err, Error, atomic, leave, continue, raise_if, when, or_raise,
  ◌>>=◌,
}
use django_boilderplate.World.Laws.{enter}

module _ {X : Type 0} (part : Db → X) where
  abbrev pub Keeps : {A : Type 0} → Action A → Type 0
  Keeps m = (w : World) → part (m w).1.db ≡ part w.db

  pub Keeps-raise_if : (c : Bool) (e : Error) → Keeps (raise_if c e)
  Keeps-raise_if true e w = refl
  Keeps-raise_if false e w = refl

  pub Keeps-when : (c : Bool) (m : Action (Unit {0})) → Keeps m → Keeps (when c m)
  Keeps-when true m h w = h w
  Keeps-when false m h w = refl

  module _ {A B : Type 0} (m : Action A) (f : A → Action B) where
    Keeps-continue :
        (r : Result A) (w : World)
        → ((a : A) → Keeps (f a))
        → part (continue r f w).1.db ≡ part w.db
    Keeps-continue (ok a) w h = h a w
    Keeps-continue (err e) w h = refl

    pub Keeps-bind : Keeps m → ((a : A) → Keeps (f a)) → Keeps (m >>= f)
    Keeps-bind quiet h w = Keeps-continue (m w).0 (m w).1 h ∙ quiet w

  module _ {A : Type 0} where
    pub Keeps-or_raise : (o : Option A) (e : Error) → Keeps (or_raise o e)
    Keeps-or_raise none e w = refl
    Keeps-or_raise (some a) e w = refl

    Keeps-leave :
        (w w' : World) (r : Result A)
        → part w'.db ≡ part w.db
        → part (leave w r w').1.db ≡ part w.db
    Keeps-leave w w' (ok a) h =
        elim w.depth as (λ d. part (leave (record w { depth = d }) (ok a) w').1.db ≡ part w.db) [
          | ℕ.zero ↦ h
          | suc d ↦ h
        ]
    Keeps-leave w w' (err e) h = refl

    pub Keeps-atomic : (m : Action A) → Keeps m → Keeps (atomic m)
    Keeps-atomic m h w = Keeps-leave w (m (enter w)).1 (m (enter w)).0 (h (enter w))

-- An action that writes no row.
abbrev pub Quiet : {A : Type 0} → Action A → Type 0
Quiet m = Keeps (λ db. db) m
