-- ===== src/Common/Events/Delivery.antt =====
-- Which handlers an event reaches.
use django_boilderplate.Prelude.{
  eq_iff, arith, ap, ◌≡◌, ◌∷◌, ◌∙◌, ◌++◌, true, str_eq, refl, inr, inl, false, exists-append,
  exists, [], String, List, Bool-cases, Bool,
}
use django_boilderplate.Common.Events.{
  Handler, Handlers, publish, subscribe, handlers_of, run_each, is_handler,
}

module _ {S E : Type 0} where
  append-nil : (hs : List (Handler S E)) → hs ++ [] ≡ hs
  append-nil [] = refl
  append-nil (h ∷ hs) = ap (λ t. h ∷ t) (append-nil hs)

  handlers_of-append :
      (name : String) (rows : Handlers S E) (entry : String × Handler S E)
      → handlers_of name (rows ++ entry ∷ [])
        ≡ handlers_of name rows ++ handlers_of name (entry ∷ [])
  unfolding handlers_of
  handlers_of-append name [] entry = refl
  handlers_of-append name (x ∷ rows) entry =
      let step = handlers_of-append name rows entry in
      elim (Bool-cases (str_eq x.0 name)) [ inl e ↦ simp (e, step) | inr e ↦ simp (e, step) ]

  run_each-append :
      (hs : List (Handler S E)) (h : Handler S E) (event : E) (s : S)
      → run_each (hs ++ h ∷ []) event s ≡ (h.run event (run_each hs event s)).1
  unfolding run_each
  run_each-append [] h event s = refl
  run_each-append (x ∷ hs) h event s = run_each-append hs h event (x.run event s).1

  exists_added :
      (p : String × Handler S E → Bool) (rows : Handlers S E) (entry : String × Handler S E)
      → p entry ≡ true
      → exists p (rows ++ entry ∷ []) ≡ true
  exists_added p rows entry e = exists-append p rows _ ∙ ground (arith, e)

  -- A handler that was not subscribed to a name is: a second subscription changes nothing; an event
  -- of the name does what it did before, and then runs the handler, whichever handlers raise; an
  -- event of another name does what it did before.
  pub publish-subscribe :
      (name other : String) (h : Handler S E) (rows : Handlers S E) (event : E) (s : S)
      → exists (is_handler name h.identity) rows ≡ false
      → str_eq name other ≡ false
      → let rows' = subscribe name h rows in
        (subscribe name h rows' ≡ rows')
        × (publish rows' name event s ≡ (h.run event (publish rows name event s)).1)
        × (publish rows' other event s ≡ publish rows other event s)
  unfolding subscribe publish handlers_of
  publish-subscribe name other h rows event s fresh apart =
      let named : str_eq name name ≡ true = (eq_iff name name).1 refl in
      let itself : is_handler name h.identity (name, h) ≡ true = ground (arith, named) in
      let there = exists_added (is_handler name h.identity) rows (name, h) itself in
      let one : handlers_of name ((name, h) ∷ []) ≡ h ∷ [] = simp named in
      let none_ : handlers_of other ((name, h) ∷ []) ≡ [] = simp apart in
      let added =
        handlers_of-append name rows (name, h) ∙ ap (λ hs. handlers_of name rows ++ hs) one in
      let kept =
        handlers_of-append other rows (name, h)
        ∙ ap (λ hs. handlers_of other rows ++ hs) none_
        ∙ append-nil (handlers_of other rows) in
      simp fresh (
        simp there,
        ap (λ hs. run_each hs event s) added ∙ run_each-append (handlers_of name rows) h event s,
        ap (λ hs. run_each hs event s) kept,
      )
