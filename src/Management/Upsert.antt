-- ===== src/Management/Upsert.antt =====
-- `update_or_create` on a list of rows: what it keeps, and that a second one changes nothing.
-- The rows of an entry: which they are, what is written into them, and the row that is made.
use django_boilderplate.Prelude.{
  updated, ◌||◌, update_where_unmatched, sym, first-update_where, first-none, first-exists,
  first-append_some, first-append_none, exists-append, ap₂, ◌≡◌, ◌∷◌, ◌∙◌, ◌++◌, ℕ, update_where,
  true, some, refl, none, inr, inl, if◌then◌else◌, first, false, exists-update_where, exists, ap,
  [], Option, List, Bool-cases, Bool,
}

pub record IsTable {A D : Type 0} (has : D → A → Bool) (write : D → A → A) (make : D → ℕ → A)
    (pk : A → ℕ) : Type 0 where
  pub keeps : (d e : D) (a : A) → has e (write d a) ≡ has e a
  pub keeps_pk : (d : D) (a : A) → pk (write d a) ≡ pk a
  pub again : (d : D) (a : A) → write d (write d a) ≡ write d a
  pub makes : (d : D) (n : ℕ) → has d (make d n) ≡ true
  pub made : (d : D) (n : ℕ) → write d (make d n) ≡ make d n
  pub made_pk : (d : D) (n : ℕ) → pk (make d n) ≡ n

abbrev pub pk_of_row : {A : Type 0} → (A → ℕ) → Option A → ℕ
pk_of_row pk none = 0
pk_of_row pk (some a) = pk a

module _ {A D : Type 0} (has : D → A → Bool) (write : D → A → A) (make : D → ℕ → A)
    (pk : A → ℕ) where
  abbrev pub upsert : D → ℕ → List A → List A
  upsert d n xs =
      if exists (has d) xs then update_where (has d) (write d) xs else xs ++ make d n ∷ []

  -- The rows of the entry are as it says, and there is one.
  abbrev pub IsSynced : D → List A → Type 0
  IsSynced d xs = (update_where (has d) (write d) xs ≡ xs) × (exists (has d) xs ≡ true)

  -- No row is of both entries.
  abbrev pub Apart : D → D → Type 0
  Apart d e = (a : A) → has d a ≡ true → has e a ≡ false

  -- the key that a query for the entry finds
  abbrev pub pk_at : D → List A → ℕ
  pk_at d xs = pk_of_row pk (first (has d) xs)

  module _ (table : IsTable has write make pk) where
    update-update :
        (d : D) (xs : List A)
        → update_where (has d) (write d) (update_where (has d) (write d) xs)
          ≡ update_where (has d) (write d) xs
    update-update d [] = refl
    update-update d (x ∷ xs) = elim (Bool-cases (has d x)) [
      | inl e ↦ simp (e, table.keeps d d x, table.again d x, update-update d xs)
      | inr e ↦ simp (e, update-update d xs)
    ]

    update-append :
        (d : D) (xs : List A) (a : A)
        → update_where (has d) (write d) (xs ++ a ∷ [])
          ≡ update_where (has d) (write d) xs ++ (if has d a then write d a else a) ∷ []
    update-append d [] a = refl
    update-append d (x ∷ xs) a =
        ap (λ ys. (if has d x then write d x else x) ∷ ys) (update-append d xs a)

    update_commute :
        (d e : D)
        → Apart d e
        → (xs : List A)
        → update_where (has e) (write e) (update_where (has d) (write d) xs)
          ≡ update_where (has d) (write d) (update_where (has e) (write e) xs)
    update_commute d e apart [] = refl
    update_commute d e apart (x ∷ xs) = elim (Bool-cases (has d x)) [
      | inl h ↦ simp (h, table.keeps d e x, apart x h, update_commute d e apart xs)
      | inr h ↦ elim (Bool-cases (has e x)) [
        | inl k ↦ simp (h, k, table.keeps e d x, update_commute d e apart xs)
        | inr k ↦ simp (h, k, update_commute d e apart xs)
      ]
    ]

    pk-updated :
        (d : D) (o : Option A) → pk_of_row pk (updated (has d) (write d) o) ≡ pk_of_row pk o
    pk-updated d none = refl
    pk-updated d (some a) = elim (Bool-cases (has d a)) [
      | inl e ↦ simp (e, table.keeps_pk d a)
      | inr e ↦ simp e
    ]

    first_made : (d : D) (n : ℕ) → first (has d) (make d n ∷ []) ≡ some (make d n)
    first_made d n = simp (table.makes d n)

    -- the key that the writing of an entry returns
    pub pk_at-upsert_self :
        (d : D) (n : ℕ) (xs : List A)
        → pk_at d (upsert d n xs) ≡ (if exists (has d) xs then pk_at d xs else n)
    pk_at-upsert_self d n xs = elim (Bool-cases (exists (has d) xs)) [
      | inl h ↦ simp h (
          ap (pk_of_row pk) (first-update_where (has d) (has d) (write d) xs (table.keeps d d))
          ∙ pk-updated d (first (has d) xs))
      | inr h ↦ simp h (
          ap (pk_of_row pk) (
            first-append_none (has d) xs (make d n ∷ []) (first-none (has d) xs h) ∙ first_made d n)
          ∙ table.made_pk d n)
    ]

    pub IsSynced-upsert : (d : D) (n : ℕ) (xs : List A) → IsSynced d (upsert d n xs)
    IsSynced-upsert d n xs = elim (Bool-cases (exists (has d) xs)) [
      | inl e ↦ simp e (
        update-update d xs,
        exists-update_where (has d) (has d) (write d) xs (table.keeps d d) ∙ e,
      )
      | inr e ↦ simp e (
        update-append d xs (make d n)
            ∙ ap₂ (λ ys y. ys ++ y ∷ []) (update_where_unmatched (has d) (write d) xs e)
                (simp (table.makes d n, table.made d n)),
        exists-append (has d) xs (make d n ∷ [])
            ∙ ap₂ (λ b c. b || (c || false)) e (table.makes d n),
      )
    ]

    pub IsSynced-upsert_other :
        (d e : D) (n : ℕ) (xs : List A) → Apart d e → IsSynced e xs → IsSynced e (upsert d n xs)
    IsSynced-upsert_other d e n xs apart synced = elim (Bool-cases (exists (has d) xs)) [
      | inl h ↦ simp h (
        update_commute d e apart xs ∙ ap (update_where (has d) (write d)) synced.0,
        exists-update_where (has e) (has d) (write d) xs (table.keeps d e) ∙ synced.1,
      )
      | inr h ↦ simp h (
        update-append e xs (make d n)
            ∙ ap₂ (λ ys y. ys ++ y ∷ []) synced.0 (simp (apart (make d n) (table.makes d n))),
        exists-append (has e) xs (make d n ∷ [])
            ∙ ap (λ b. b || (has e (make d n) || false)) synced.1,
      )
    ]

    -- A row that is found keeps its key, whatever entry is written.
    pub pk_at-upsert :
        (d e : D) (n : ℕ) (xs : List A)
        → exists (has e) xs ≡ true
        → (pk_at e (upsert d n xs) ≡ pk_at e xs) × (exists (has e) (upsert d n xs) ≡ true)
    pk_at-upsert d e n xs there = elim (Bool-cases (exists (has d) xs)) [
      | inl h ↦ simp h (
        ap (pk_of_row pk) (first-update_where (has e) (has d) (write d) xs (table.keeps d e))
            ∙ pk-updated d (first (has e) xs),
        exists-update_where (has e) (has d) (write d) xs (table.keeps d e) ∙ there,
      )
      | inr h ↦
          let (a, found) = first-exists (has e) xs there in
          simp h (
            ap (pk_of_row pk) (first-append_some (has e) xs (make d n ∷ []) a found ∙ sym found),
            exists-append (has e) xs (make d n ∷ [])
                ∙ ap (λ b. b || (has e (make d n) || false)) there,
          )
    ]

    -- A second writing of the entry changes nothing.
    pub upsert_synced : (d : D) (n : ℕ) (xs : List A) → IsSynced d xs → upsert d n xs ≡ xs
    upsert_synced d n xs synced = simp (synced.1, synced.0)
