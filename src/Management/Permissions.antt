-- ===== src/Management/Permissions.antt =====
-- The first loop of the command: the permissions of the registry.
use django_boilderplate.Management.Upsert.{upsert_synced}
use django_boilderplate.Management.Undated.{
  undated, undated_permission, under, first-map, map_append, map-update_where,
}
use django_boilderplate.Management.Upsert.{
  pk_at-upsert, IsSynced-upsert_other, IsSynced-upsert, Apart,
}
use django_boilderplate.Management.{
  sync_permissions, set_permissions, describe_permission, has_codename, put_permission,
}
use django_boilderplate.World.{continue, ◌>>=◌, pure, ok, World, Action}
use django_boilderplate.Authorization.Registry.{Descriptions}
use django_boilderplate.Management.Upsert.{
  pk_of_row, pk_at-upsert_self, upsert, pk_at, IsSynced, IsTable,
}
use django_boilderplate.Models.Authorization.{Permission}
use django_boilderplate.Prelude.{
  arith, All-map, subst, eq_iff, ◌∙◌, ◌++◌, update_where, sym, is_some-first, is_some,
  if◌then◌else◌, exists, ap, ◌≡◌, ◌∷◌, ℕ, true, str_eq, refl, inr, inl, first, false, eq_refl, [],
  String, Option-cases, List, Bool, All,
}

abbrev Entry : Type 0
Entry = String × String

abbrev has_entry : Entry → Permission → Bool
has_entry d = has_codename d.0

abbrev write_entry : Entry → Permission → Permission
write_entry d = describe_permission d.1 0

abbrev make_entry : Entry → ℕ → Permission
make_entry d n = record {
  pk = n;
  codename = d.0;
  description = d.1;
  is_system = true;
  updated_at = 0;
}

abbrev key_of : Permission → ℕ
key_of p = p.pk

is_table : IsTable has_entry write_entry make_entry key_of
is_table = record {
  keeps = λ d e a. refl;
  keeps_pk = λ d a. refl;
  again = λ d a. refl;
  makes = λ d n. eq_refl d.0;
  made = λ d n. refl;
  made_pk = λ d n. refl;
}

abbrev put_entry : Entry → ℕ → List Permission → List Permission
put_entry = upsert has_entry write_entry make_entry key_of

abbrev pub EntrySynced : Entry → List Permission → Type 0
EntrySynced = IsSynced has_entry write_entry make_entry key_of

abbrev entry_pk : Entry → List Permission → ℕ
entry_pk = pk_at has_entry write_entry make_entry key_of

-- The entries name different permissions.
abbrev pub Distinct : Descriptions → Type 0
Distinct [] = Unit {0}
Distinct (d ∷ ds) = All (λ e. str_eq d.0 e.0 ≡ false) ds × Distinct ds

-- `permission_rows`, read from the rows
abbrev pub rows_at : Descriptions → List Permission → List (String × ℕ)
rows_at [] xs = []
rows_at (d ∷ ds) xs = (d.0, entry_pk d xs) ∷ rows_at ds xs

-- the step of the loop, and the state after it
abbrev step : Entry → Action ℕ
step d w = put_permission d.0 d.1 (first (has_codename d.0) w.db.permissions) w

step_lem :
    (d : Entry) (w : World)
    → ((step d w).0 ≡ ok (entry_pk d (put_entry d w.next_pk (undated w.db).permissions)))
      × (undated (step d w).1.db
          ≡ set_permissions (put_entry d w.next_pk (undated w.db).permissions) (undated w.db))
unfolding put_permission
step_lem d w =
    let xs = (undated w.db).permissions in
    let n = w.next_pk in
    let self = pk_at-upsert_self has_entry write_entry make_entry key_of is_table d n xs in
    let updated_ = update_where (has_entry d) (write_entry d) xs in
    let made_ = xs ++ make_entry d n ∷ [] in
    let seen : first (has_entry d) xs
        ≡ under undated_permission (first (has_entry d) w.db.permissions) =
      first-map undated_permission (has_entry d) (λ p. refl) w.db.permissions in
    elim (Option-cases (first (has_codename d.0) w.db.permissions)) [
      | inl missing ↦
          let none_there : exists (has_entry d) xs ≡ false =
            sym (is_some-first (has_entry d) xs)
            ∙ ap is_some (seen ∙ ap (under undated_permission) missing) in
          (
            ap (λ o. (put_permission d.0 d.1 o w).0) missing
                ∙ ap ok (sym (self ∙ ap (λ b. if b then entry_pk d xs else n) none_there)),
            ap (λ o. undated (put_permission d.0 d.1 o w).1.db) missing
                ∙ ap (λ ps. set_permissions ps (undated w.db))
                    (map_append undated_permission w.db.permissions _)
                ∙ ap (λ b. set_permissions (if b then updated_ else made_) (undated w.db))
                    (sym none_there),
          )
      | inr (p, found) ↦
          let there : exists (has_entry d) xs ≡ true =
            sym (is_some-first (has_entry d) xs)
            ∙ ap is_some (seen ∙ ap (under undated_permission) found) in
          (
            ap (λ o. (put_permission d.0 d.1 o w).0) found
                ∙ ap ok (
                    sym (
                      self
                      ∙ ap (λ b. if b then entry_pk d xs else n) there
                      ∙ ap (pk_of_row key_of) (seen ∙ ap (under undated_permission) found))),
            ap (λ o. undated (put_permission d.0 d.1 o w).1.db) found
                ∙ ap (λ ps. set_permissions ps (undated w.db))
                    (map-update_where undated_permission (has_entry d) (write_entry d)
                      (describe_permission d.1 w.now) (λ a. refl) (λ a. refl) w.db.permissions)
                ∙ ap (λ b. set_permissions (if b then updated_ else made_) (undated w.db))
                    (sym there),
          )
    ]

abbrev after_step : Entry → World → World
after_step d w = (step d w).1

abbrev pub synced : Descriptions → World → World
synced ds w = (sync_permissions ds w).1

sync_permissions-cons :
    (d : Entry) (ds : Descriptions) (w : World) (rows : List (String × ℕ))
    → (sync_permissions ds (after_step d w)).0 ≡ ok rows
    → sync_permissions (d ∷ ds) w ≡ (
      ok ((d.0, entry_pk d (put_entry d w.next_pk (undated w.db).permissions)) ∷ rows),
      synced ds (after_step d w),
    )
unfolding sync_permissions
sync_permissions-cons d ds w rows returned =
    let finish : ℕ → List (String × ℕ) → Action (List (String × ℕ)) =
      λ pk rows. pure ((d.0, pk) ∷ rows) in
    let rest : ℕ → Action (List (String × ℕ)) = λ pk. sync_permissions ds >>= finish pk in
    ap (λ r. continue r rest (after_step d w)) (step_lem d w).0
    ∙ ap
        (λ r.
          continue r (finish (entry_pk d (put_entry d w.next_pk (undated w.db).permissions)))
            (synced ds (after_step d w)))
        returned

sync_permissions-ok :
    (ds : Descriptions) (w : World)
    → (rows : List (String × ℕ)) × ((sync_permissions ds w).0 ≡ ok rows)
unfolding sync_permissions
sync_permissions-ok [] w = ([], refl)
sync_permissions-ok (d ∷ ds) w =
    let (rows, returned) = sync_permissions-ok ds (after_step d w) in
    (_, ap (λ r. r.0) (sync_permissions-cons d ds w rows returned))

synced-cons :
    (d : Entry) (ds : Descriptions) (w : World) → synced (d ∷ ds) w ≡ synced ds (after_step d w)
synced-cons d ds w =
    let (rows, returned) = sync_permissions-ok ds (after_step d w) in
    ap (λ r. r.1) (sync_permissions-cons d ds w rows returned)

-- A property of the rows that every step of the loop keeps holds after it.
module _ (P : List Permission → Type 0) where
  abbrev Kept : Entry → Type 0
  Kept d = (n : ℕ) (xs : List Permission) → P xs → P (put_entry d n xs)

  sync_permissions-keeps :
      (ds : Descriptions) (w : World)
      → All Kept ds
      → P (undated w.db).permissions
      → P (undated (synced ds w).db).permissions
  unfolding sync_permissions
  sync_permissions-keeps [] w kept holds = holds
  sync_permissions-keeps (d ∷ ds) w kept holds =
      let stepped = ap (λ db. db.permissions) (step_lem d w).1 in
      subst (λ v. P (undated v.db).permissions) (sym (synced-cons d ds w))
        (sync_permissions-keeps ds (after_step d w) kept.1
          (subst P (sym stepped) (kept.0 w.next_pk (undated w.db).permissions holds)))

-- The rows of an entry after the loop has gone on with others.
abbrev IsFound : Entry → ℕ → List Permission → Type 0
IsFound d k xs = (entry_pk d xs ≡ k) × (exists (has_entry d) xs ≡ true)

entry-Apart :
    (d e : Entry) → str_eq d.0 e.0 ≡ false → Apart has_entry write_entry make_entry key_of e d
entry-Apart d e different p mine =
    ground (arith, eq_iff p.codename e.0, eq_iff p.codename d.0, eq_iff d.0 e.0)

pub sync_permissions_lem :
    (ds : Descriptions) (w : World)
    → Distinct ds
    → ((sync_permissions ds w).0 ≡ ok (rows_at ds (undated (synced ds w).db).permissions))
      × All (λ d. EntrySynced d (undated (synced ds w).db).permissions) ds
      × (undated (synced ds w).db
          ≡ set_permissions (undated (synced ds w).db).permissions (undated w.db))
unfolding sync_permissions
sync_permissions_lem [] w distinct = (refl, tt, refl)
sync_permissions_lem (d ∷ ds) w distinct =
    let n = w.next_pk in
    let xs = (undated w.db).permissions in
    let w1 = after_step d w in
    let k = entry_pk d (put_entry d n xs) in
    let (returned, settled, rest_same) = sync_permissions_lem ds w1 distinct.1 in
    let v = synced ds w1 in
    let cons = sync_permissions-cons d ds w (rows_at ds (undated v.db).permissions) returned in
    let stepped = (step_lem d w).1 in
    let rows1 : (undated w1.db).permissions ≡ put_entry d n xs =
      ap (λ db. db.permissions) stepped in
    let own = IsSynced-upsert has_entry write_entry make_entry key_of is_table d n xs in
    let still : EntrySynced d (undated v.db).permissions =
      sync_permissions-keeps (EntrySynced d) ds w1
        (All-map
          (λ e different m ys.
            IsSynced-upsert_other has_entry write_entry make_entry key_of is_table e d m ys
              (entry-Apart d e different))
          ds distinct.0)
        (subst (EntrySynced d) (sym rows1) own) in
    let found : IsFound d k (undated v.db).permissions =
      sync_permissions-keeps (IsFound d k) ds w1
        (All-map
          (λ e different m ys f.
            let (same, there) =
              pk_at-upsert has_entry write_entry make_entry key_of is_table e d m ys f.1 in
            (same ∙ f.0, there))
          ds distinct.0)
        (subst (IsFound d k) (sym rows1) (refl, own.1)) in
    subst
      (λ u.
        ((sync_permissions (d ∷ ds) w).0 ≡ ok (rows_at (d ∷ ds) (undated u.db).permissions))
        × All (λ e. EntrySynced e (undated u.db).permissions) (d ∷ ds)
        × (undated u.db ≡ set_permissions (undated u.db).permissions (undated w.db)))
      (sym (ap (λ r. r.1) cons))
      (
        ap (λ r. r.0) cons
            ∙ ap (λ j. ok ((d.0, j) ∷ rows_at ds (undated v.db).permissions)) (sym found.0),
        (still, settled),
        rest_same ∙ ap (set_permissions (undated v.db).permissions) stepped,
      )

-- Where every entry is as the registry says, the loop changes no more than the time stamps.
pub sync_permissions_settled :
    (ds : Descriptions) (w : World)
    → All (λ d. EntrySynced d (undated w.db).permissions) ds
    → ((sync_permissions ds w).0 ≡ ok (rows_at ds (undated w.db).permissions))
      × (undated (synced ds w).db ≡ undated w.db)
unfolding sync_permissions
sync_permissions_settled [] w settled = (refl, refl)
sync_permissions_settled (d ∷ ds) w settled =
    let xs = (undated w.db).permissions in
    let w1 = after_step d w in
    let put : put_entry d w.next_pk xs ≡ xs =
      upsert_synced has_entry write_entry make_entry key_of is_table d w.next_pk xs settled.0 in
    let same : undated w1.db ≡ undated w.db =
      (step_lem d w).1 ∙ ap (λ ys. set_permissions ys (undated w.db)) put in
    let (returned, kept) =
      sync_permissions_settled ds w1
        (subst (λ db. All (λ e. EntrySynced e db.permissions) ds) (sym same) settled.1) in
    let cons = sync_permissions-cons d ds w (rows_at ds (undated w1.db).permissions) returned in
    (
      ap (λ r. r.0) cons
          ∙ ap (λ ys. ok ((d.0, entry_pk d ys) ∷ rows_at ds (undated w1.db).permissions)) put
          ∙ ap (λ db. ok ((d.0, entry_pk d xs) ∷ rows_at ds db.permissions)) same,
      ap (λ r. undated r.1.db) cons ∙ kept ∙ same,
    )
