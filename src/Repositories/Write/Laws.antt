-- ===== src/Repositories/Write/Laws.antt =====
-- No update is lost: of two that start from one version, only the first writes.
use ticket_genius.Prelude.{◌≤◌, ◌≡◌, refl, true, List, [], ◌∷◌, ◌++◌, arith}
use ticket_genius.Python.{ok, err, domain_error}
use ticket_genius.Domain.Exceptions.{optimistic_lock}
use ticket_genius.Repositories.Write.{Versioned, matches, rowcount, updated, update}

module _ (V : Versioned) where
  -- Once the rows of a version are written, none has that version and id any more.
  rowcount-updated :
      (a b : V.Object) (rows : List V.Row)
      → V.object_id b ≡ V.object_id a
      → V.object_version b ≡ V.object_version a
      → rowcount V b (updated V a rows) ≡ 0
  rowcount-updated a b [] same version = refl
  rowcount-updated a b (r ∷ rs) same version =
      ground (arith, rowcount-updated a b rs same version, V.id-values a r, V.version-values a r)

  updated_none :
      (o : V.Object) (rows : List V.Row) → rowcount V o rows ≡ 0 → updated V o rows ≡ rows
  updated_none o [] h = refl
  updated_none o (r ∷ rs) h = ground (arith, updated_none o rs)

  -- Of two objects with one id and one version, read before either was written, the second to be
  -- updated raises `OptimisticLockError`, and neither the table nor the object changes.
  pub update_conflict :
      (a b : V.Object) (rows : List V.Row)
      → V.object_id b ≡ V.object_id a
      → V.object_version b ≡ V.object_version a
      → let (first, rows', a') = update V a rows in
        update V b rows' ≡ (err (domain_error (optimistic_lock V.entity (V.object_id b))), rows', b)
  unfolding update
  update_conflict a b rows same version =
      ground (arith, rowcount-updated a b rows same version, updated_none b (updated V a rows))

  updated_around :
      (o : V.Object) (before after : List V.Row) (r : V.Row)
      → matches V o r ≡ true
      → rowcount V o before ≡ 0
      → rowcount V o after ≡ 0
      → updated V o (before ++ r ∷ after) ≡ before ++ V.values o r ∷ after
  updated_around o [] after r mine none_before none_after = ground (arith, updated_none o after)
  updated_around o (b ∷ before) after r mine none_before none_after =
      ground (arith, updated_around o before after r mine)

  rowcount_around :
      (o : V.Object) (before after : List V.Row) (r : V.Row)
      → matches V o r ≡ true
      → 1 ≤ rowcount V o (before ++ r ∷ after)
  rowcount_around o [] after r mine = ground arith
  rowcount_around o (b ∷ before) after r mine =
      ground (arith, rowcount_around o before after r mine)

  -- An update writes the row of the object's id and version, and no other.
  pub update_writes :
      (o : V.Object) (before after : List V.Row) (r : V.Row)
      → matches V o r ≡ true
      → rowcount V o before ≡ 0
      → rowcount V o after ≡ 0
      → update V o (before ++ r ∷ after) ≡ (ok tt, before ++ V.values o r ∷ after, V.bump o)
  unfolding update
  update_writes o before after r mine none_before none_after = ground (
    arith,
    updated_around o before after r mine none_before none_after,
    rowcount_around o before after r mine,
  )
