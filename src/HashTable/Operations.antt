-- ===== src/HashTable/Operations.antt =====
-- All operations of the table together: what they keep, and what a search finds after them.
use tp_sistemas_operativos_i.Prelude.{◌≡◌, Bool, none, some, ◌==◌, if◌then◌else◌}
use tp_sistemas_operativos_i.HashTable.Valid.{
  IsValid, create-IsValid, insert-IsValid, remove-IsValid,
}
use tp_sistemas_operativos_i.HashTable.Lookup.{find-insert, find-remove}
use tp_sistemas_operativos_i.HashTable.Sweep.{sweep, sweep-IsValid, unless_selected, find-sweep}
use tp_sistemas_operativos_i.HashTable.{
  Callbacks, IsKeyed, HashTable, tablahash_find, tablahash_create, tablahash_insert,
  tablahash_remove,
}

-- The table that `tablahash_create` gives is well formed, and inserting into a well-formed table,
-- removing from it and the deleting walk over it give well-formed tables.
pub operations-IsValid {ℓ} :
    {A : Type ℓ} (selected : A → Bool) (cb : Callbacks A) (t : HashTable A) (a : A)
    → IsKeyed cb
    → IsValid cb t
    → IsValid cb tablahash_create
      × IsValid cb (tablahash_insert cb t a).table
      × IsValid cb (tablahash_remove cb t a).table
      × IsValid cb (sweep selected t).table
operations-IsValid selected cb t a keyed v = (
  create-IsValid cb,
  insert-IsValid cb keyed t a v,
  remove-IsValid cb keyed t a v,
  sweep-IsValid selected cb t v,
)

-- In a well-formed table, whatever key is searched for: after an insertion the key of the datum is
-- bound to it, after a removal the key is not bound, after the deleting walk what the test selects is
-- gone; and every other key is as it was.
pub find-operations {ℓ} :
    {A : Type ℓ} (selected : A → Bool) (cb : Callbacks A) (t : HashTable A) (a q : A)
    → IsKeyed cb
    → IsValid cb t
    → (tablahash_find cb (tablahash_insert cb t a).table q
        ≡ (if cb.comp a q == 0 then some a else tablahash_find cb t q))
      × (tablahash_find cb (tablahash_remove cb t a).table q
          ≡ (if cb.comp a q == 0 then none else tablahash_find cb t q))
      × (tablahash_find cb (sweep selected t).table q
          ≡ unless_selected selected (tablahash_find cb t q))
find-operations selected cb t a q keyed v =
    (find-insert cb keyed t a q v, find-remove cb keyed t a q v, find-sweep selected cb t q v)
