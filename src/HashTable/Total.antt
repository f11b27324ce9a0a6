-- ===== src/HashTable/Total.antt =====
-- What insertion and removal do to the sum of a field over the table, and which data they destroy.
use tp_sistemas_operativos_i.Prelude.{
  ◌≡◌, ap, ◌∙◌, List, [], ◌∷◌, flatten, Option, none, some, Option-cases, inl, inr,
}
use tp_sistemas_operativos_i.Prelude.Int.{
  ℤ, pos_part, neg_part, ◌+ℤ◌, sum_ℤ, sum_ℤ-cons, sum_ℤ-nil, int_laws, pos,
}
use tp_sistemas_operativos_i.HashTable.Chain.{sum_option, sum_ℤ-overwrite, sum_ℤ-unlink}
use tp_sistemas_operativos_i.HashTable.Valid.{
  IsValid, index-lt, sum_ℤ-flatten-set, flatten-replicate,
}
use tp_sistemas_operativos_i.HashTable.{
  Callbacks, HashTable, find_in_list, overwrite, unlink, index, bucket, tablahash_find,
  tablahash_insert, tablahash_remove, tablahash_create, hash_size,
}

-- The data of a search's result, as a list.
abbrev pub to_list {ℓ} : {A : Type ℓ} → Option A → List A
to_list none = []
to_list (some x) = x ∷ []

-- The sum of a field over all data of the table.
abbrev pub total {ℓ} : {A : Type ℓ} → (A → ℤ) → HashTable A → ℤ
total f t = sum_ℤ f (flatten t.elems)

pub total-create {ℓ} : {A : Type ℓ} (f : A → ℤ) → total f tablahash_create ≡ pos 0
unfolding tablahash_create
total-create f = ap (sum_ℤ f) (flatten-replicate hash_size) ∙ sum_ℤ-nil f

module _ {ℓ} {A : Type ℓ} (cb : Callbacks A) where
  -- The sum of a well-formed table after an insertion, with what the key had before counted on the other side.
  pub total-insert :
      (f : A → ℤ) (t : HashTable A) (a : A)
      → IsValid cb t
      → total f (tablahash_insert cb t a).table +ℤ sum_option f (tablahash_find cb t a)
        ≡ total f t +ℤ f a
  unfolding tablahash_insert tablahash_find
  total-insert f t a v = elim (Option-cases (find_in_list cb (bucket cb t a) a)) [
    | inr (old, e) ↦
        let set' =
          sum_ℤ-flatten-set f t.elems (index cb t a) (overwrite cb (bucket cb t a) a)
            (index-lt cb t a v) in
        let new = sum_ℤ-overwrite cb f (bucket cb t a) a old e in
        rw (e, tablahash_insert)
          (omega (int_laws, ap pos_part set', ap neg_part set', ap pos_part new, ap neg_part new))
    | inl e ↦
        let set' =
          sum_ℤ-flatten-set f t.elems (index cb t a) (a ∷ bucket cb t a) (index-lt cb t a v) in
        let new = sum_ℤ-cons f a (bucket cb t a) in
        rw (e, tablahash_insert)
          (omega (int_laws, ap pos_part set', ap neg_part set', ap pos_part new, ap neg_part new))
  ]

  -- The sum of a table after a removal, with what the key had before counted on the other side.
  pub total-remove :
      (f : A → ℤ) (t : HashTable A) (a : A)
      → IsValid cb t
      → total f (tablahash_remove cb t a).table +ℤ sum_option f (tablahash_find cb t a) ≡ total f t
  unfolding tablahash_remove tablahash_find
  total-remove f t a v = elim (Option-cases (find_in_list cb (bucket cb t a) a)) [
    | inr (old, e) ↦
        let set' =
          sum_ℤ-flatten-set f t.elems (index cb t a) (unlink cb (bucket cb t a) a)
            (index-lt cb t a v) in
        let new = sum_ℤ-unlink cb f (bucket cb t a) a in
        let out = ap (sum_option f) e in
        rw (e, tablahash_remove)
          (omega (
            int_laws,
            ap pos_part set',
            ap neg_part set',
            ap pos_part new,
            ap neg_part new,
            ap pos_part out,
            ap neg_part out,
          ))
    | inl e ↦ rw (e, tablahash_remove) (omega int_laws)
  ]

  -- The callback `destr` gets exactly the datum that was stored under the key.
  pub destroyed-insert :
      (t : HashTable A) (a : A)
      → (tablahash_insert cb t a).destroyed ≡ to_list (tablahash_find cb t a)
  unfolding tablahash_insert tablahash_find
  destroyed-insert t a = elim (Option-cases (find_in_list cb (bucket cb t a) a)) [
    | inr (old, e) ↦ rw (e, tablahash_insert)
    | inl e ↦ rw (e, tablahash_insert)
  ]

  pub destroyed-remove :
      (t : HashTable A) (a : A)
      → (tablahash_remove cb t a).destroyed ≡ to_list (tablahash_find cb t a)
  unfolding tablahash_remove tablahash_find
  destroyed-remove t a = elim (Option-cases (find_in_list cb (bucket cb t a) a)) [
    | inr (old, e) ↦ rw (e, tablahash_remove)
    | inl e ↦ rw (e, tablahash_remove)
  ]
