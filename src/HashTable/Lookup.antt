-- ===== src/HashTable/Lookup.antt =====
-- The table as a finite map: each operation against a lookup of every key.
use tp_sistemas_operativos_i.Prelude.{
  ℕ, ◌≡◌, refl, sym, ◌∙◌, List, [], ◌∷◌, Option, none, some, arith, get_or-replicate, ◌==◌,
  if◌then◌else◌, false, Bool-cases, Option-cases, inl, inr, ==_iff,
}
use tp_sistemas_operativos_i.HashTable.Chain.{
  find_in_list-count, count-find_in_list, find_in_list-comp, find_in_list-overwrite,
  find_in_list-unlink, count-congr, same-right,
}
use tp_sistemas_operativos_i.HashTable.{
  Callbacks, IsKeyed, HashTable, find_in_list, index, bucket, tablahash_create, tablahash_find,
  tablahash_insert, tablahash_remove, increment, decrement,
}
use tp_sistemas_operativos_i.HashTable.Valid.{IsValid, replaced, get_or-replaced, index-comp}

module _ {ℓ} {A : Type ℓ} (cb : Callbacks A) (keyed : IsKeyed cb) where
  -- A key that is absent is absent under every datum that compares equal.
  find-none :
      (t : HashTable A) (a q : A)
      → cb.comp a q ≡ 0
      → find_in_list cb (bucket cb t a) a ≡ none
      → tablahash_find cb t q ≡ none
  unfolding tablahash_find
  find-none t a q e h = rw (← index-comp cb keyed t a q e) (
      find_in_list-count cb (bucket cb t a) q (
        sym (count-congr cb keyed (bucket cb t a) a q e)
        ∙ count-find_in_list cb (bucket cb t a) a h))

  -- A lookup after replacing the chain of `a` by one that reads as `r` in the place of `a`.
  find-replaced :
      (t : HashTable A) (a q : A) (c : List A) (n : ℕ) (r : Option A)
      → IsValid cb t
      → find_in_list cb c q ≡ (if cb.comp a q == 0 then r else find_in_list cb (bucket cb t a) q)
      → tablahash_find cb (replaced cb t a c n) q
        ≡ (if cb.comp a q == 0 then r else tablahash_find cb t q)
  unfolding tablahash_find
  find-replaced t a q c n r v e =
      rw (get_or-replaced cb t a c n (index cb t q) v)
        (elim (Bool-cases (index cb t a == index cb t q)) [
          | inl s ↦ rw s (rw (← (==_iff (index cb t a) (index cb t q)).0 s) e)
          | inr o ↦
              let apart : (cb.comp a q == 0) ≡ false = ground (arith, index-comp cb keyed t a q) in
              rw (o, apart)
        ])

  pub find-create : (q : A) → tablahash_find cb tablahash_create q ≡ none
  unfolding tablahash_find tablahash_create find_in_list
  find-create q = rw get_or-replicate

  -- In a well-formed table, inserting binds the key of the datum, and leaves every other key as it was.
  pub find-insert :
      (t : HashTable A) (a q : A)
      → IsValid cb t
      → tablahash_find cb (tablahash_insert cb t a).table q
        ≡ (if cb.comp a q == 0 then some a else tablahash_find cb t q)
  unfolding tablahash_insert find_in_list
  find-insert t a q v = elim (Option-cases (find_in_list cb (bucket cb t a) a)) [
    | inr (old, e) ↦
        rw (e, tablahash_insert)
          (find-replaced t a q _ t.num_elems (some a) v
            (find_in_list-overwrite cb keyed (bucket cb t a) a old q e))
    | inl e ↦
        rw (e, tablahash_insert)
          (find-replaced t a q (a ∷ bucket cb t a) (increment t.num_elems) (some a) v refl)
  ]

  -- In a well-formed table, removing unbinds the key, and leaves every other key as it was.
  pub find-remove :
      (t : HashTable A) (a q : A)
      → IsValid cb t
      → tablahash_find cb (tablahash_remove cb t a).table q
        ≡ (if cb.comp a q == 0 then none else tablahash_find cb t q)
  unfolding tablahash_remove
  find-remove t a q v = elim (Option-cases (find_in_list cb (bucket cb t a) a)) [
    | inr (old, e) ↦
        rw (e, tablahash_remove)
          (find-replaced t a q _ (decrement t.num_elems) none v
            (find_in_list-unlink cb keyed (bucket cb t a) a q (v.unique q (index cb t a))))
    | inl e ↦
        rw (e, tablahash_remove)
          (elim (Bool-cases (cb.comp a q == 0)) [
            | inl same ↦ rw same (find-none t a q ((==_iff _ 0).0 same) e)
            | inr other ↦ rw other
          ])
  ]

  find_in_list-congr :
      (xs : List A) (a q : A) → cb.comp a q ≡ 0 → find_in_list cb xs a ≡ find_in_list cb xs q
  unfolding find_in_list
  find_in_list-congr [] a q e = refl
  find_in_list-congr (x ∷ xs) a q e = rw (same-right cb keyed a q x e, find_in_list-congr xs a q e)

  -- A search depends on the key alone.
  pub find-congr :
      (t : HashTable A) (a q : A) → cb.comp a q ≡ 0 → tablahash_find cb t a ≡ tablahash_find cb t q
  unfolding tablahash_find
  find-congr t a q e = rw (index-comp cb keyed t a q e) (find_in_list-congr (bucket cb t q) a q e)

module _ {ℓ} {A : Type ℓ} (cb : Callbacks A) where
  -- What a search finds is under the key that was asked for.
  pub find-comp : (t : HashTable A) (a x : A) → tablahash_find cb t a ≡ some x → cb.comp x a ≡ 0
  unfolding tablahash_find
  find-comp t a x e = find_in_list-comp cb (bucket cb t a) a x e
