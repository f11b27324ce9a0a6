-- ===== src/HashTable/Every.antt =====
-- A predicate of all data of a table, through insertion and sweeping.
use tp_sistemas_operativos_i.Prelude.{
  ℕ, zero, suc, ◌++◌, ◌≡◌, List, [], ◌∷◌, flatten, some, arith, get_or, ◌==◌, Bool, Bool-cases,
  Option-cases, inl, inr, All, All-append, get_or-replicate,
}
use tp_sistemas_operativos_i.Prelude.Int.{ℤ, pos, ◌≤ℤ◌, sum_ℤ, int_laws}
use tp_sistemas_operativos_i.HashTable.Valid.{IsValid, get_or-replaced, replaced}
use tp_sistemas_operativos_i.HashTable.Total.{total}
use tp_sistemas_operativos_i.HashTable.Sweep.{keep, reap, reap_all, sweep, get_or-keep_all}
use tp_sistemas_operativos_i.HashTable.{
  Callbacks, HashTable, find_in_list, overwrite, index, bucket, increment, tablahash_create,
  tablahash_find, tablahash_insert,
}

module _ {ℓ κ} {A : Type ℓ} (P : A → Type κ) where
  abbrev pub Every : HashTable A → Type κ
  Every t = (i : ℕ) → All P (get_or t.elems i [])

  pub flatten-All : (bs : List (List A)) → ((i : ℕ) → All P (get_or bs i [])) → All P (flatten bs)
  unfolding flatten
  flatten-All [] h = tt
  flatten-All (c ∷ cs) h = All-append P c (flatten cs) (h 0) (flatten-All cs (λ i. h (suc i)))

  prefix-All : (xs ys : List A) → All P (xs ++ ys) → All P xs × All P ys
  prefix-All [] ys h = (tt, h)
  prefix-All (x ∷ xs) ys h = let rest = prefix-All xs ys h.1 in ((h.0, rest.0), rest.1)

  -- What holds of the walk over all buckets holds in each.
  pub flatten-Every : (bs : List (List A)) → All P (flatten bs) → (i : ℕ) → All P (get_or bs i [])
  unfolding flatten
  flatten-Every [] h i = tt
  flatten-Every (c ∷ cs) h zero = (prefix-All c (flatten cs) h).0
  flatten-Every (c ∷ cs) h (suc i) = flatten-Every cs (prefix-All c (flatten cs) h).1 i

  pub sum_ℤ-nonneg :
      (f : A → ℤ) (xs : List A) → ((x : A) → P x → pos 0 ≤ℤ f x) → All P xs → pos 0 ≤ℤ sum_ℤ f xs
  unfolding sum_ℤ
  sum_ℤ-nonneg f [] h a = omega arith
  sum_ℤ-nonneg f (x ∷ xs) h a = omega (int_laws, h x a.0, sum_ℤ-nonneg f xs h a.1)

  pub total-nonneg :
      (f : A → ℤ) (t : HashTable A) → ((x : A) → P x → pos 0 ≤ℤ f x) → Every t → pos 0 ≤ℤ total f t
  total-nonneg f t h e = sum_ℤ-nonneg f (flatten t.elems) h (flatten-All t.elems e)

  pub create-Every : Every tablahash_create
  unfolding tablahash_create
  create-Every i = rw get_or-replicate tt

  module _ (cb : Callbacks A) where
    overwrite-All : (xs : List A) (a : A) → All P xs → P a → All P (overwrite cb xs a)
    unfolding overwrite
    overwrite-All [] a h p = tt
    overwrite-All (x ∷ xs) a h p = elim (Bool-cases (cb.comp x a == 0)) [
      | inl hit ↦ rw hit (p, h.1)
      | inr miss ↦ rw miss (h.0, overwrite-All xs a h.1 p)
    ]

    find_in_list-All : (xs : List A) (a x : A) → All P xs → find_in_list cb xs a ≡ some x → P x
    unfolding find_in_list
    find_in_list-All [] a x h e = cc
    find_in_list-All (y ∷ xs) a x h e = elim (Bool-cases (cb.comp y a == 0)) [
      | inl hit ↦ let same : y ≡ x = ground arith in rw (← same) h.0
      | inr miss ↦ find_in_list-All xs a x h.1 (rw miss at e)
    ]

    replaced-Every :
        (t : HashTable A) (a : A) (c : List A) (n : ℕ)
        → IsValid cb t
        → All P c
        → Every t
        → Every (replaced cb t a c n)
    replaced-Every t a c n v h e i = elim (Bool-cases (index cb t a == i)) [
      | inl here ↦ rw (get_or-replaced cb t a c n i v, here) h
      | inr other ↦ rw (get_or-replaced cb t a c n i v, other) (e i)
    ]

    pub insert-Every :
        (t : HashTable A) (a : A)
        → IsValid cb t
        → P a
        → Every t
        → Every (tablahash_insert cb t a).table
    unfolding tablahash_insert
    insert-Every t a v p e = elim (Option-cases (find_in_list cb (bucket cb t a) a)) [
      | inr (old, f) ↦
          rw (f, tablahash_insert)
            (replaced-Every t a (overwrite cb (bucket cb t a) a) t.num_elems v
              (overwrite-All (bucket cb t a) a (e (index cb t a)) p) e)
      | inl f ↦
          rw (f, tablahash_insert)
            (replaced-Every t a (a ∷ bucket cb t a) (increment t.num_elems) v (p, e (index cb t a))
              e)
    ]

    pub find-Every : (t : HashTable A) (a x : A) → Every t → tablahash_find cb t a ≡ some x → P x
    unfolding tablahash_find
    find-Every t a x e h = find_in_list-All (bucket cb t a) a x (e (index cb t a)) h

  module _ (selected : A → Bool) where
    keep-All : (xs : List A) → All P xs → All P (keep selected xs)
    unfolding keep
    keep-All [] h = tt
    keep-All (x ∷ xs) h = elim (Bool-cases (selected x)) [
      | inl out ↦ rw out (keep-All xs h.1)
      | inr stays ↦ rw stays (h.0, keep-All xs h.1)
    ]

    reap-All : (xs : List A) → All P xs → All P (reap selected xs)
    unfolding reap
    reap-All [] h = tt
    reap-All (x ∷ xs) h = elim (Bool-cases (selected x)) [
      | inl out ↦ rw out (h.0, reap-All xs h.1)
      | inr stays ↦ rw stays (reap-All xs h.1)
    ]

    reap_all-All :
        (bs : List (List A)) → ((i : ℕ) → All P (get_or bs i [])) → All P (reap_all selected bs)
    unfolding reap_all
    reap_all-All [] h = tt
    reap_all-All (c ∷ cs) h =
        All-append P (reap selected c) (reap_all selected cs) (reap-All c (h 0))
          (reap_all-All cs (λ i. h (suc i)))

    pub sweep-Every : (t : HashTable A) → Every t → Every (sweep selected t).table
    unfolding sweep
    sweep-Every t e i =
        rw (get_or-keep_all selected t.elems i) (keep-All (get_or t.elems i []) (e i))

    pub destroyed-All : (t : HashTable A) → Every t → All P (sweep selected t).destroyed
    unfolding sweep
    destroyed-All t e = reap_all-All t.elems e
