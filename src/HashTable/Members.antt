-- ===== src/HashTable/Members.antt =====
-- A walk over all data of a table, the loop of agent/timer.c over `elems`: each datum is the one that
-- the search of its key returns.
use tp_sistemas_operativos_i.Prelude.{
  ℕ, ◌%◌, ◌^◌, length, ◌≤◌, ◌≡◌, ◌∙◌, List, [], ◌∷◌, flatten, some, arith, get_or, ◌==◌, Bool-cases,
  inl, inr, ap, All, All-imp, All-both,
}
use tp_sistemas_operativos_i.HashTable.{
  Callbacks, IsKeyed, HashTable, find_in_list, index, tablahash_find, tablahash_destroy,
  tablahash_nelems,
}
use tp_sistemas_operativos_i.HashTable.Every.{flatten-All}
use tp_sistemas_operativos_i.HashTable.Chain.{count}
use tp_sistemas_operativos_i.HashTable.Valid.{IsValid}

module _ {ℓ} {A : Type ℓ} (cb : Callbacks A) (keyed : IsKeyed cb) where
  -- No key twice in a chain.
  abbrev Unique : List A → Type ℓ
  Unique xs = (q : A) → count cb xs q ≤ 1

  Unique-tail : (x : A) (xs : List A) → Unique (x ∷ xs) → Unique xs
  unfolding count
  Unique-tail x xs u q = let h = u q in ground (arith, h)

  -- A datum of a chain is counted under its own key.
  counted-All : (xs : List A) → All (λ (x : A). 1 ≤ count cb xs x) xs
  unfolding count
  counted-All [] = tt
  counted-All (x ∷ xs) = (
    (let h = keyed.comp_refl x in ground (arith, h)),
    All-imp (λ (y : A). 1 ≤ count cb xs y) (λ (y : A). 1 ≤ count cb (x ∷ xs) y) xs
        (λ y h. ground (arith, h)) (counted-All xs),
  )

  find_in_list-All : (xs : List A) → Unique xs → All (λ (x : A). find_in_list cb xs x ≡ some x) xs
  unfolding count find_in_list
  find_in_list-All [] u = tt
  find_in_list-All (x ∷ xs) u = (
    (let h = keyed.comp_refl x in ground (arith, h)),
    All-imp (λ (y : A). (find_in_list cb xs y ≡ some y) × (1 ≤ count cb xs y))
        (λ (y : A). find_in_list cb (x ∷ xs) y ≡ some y) xs
        (λ y h. let one = u y in ground (arith, h.0, h.1, one))
        (All-both (λ (y : A). find_in_list cb xs y ≡ some y) (λ (y : A). 1 ≤ count cb xs y) xs
          (find_in_list-All xs (Unique-tail x xs u)) (counted-All xs)),
  )

  at-home :
      (t : HashTable A) (i : ℕ) (x : A)
      → IsValid cb t
      → find_in_list cb (get_or t.elems i []) x ≡ some x
      → 1 ≤ count cb (get_or t.elems i []) x
      → tablahash_find cb t x ≡ some x
  unfolding tablahash_find
  at-home t i x v found counted = elim (Bool-cases (index cb t x == i)) [
    | inl here ↦
        let e : index cb t x ≡ i = ground arith in
        ap (λ (j : ℕ). find_in_list cb (get_or t.elems j []) x) e ∙ found
    | inr other ↦
        let h = v.home x i (λ e. ground (arith, e, other)) in absurd (omega (arith, h, counted))
  ]

  -- Each datum of a well-formed table is what the search of its key returns.
  pub found-All :
      (t : HashTable A)
      → IsValid cb t
      → All (λ (x : A). tablahash_find cb t x ≡ some x) (flatten t.elems)
  found-All t v =
      flatten-All (λ (x : A). tablahash_find cb t x ≡ some x) t.elems
        (λ i.
          All-imp
            (λ (y : A).
              (find_in_list cb (get_or t.elems i []) y ≡ some y)
              × (1 ≤ count cb (get_or t.elems i []) y))
            (λ (y : A). tablahash_find cb t y ≡ some y) (get_or t.elems i [])
            (λ y h. at-home t i y v h.0 h.1)
            (All-both (λ (y : A). find_in_list cb (get_or t.elems i []) y ≡ some y)
              (λ (y : A). 1 ≤ count cb (get_or t.elems i []) y) (get_or t.elems i [])
              (find_in_list-All (get_or t.elems i []) (λ q. v.unique q i))
              (counted-All (get_or t.elems i []))))

  -- `tablahash_destroy` on a well-formed table hands over data that a search of their keys returns, as
  -- many as `tablahash_nelems` counts in 32 bits.
  pub tablahash_destroy-found :
      (t : HashTable A)
      → IsValid cb t
      → All (λ (x : A). tablahash_find cb t x ≡ some x) (tablahash_destroy t)
        × (tablahash_nelems t ≡ length (tablahash_destroy t) % 2 ^ 32)
  unfolding tablahash_destroy tablahash_nelems
  tablahash_destroy-found t v = (found-All t v, v.counted)
