-- ===== src/HashTable/Chain.antt =====
-- One chain: what the search, the overwriting and the unlinking of a node do to each other, to the
-- length and to the sum of a field.
use tp_sistemas_operativos_i.Prelude.{
  ℕ, ◌+◌, ◌≤◌, ◌≡◌, refl, ap, List, [], ◌∷◌, Option, none, some, arith, length, ◌==◌, Bool-cases,
  inl, inr, if◌then◌else◌,
}
use tp_sistemas_operativos_i.Prelude.Int.{ℤ, pos, pos_part, neg_part, ◌+ℤ◌, sum_ℤ, int_laws}
use tp_sistemas_operativos_i.HashTable.{Callbacks, IsKeyed, find_in_list, overwrite, unlink}

abbrev pub sum_option {ℓ} : {A : Type ℓ} → (A → ℤ) → Option A → ℤ
sum_option f none = pos 0
sum_option f (some x) = f x

abbrev pub size_option {ℓ} : {A : Type ℓ} → Option A → ℕ
size_option none = 0
size_option (some x) = 1

module _ {ℓ} {A : Type ℓ} (cb : Callbacks A) where
  -- The number of data of a chain under the key of `q`.
  unfoldable pub count : List A → A → ℕ
  count [] q = 0
  count (x ∷ xs) q = if cb.comp x q == 0 then count xs q + 1 else count xs q

  pub find_in_list-count : (xs : List A) (q : A) → count xs q ≡ 0 → find_in_list cb xs q ≡ none
  unfolding count find_in_list
  find_in_list-count [] q h = refl
  find_in_list-count (x ∷ xs) q h = ground (arith, find_in_list-count xs q)

  pub count-find_in_list : (xs : List A) (q : A) → find_in_list cb xs q ≡ none → count xs q ≡ 0
  unfolding count find_in_list
  count-find_in_list [] q h = refl
  count-find_in_list (x ∷ xs) q h = ground (arith, count-find_in_list xs q)

  -- What the search returns is under the key that was asked for.
  pub find_in_list-comp : (xs : List A) (q x : A) → find_in_list cb xs q ≡ some x → cb.comp x q ≡ 0
  unfolding find_in_list
  find_in_list-comp [] q x h = cc
  find_in_list-comp (y ∷ xs) q x h = ground (arith, find_in_list-comp xs q x)

  pub length-overwrite : (xs : List A) (a : A) → length (overwrite cb xs a) ≡ length xs
  unfolding overwrite
  length-overwrite [] a = refl
  length-overwrite (x ∷ xs) a = ground (arith, length-overwrite xs a)

  pub length-unlink :
      (xs : List A) (a : A)
      → length (unlink cb xs a) + size_option (find_in_list cb xs a) ≡ length xs
  unfolding unlink find_in_list
  length-unlink [] a = refl
  length-unlink (x ∷ xs) a = ground (arith, length-unlink xs a)

  pub sum_ℤ-overwrite :
      (f : A → ℤ) (xs : List A) (a old : A)
      → find_in_list cb xs a ≡ some old
      → sum_ℤ f (overwrite cb xs a) +ℤ f old ≡ sum_ℤ f xs +ℤ f a
  unfolding overwrite find_in_list sum_ℤ
  sum_ℤ-overwrite f [] a old h = cc
  sum_ℤ-overwrite f (x ∷ xs) a old h = elim (Bool-cases (cb.comp x a == 0)) [
    | inl hit ↦ rw hit (let e : x ≡ old = ground arith in rw e (omega int_laws))
    | inr miss ↦
        let ih = sum_ℤ-overwrite f xs a old (ground arith) in
        rw miss (omega (int_laws, ap pos_part ih, ap neg_part ih))
  ]

  pub sum_ℤ-unlink :
      (f : A → ℤ) (xs : List A) (a : A)
      → sum_ℤ f (unlink cb xs a) +ℤ sum_option f (find_in_list cb xs a) ≡ sum_ℤ f xs
  unfolding unlink find_in_list sum_ℤ
  sum_ℤ-unlink f [] a = omega int_laws
  sum_ℤ-unlink f (x ∷ xs) a = elim (Bool-cases (cb.comp x a == 0)) [
    | inl hit ↦ rw hit (omega int_laws)
    | inr miss ↦
        let ih = sum_ℤ-unlink f xs a in rw miss (omega (int_laws, ap pos_part ih, ap neg_part ih))
  ]

  module _ (keyed : IsKeyed cb) where
    pub same-left : (a b c : A) → cb.comp a b ≡ 0 → (cb.comp a c == 0) ≡ (cb.comp b c == 0)
    same-left a b c e =
        ground (arith, keyed.comp_symm a b, keyed.comp_trans a b c, keyed.comp_trans b a c)

    pub same-right : (a b c : A) → cb.comp a b ≡ 0 → (cb.comp c a == 0) ≡ (cb.comp c b == 0)
    same-right a b c e =
        ground (arith, keyed.comp_symm a b, keyed.comp_trans c a b, keyed.comp_trans c b a)

    pub find_in_list-overwrite :
        (xs : List A) (a old q : A)
        → find_in_list cb xs a ≡ some old
        → find_in_list cb (overwrite cb xs a) q
          ≡ (if cb.comp a q == 0 then some a else find_in_list cb xs q)
    unfolding overwrite find_in_list
    find_in_list-overwrite [] a old q h = cc
    find_in_list-overwrite (x ∷ xs) a old q h = ground (
      arith,
      find_in_list-overwrite xs a old q,
      same-left x a q,
      keyed.comp_symm a q,
      keyed.comp_trans x q a,
    )

    pub count-overwrite : (xs : List A) (a q : A) → count (overwrite cb xs a) q ≡ count xs q
    unfolding overwrite count
    count-overwrite [] a q = refl
    count-overwrite (x ∷ xs) a q = ground (arith, count-overwrite xs a q, same-left x a q)

    -- In a chain without duplicates, unlinking a key leaves the other keys as they were.
    pub find_in_list-unlink :
        (xs : List A) (a q : A)
        → count xs q ≤ 1
        → find_in_list cb (unlink cb xs a) q
          ≡ (if cb.comp a q == 0 then none else find_in_list cb xs q)
    unfolding unlink find_in_list count
    find_in_list-unlink [] a q h = ground arith
    find_in_list-unlink (x ∷ xs) a q h = ground (
      arith,
      find_in_list-unlink xs a q,
      find_in_list-count xs q,
      same-left x a q,
      same-right a q x,
    )

    pub count-unlink-le : (xs : List A) (a q : A) → count (unlink cb xs a) q ≤ count xs q
    unfolding unlink count
    count-unlink-le [] a q = omega arith
    count-unlink-le (x ∷ xs) a q = ground (arith, count-unlink-le xs a q)

    pub count-congr : (xs : List A) (a q : A) → cb.comp a q ≡ 0 → count xs a ≡ count xs q
    unfolding count
    count-congr [] a q e = refl
    count-congr (x ∷ xs) a q e = ground (arith, count-congr xs a q, same-right a q x)
