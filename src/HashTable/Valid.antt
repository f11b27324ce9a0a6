-- ===== src/HashTable/Valid.antt =====
-- The invariant of a table, and that creating, inserting and removing keep it.
use tp_sistemas_operativos_i.Prelude.{
  ℕ, zero, suc, ◌+◌, ◌%◌, ◌^◌, ◌<◌, ◌≤◌, ◌≡◌, ◌≢◌, refl, ap, ◌∙◌, List, [], ◌∷◌, flatten, arith,
  length, get_or, set, replicate, length-append, length-set, get_or-set_self, get_or-set_ne,
  get_or-replicate, length-replicate, ◌==◌, if◌then◌else◌, Bool-cases, Option-cases, inl, inr,
  ==_iff,
}
use tp_sistemas_operativos_i.Prelude.Int.{
  ℤ, pos_part, neg_part, ◌+ℤ◌, sum_ℤ, sum_ℤ-append, int_laws,
}
use tp_sistemas_operativos_i.HashTable.Chain.{
  count, size_option, count-find_in_list, length-overwrite, length-unlink, count-overwrite,
  count-unlink-le, count-congr,
}
use tp_sistemas_operativos_i.HashTable.{
  Callbacks, IsKeyed, HashTable, find_in_list, overwrite, unlink, index, bucket, hash_size,
  tablahash_create, tablahash_insert, tablahash_remove, increment, decrement,
}

module _ {ℓ} {A : Type ℓ} where
  -- One chain is replaced by another.
  pub length-flatten-set :
      (chains : List (List A)) (k : ℕ) (new : List A)
      → k < length chains
      → length new + length (flatten chains)
        ≡ length (get_or chains k []) + length (flatten (set chains k new))
  unfolding flatten
  length-flatten-set [] k new h = elim h [ ]
  length-flatten-set (old ∷ rest) zero new h =
      omega (arith, length-append {ℓ} old (flatten rest), length-append {ℓ} new (flatten rest))
  length-flatten-set (old ∷ rest) (suc k) new h = omega (
    arith,
    length-flatten-set rest k new (omega arith),
    length-append {ℓ} old (flatten rest),
    length-append {ℓ} old (flatten (set rest k new)),
  )

  pub sum_ℤ-flatten-set :
      (f : A → ℤ) (bs : List (List A)) (i : ℕ) (c : List A)
      → i < length bs
      → sum_ℤ f (flatten (set bs i c)) +ℤ sum_ℤ f (get_or bs i [])
        ≡ sum_ℤ f (flatten bs) +ℤ sum_ℤ f c
  unfolding flatten
  sum_ℤ-flatten-set f [] i c h = elim h [ ]
  sum_ℤ-flatten-set f (b ∷ bs) zero c h =
      rw (sum_ℤ-append f c (flatten bs), sum_ℤ-append f b (flatten bs)) (omega int_laws)
  sum_ℤ-flatten-set f (b ∷ bs) (suc i) c h =
      let ih = sum_ℤ-flatten-set f bs i c (omega arith) in
      rw (sum_ℤ-append f b (flatten (set bs i c)), sum_ℤ-append f b (flatten bs))
        (omega (int_laws, ap pos_part ih, ap neg_part ih))

  pub flatten-replicate : (n : ℕ) → flatten {A = A} (replicate n []) ≡ []
  unfolding flatten
  flatten-replicate zero = refl
  flatten-replicate (suc n) = flatten-replicate n

module _ {ℓ} {A : Type ℓ} (cb : Callbacks A) where
  -- As many buckets as the capacity says, a correct count of the data, every datum in the bucket of
  -- its hash, and no key twice.
  pub record IsValid (t : HashTable A) : Type ℓ where
    pub sized : length t.elems ≡ t.capacity
    pub roomy : 0 < t.capacity
    pub counted : t.num_elems ≡ length (flatten t.elems) % 2 ^ 32
    pub unique : (q : A) (i : ℕ) → count cb (get_or t.elems i []) q ≤ 1
    pub home : (q : A) (i : ℕ) → index cb t q ≢ i → count cb (get_or t.elems i []) q ≡ 0

  pub create-IsValid : IsValid tablahash_create
  unfolding tablahash_create count
  create-IsValid = record {
    sized = length-replicate {A = List A} hash_size [];
    roomy = omega arith;
    counted = rw flatten-replicate;
    unique = λ q i. rw get_or-replicate (omega arith);
    home = λ q i h. rw get_or-replicate;
  }

  pub index-lt : (t : HashTable A) (a : A) → IsValid t → index cb t a < length t.elems
  index-lt t a v = omega (arith, v.sized, v.roomy)

  -- The table with another chain in the bucket of `a`.
  abbrev pub replaced : HashTable A → A → List A → ℕ → HashTable A
  replaced t a c n = record t { elems = set t.elems (index cb t a) c; num_elems = n }

  pub get_or-replaced :
      (t : HashTable A) (a : A) (c : List A) (n i : ℕ)
      → IsValid t
      → get_or (replaced t a c n).elems i []
        ≡ (if index cb t a == i then c else get_or t.elems i [])
  get_or-replaced t a c n i v = elim (Bool-cases (index cb t a == i)) [
    | inl same ↦
        let e : index cb t a ≡ i = (==_iff _ i).0 same in
        rw (same, ← e) (get_or-set_self t.elems _ c [] (index-lt t a v))
    | inr other ↦ rw other (get_or-set_ne t.elems _ i c [] (ground arith))
  ]

  pub replaced-IsValid :
      (t : HashTable A) (a : A) (c : List A) (n : ℕ)
      → IsValid t
      → n ≡ length (flatten (replaced t a c n).elems) % 2 ^ 32
      → ((q : A) → count cb c q ≤ 1)
      → ((q : A) → index cb t q ≢ index cb t a → count cb c q ≡ 0)
      → IsValid (replaced t a c n)
  replaced-IsValid t a c n v size once placed = record {
    sized = length-set t.elems _ c ∙ v.sized;
    roomy = v.roomy;
    counted = size;
    unique = λ q i. rw (get_or-replaced t a c n i v) (ground (arith, once q, v.unique q i));
    home = λ q i h. rw (get_or-replaced t a c n i v) (ground (arith, placed q, v.home q i));
  }

  home-bucket :
      (t : HashTable A) (a q : A)
      → IsValid t
      → index cb t q ≢ index cb t a
      → count cb (bucket cb t a) q ≡ 0
  home-bucket t a q v h = v.home q (index cb t a) h

  module _ (keyed : IsKeyed cb) where
    pub index-comp : (t : HashTable A) (a q : A) → cb.comp a q ≡ 0 → index cb t a ≡ index cb t q
    index-comp t a q e = ap (λ (h : ℕ). h % t.capacity) (keyed.hash-comp a q e)

    -- Inserting into a well-formed table gives a well-formed table.
    pub insert-IsValid :
        (t : HashTable A) (a : A) → IsValid t → IsValid (tablahash_insert cb t a).table
    unfolding tablahash_insert count
    insert-IsValid t a v = elim (Option-cases (find_in_list cb (bucket cb t a) a)) [
      | inr (old, e) ↦
          rw (e, tablahash_insert)
            (replaced-IsValid t a (overwrite cb (bucket cb t a) a) t.num_elems v
              (omega (
                arith,
                length-flatten-set t.elems (index cb t a) (overwrite cb (bucket cb t a) a)
                    (index-lt t a v),
                length-overwrite cb (bucket cb t a) a,
                v.counted,
              ))
              (λ q. rw (count-overwrite cb keyed) (v.unique q (index cb t a)))
              (λ q h. rw (count-overwrite cb keyed) (home-bucket t a q v h)))
      | inl e ↦
          rw (e, tablahash_insert)
            (replaced-IsValid t a (a ∷ bucket cb t a) (increment t.num_elems) v
              (omega (
                arith,
                length-flatten-set t.elems (index cb t a) (a ∷ bucket cb t a) (index-lt t a v),
                v.counted,
              ))
              (λ q. ground (
                arith,
                count-congr cb keyed (bucket cb t a) a q,
                count-find_in_list cb (bucket cb t a) a e,
                v.unique q (index cb t a),
              ))
              (λ q h. ground (arith, home-bucket t a q v h, index-comp t a q)))
    ]

    -- Removing from a well-formed table gives a well-formed table.
    pub remove-IsValid :
        (t : HashTable A) (a : A) → IsValid t → IsValid (tablahash_remove cb t a).table
    unfolding tablahash_remove
    remove-IsValid t a v = elim (Option-cases (find_in_list cb (bucket cb t a) a)) [
      | inr (old, e) ↦
          rw (e, tablahash_remove)
            (replaced-IsValid t a (unlink cb (bucket cb t a) a) (decrement t.num_elems) v
              (omega (
                arith,
                length-flatten-set t.elems (index cb t a) (unlink cb (bucket cb t a) a)
                    (index-lt t a v),
                length-unlink cb (bucket cb t a) a,
                ap size_option e,
                v.counted,
              ))
              (λ q.
                ground
                  (arith, count-unlink-le cb keyed (bucket cb t a) a q, v.unique q (index cb t a)))
              (λ q h.
                ground
                  (arith, count-unlink-le cb keyed (bucket cb t a) a q, home-bucket t a q v h)))
      | inl e ↦ rw (e, tablahash_remove) v
    ]
