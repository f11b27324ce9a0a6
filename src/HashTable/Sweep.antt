-- ===== src/HashTable/Sweep.antt =====
-- The walk `ListNode** pp` over all chains that unlinks and destroys what a test selects, as
-- agent/utils.c (release_client_by_fd) and agent/timer.c (check_nodes_timeouts) write it out.
use tp_sistemas_operativos_i.Prelude.{
  ℕ, ◌+◌, ◌%◌, ◌^◌, ◌≤◌, ◌≡◌, refl, ap, ◌∙◌, List, [], ◌∷◌, ◌++◌, flatten, Option, none, some, Bool,
  arith, length, length-append, get_or, if◌then◌else◌, Bool-cases, inl, inr, zero, suc,
}
use tp_sistemas_operativos_i.Prelude.Int.{
  ℤ, pos_part, neg_part, ◌+ℤ◌, sum_ℤ, sum_ℤ-append, int_laws,
}
use tp_sistemas_operativos_i.HashTable.Chain.{count, find_in_list-count}
use tp_sistemas_operativos_i.HashTable.Valid.{IsValid}
use tp_sistemas_operativos_i.HashTable.Total.{total}
use tp_sistemas_operativos_i.HashTable.{
  Callbacks, HashTable, Outcome, find_in_list, decrement, index, tablahash_find,
}

module _ {ℓ} {A : Type ℓ} (selected : A → Bool) where
  -- One chain: the nodes that stay, and the data of those that are destroyed, in the walk's order.
  unfoldable pub keep : List A → List A
  keep [] = []
  keep (x ∷ xs) = if selected x then keep xs else x ∷ keep xs

  unfoldable pub reap : List A → List A
  reap [] = []
  reap (x ∷ xs) = if selected x then x ∷ reap xs else reap xs

  unfoldable pub keep_all : List (List A) → List (List A)
  keep_all [] = []
  keep_all (c ∷ cs) = keep c ∷ keep_all cs

  unfoldable pub reap_all : List (List A) → List A
  reap_all [] = []
  reap_all (c ∷ cs) = reap c ++ reap_all cs

  -- `numElems--` once for each destroyed datum.
  unfoldable pub decrement_by : List A → ℕ → ℕ
  decrement_by [] n = n
  decrement_by (x ∷ xs) n = decrement_by xs (decrement n)

  unfoldable pub sweep : HashTable A → Outcome A
  unfolding keep_all reap_all decrement_by keep reap
  sweep t = record {
    table = record t {
      elems = keep_all t.elems;
      num_elems = decrement_by (reap_all t.elems) t.num_elems;
    };
    destroyed = reap_all t.elems;
  }

  pub length-keep_all : (bs : List (List A)) → length (keep_all bs) ≡ length bs
  unfolding keep_all
  length-keep_all [] = refl
  length-keep_all (c ∷ cs) = ap suc (length-keep_all cs)

  pub get_or-keep_all :
      (bs : List (List A)) (i : ℕ) → get_or (keep_all bs) i [] ≡ keep (get_or bs i [])
  unfolding keep_all keep
  get_or-keep_all [] i = refl
  get_or-keep_all (c ∷ cs) zero = refl
  get_or-keep_all (c ∷ cs) (suc i) = get_or-keep_all cs i

  length-keep : (xs : List A) → length (keep xs) + length (reap xs) ≡ length xs
  unfolding keep reap
  length-keep [] = refl
  length-keep (x ∷ xs) = ground (arith, length-keep xs)

  length-keep-reap :
      (bs : List (List A))
      → length (flatten (keep_all bs)) + length (reap_all bs) ≡ length (flatten bs)
  unfolding keep_all reap_all flatten
  length-keep-reap [] = refl
  length-keep-reap (c ∷ cs) = omega (
    arith,
    length-append {ℓ} (keep c) (flatten (keep_all cs)),
    length-append {ℓ} (reap c) (reap_all cs),
    length-append {ℓ} c (flatten cs),
    length-keep c,
    length-keep-reap cs,
  )

  sum_ℤ-keep : (f : A → ℤ) (xs : List A) → sum_ℤ f (keep xs) +ℤ sum_ℤ f (reap xs) ≡ sum_ℤ f xs
  unfolding keep reap sum_ℤ
  sum_ℤ-keep f [] = omega int_laws
  sum_ℤ-keep f (x ∷ xs) =
      let ih = sum_ℤ-keep f xs in
      elim (Bool-cases (selected x)) [
        | inl out ↦ rw out (omega (int_laws, ap pos_part ih, ap neg_part ih))
        | inr stays ↦ rw stays (omega (int_laws, ap pos_part ih, ap neg_part ih))
      ]

  sum_ℤ-keep-reap :
      (f : A → ℤ) (bs : List (List A))
      → sum_ℤ f (flatten (keep_all bs)) +ℤ sum_ℤ f (reap_all bs) ≡ sum_ℤ f (flatten bs)
  unfolding keep_all reap_all flatten sum_ℤ
  sum_ℤ-keep-reap f [] = omega int_laws
  sum_ℤ-keep-reap f (c ∷ cs) =
      let ih = sum_ℤ-keep-reap f cs in
      let one = sum_ℤ-keep f c in
      rw
        (
          sum_ℤ-append f (keep c) (flatten (keep_all cs)),
          sum_ℤ-append f (reap c) (reap_all cs),
          sum_ℤ-append f c (flatten cs),
        )
        (omega (int_laws, ap pos_part ih, ap neg_part ih, ap pos_part one, ap neg_part one))

  -- The sweep takes out of the table what it destroys, and no more.
  pub total-sweep :
      (f : A → ℤ) (t : HashTable A)
      → total f (sweep t).table +ℤ sum_ℤ f (sweep t).destroyed ≡ total f t
  unfolding sweep
  total-sweep f t = sum_ℤ-keep-reap f t.elems

  decrement_by-length :
      (xs : List A) (k n : ℕ) → n ≡ (k + length xs) % 2 ^ 32 → decrement_by xs n ≡ k % 2 ^ 32
  unfolding decrement_by
  decrement_by-length [] k n h = omega arith
  decrement_by-length (x ∷ xs) k n h = decrement_by-length xs k (decrement n) (omega arith)

  -- What a lookup finds after the walk, from what it found before.
  abbrev pub unless_selected : Option A → Option A
  unless_selected none = none
  unless_selected (some x) = if selected x then none else some x

  module _ (cb : Callbacks A) where
    count-keep-le : (xs : List A) (q : A) → count cb (keep xs) q ≤ count cb xs q
    unfolding keep count
    count-keep-le [] q = omega arith
    count-keep-le (x ∷ xs) q = ground (arith, count-keep-le xs q)

    pub sweep-IsValid : (t : HashTable A) → IsValid cb t → IsValid cb (sweep t).table
    unfolding sweep
    sweep-IsValid t v = record {
      sized = length-keep_all t.elems ∙ v.sized;
      roomy = v.roomy;
      counted =
          decrement_by-length (reap_all t.elems) (length (flatten (keep_all t.elems))) t.num_elems
            (rw (length-keep-reap t.elems) v.counted);
      unique = λ q i.
          rw (get_or-keep_all t.elems i)
            (omega (arith, count-keep-le (get_or t.elems i []) q, v.unique q i));
      home = λ q i h.
          rw (get_or-keep_all t.elems i)
            (omega (arith, count-keep-le (get_or t.elems i []) q, v.home q i h));
    }

    -- What a lookup finds in one chain after the walk, if no key occurs twice.
    find_in_list-keep :
        (xs : List A) (q : A)
        → count cb xs q ≤ 1
        → find_in_list cb (keep xs) q ≡ unless_selected (find_in_list cb xs q)
    unfolding keep find_in_list count
    find_in_list-keep [] q h = refl
    find_in_list-keep (x ∷ xs) q h = ground (
      arith,
      find_in_list-keep xs q,
      find_in_list-count cb xs q,
      find_in_list-count cb (keep xs) q,
      count-keep-le xs q,
    )

    -- A lookup after the sweep of a well-formed table: what the test selects is gone, and all else is
    -- found as before.
    pub find-sweep :
        (t : HashTable A) (q : A)
        → IsValid cb t
        → tablahash_find cb (sweep t).table q ≡ unless_selected (tablahash_find cb t q)
    unfolding tablahash_find sweep
    find-sweep t q v =
        let i = index cb t q in
        rw (get_or-keep_all t.elems i) (find_in_list-keep (get_or t.elems i []) q (v.unique q i))
