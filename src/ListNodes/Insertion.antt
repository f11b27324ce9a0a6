-- ===== src/ListNodes/Insertion.antt =====
-- `tablahash_insert` on the nodes of a chain does what HashTable does to the chain as a list.
use tp_sistemas_operativos_i.Prelude.{
  ℕ, ◌<◌, ◌≡◌, refl, sym, ◌∙◌, List, ◌∷◌, length, Bool, false, inl, inr, Option, none, some,
  Option-cases, ◌==◌, ◌||◌, arith,
}
use tp_sistemas_operativos_i.HashTable.{Callbacks, find_in_list, overwrite}
use tp_sistemas_operativos_i.ListNodes.{
  Block, node_block, data_block, HashBucket, update, push_node, insert_node,
}
use tp_sistemas_operativos_i.ListNodes.Chained.{
  head_of, contents, Chained, Chained-update, uses-free, Exchanges,
}
use tp_sistemas_operativos_i.ListNodes.Overwriting.{
  find_node-spot, spot-none, spot-some, rewritten, rewritten-contents, rewritten-head_of,
  overwrite_node-Exchanges,
}

-- The chain after an insertion: the copy at `fresh` replaces the datum under the same key, or it is in
-- a node of its own before the others.
abbrev pub with_new : {A : Type 0} → List A → A → List A → Option A → List A
with_new written key xs none = key ∷ xs
with_new written key xs (some old) = written

abbrev pub is_either : ℕ → ℕ → ℕ → Bool
is_either m n q = q == m || q == n

module _ {A : Type 0} (cb : Callbacks A) (fuel new_node fresh : ℕ) (key : A)
    (b : HashBucket A) where
  abbrev Inserted : List (ℕ × ℕ × A) → Type 0
  Inserted xs =
      (b' : HashBucket A) × (ys : List (ℕ × ℕ × A)) × (insert_node cb fuel key new_node fresh b
        ≡ some b')
      × (b'.list ≡ head_of ys)
      × (contents ys
          ≡ with_new (overwrite cb (contents xs) key) key (contents xs)
              (find_in_list cb (contents xs) key))
      × Exchanges b.memory xs (is_either new_node fresh) b'.memory ys

  insert_node-missing :
      (xs : List (ℕ × ℕ × A))
      → length xs < fuel
      → Chained b.memory xs
      → b.list ≡ head_of xs
      → 0 < new_node
      → b.memory new_node ≡ none
      → b.memory fresh ≡ none
      → (new_node == fresh) ≡ false
      → find_in_list cb (contents xs) key ≡ none
      → Inserted xs
  unfolding insert_node
  insert_node-missing xs f c head z e₁ e₂ differ missing =
      let out₁ = uses-free b.memory new_node xs e₁ c in
      let out₂ = uses-free b.memory fresh xs e₂ c in
      let node : Option (Block A) = some (node_block (record { data' = fresh; next = b.list })) in
      let copy : Option (Block A) = some (data_block key) in
      let search = find_node-spot cb key fuel b.memory xs f c in
      (
        push_node key new_node fresh b,
        (new_node, fresh, key) ∷ xs,
        rw (head, search, spot-none cb key xs missing) refl,
        refl,
        rw missing refl,
        record {
          chained = (
            z,
            rw⁻¹ head (ground (arith, differ)),
            ground arith,
            out₁,
            out₂,
            Chained-update (update b.memory new_node node) fresh copy xs out₂
                (Chained-update b.memory new_node node xs out₁ c),
          );
          others = λ q u g. ground (arith, g);
          unused = λ q u g. ground (arith, u, g);
        },
      )

  insert_node-found :
      (xs : List (ℕ × ℕ × A)) (old : A)
      → length xs < fuel
      → Chained b.memory xs
      → b.list ≡ head_of xs
      → b.memory fresh ≡ none
      → find_in_list cb (contents xs) key ≡ some old
      → Inserted xs
  unfolding insert_node
  insert_node-found xs old f c head e at =
      let (h', done, k) = overwrite_node-Exchanges cb key fresh b.memory xs old c at e in
      let search = find_node-spot cb key fuel b.memory xs f c in
      (
        record b { memory = h' },
        rewritten cb key fresh xs,
        rw (head, search, spot-some cb key b.memory xs old c at, done) refl,
        head ∙ sym (rewritten-head_of cb key fresh xs),
        rw at (rewritten-contents cb key fresh xs),
        record {
          chained = k.chained;
          others = λ q u g. k.others q u (ground (arith, g));
          unused = k.unused;
        },
      )

  -- With fuel above the length of the chain and two free addresses, `tablahash_insert` on the nodes of
  -- its bucket ends without a fault. It leaves a chain whose data are those that HashTable gives: the
  -- datum under the same key overwritten, or the new one before the others. What it overwrites is freed,
  -- and nothing outside the chain and the two addresses changes.
  pub insert_node-Exchanges :
      (xs : List (ℕ × ℕ × A))
      → length xs < fuel
      → Chained b.memory xs
      → b.list ≡ head_of xs
      → 0 < new_node
      → b.memory new_node ≡ none
      → b.memory fresh ≡ none
      → (new_node == fresh) ≡ false
      → (b' : HashBucket A) × (ys : List (ℕ × ℕ × A)) × (insert_node cb fuel key new_node fresh b
          ≡ some b')
        × (b'.list ≡ head_of ys)
        × (contents ys
            ≡ with_new
                (overwrite cb (contents xs) key)
                key
                (contents xs)
                (find_in_list cb (contents xs) key))
        × Exchanges b.memory xs (is_either new_node fresh) b'.memory ys
  insert_node-Exchanges xs f c head z e₁ e₂ differ =
      elim (Option-cases (find_in_list cb (contents xs) key)) [
        | inl missing ↦ insert_node-missing xs f c head z e₁ e₂ differ missing
        | inr there ↦ insert_node-found xs there.0 f c head e₂ there.1
      ]
