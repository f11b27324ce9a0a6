-- ===== src/ListNodes/Deletion.antt =====
-- `tablahash_remove` on the nodes of a chain does what HashTable does to the chain as a list.
use tp_sistemas_operativos_i.Prelude.{
  ℕ, zero, suc, ◌<◌, ◌≡◌, refl, ap, ◌∙◌, List, [], ◌∷◌, length, true, false, Bool-cases, inl, inr,
  Option, none, some, ◌==◌, if◌then◌else◌, arith,
}
use tp_sistemas_operativos_i.HashTable.{Callbacks, unlink}
use tp_sistemas_operativos_i.ResourceQueue.{◌>>=◌}
use tp_sistemas_operativos_i.ListNodes.{
  node_block, data_block, Heap, HashBucket, update, walk_to, cut_node, remove_node,
}
use tp_sistemas_operativos_i.ListNodes.Chained.{
  head_of, contents, uses, Chained, Chained-update, Exchanges,
}

module _ {A : Type 0} (cb : Callbacks A) (key : A) where
  -- The chain without the node at which the walk stops.
  pub unlinked : List (ℕ × ℕ × A) → List (ℕ × ℕ × A)
  unlinked [] = []
  unlinked ((n, d, a) ∷ xs) = if cb.comp a key == 0 then xs else (n, d, a) ∷ unlinked xs

  unlinked-contents : (xs : List (ℕ × ℕ × A)) → contents (unlinked xs) ≡ unlink cb (contents xs) key
  unfolding unlinked unlink
  unlinked-contents [] = refl
  unlinked-contents ((n, d, a) ∷ xs) = elim (Bool-cases (cb.comp a key == 0)) [
    | inl hit ↦ rw hit refl
    | inr miss ↦ rw miss (ap (◌∷◌ a) (unlinked-contents xs))
  ]

  unlinked-uses : (q : ℕ) (xs : List (ℕ × ℕ × A)) → uses q xs ≡ false → uses q (unlinked xs) ≡ false
  unfolding unlinked
  unlinked-uses q [] e = refl
  unlinked-uses q ((n, s, a) ∷ xs) e =
      let rest = unlinked-uses q xs (ground (arith, e)) in
      elim (Bool-cases (cb.comp a key == 0)) [
        | inl hit ↦ rw hit (ground (arith, e))
        | inr miss ↦ rw miss (ground (arith, e, rest))
      ]

  -- `tablahash_remove` from a node of the walk on.
  remaining : ℕ → ℕ → ℕ → HashBucket A → Option (HashBucket A)
  remaining fuel prev current b = walk_to cb fuel prev current key b.memory >>= λ w. cut_node w b

  -- The walk is at the node after `p`, which has its datum at `e`.
  remaining-Exchanges :
      (fuel l p e : ℕ) (h : Heap A) (xs : List (ℕ × ℕ × A))
      → length xs < fuel
      → 0 < p
      → h p ≡ some (node_block (record { data' = e; next = head_of xs }))
      → uses p xs ≡ false
      → Chained h xs
      → (h' : Heap A) × (remaining fuel p (head_of xs) (record { list = l; memory = h })
          ≡ some (record { list = l; memory = h' }))
        × (h' p ≡ some (node_block (record { data' = e; next = head_of (unlinked xs) })))
        × Exchanges h xs (λ q. q == p) h' (unlinked xs)
  unfolding unlinked remaining walk_to cut_node
  remaining-Exchanges zero l p e h xs f z at out c = elim f [ ]
  remaining-Exchanges (suc fuel) l p e h [] f z at out c =
      (h, refl, at, record { chained = tt; others = λ q u g. refl; unused = λ q u g. absurd (cc) })
  remaining-Exchanges (suc fuel) l p e h ((n, d, a) ∷ xs) f z at out c =
      let here : (n == 0) ≡ false = ground arith in
      let there : (p == 0) ≡ false = ground arith in
      let differs : (n == d) ≡ false = ground (arith, c.1, c.2) in
      elim (Bool-cases (cb.comp a key == 0)) [
        | inl hit ↦
            let link = some (node_block (record { data' = e; next = head_of xs })) in
            let h₁ = update h p link in
            let h₂ = update h₁ d none in
            let d₁ : h₁ d ≡ some (data_block a) = ground (arith, out, c.2) in
            let n₁ : h₁ n ≡ some (node_block (record { data' = d; next = head_of xs })) =
              ground (arith, out, c.1) in
            let n₂ : h₂ n ≡ some (node_block (record { data' = d; next = head_of xs })) =
              ground (arith, differs, n₁) in
            rw hit (
              update h₂ n none,
              rw (here, c.1, c.2, hit, here, c.1, there, at, n₁, d₁, n₂) refl,
              ground (arith, out),
              record {
                chained = Chained-update h₂ n none xs c.3 (
                    Chained-update h₁ d none xs c.4
                      (Chained-update h p link xs (ground (arith, out)) c.5));
                others = λ q u g. ground (arith, u, g);
                unused = λ q u g. ground (arith, u, g);
              },
            )
        | inr miss ↦
            let (h', done, at', k) =
              remaining-Exchanges fuel l n d h xs (omega arith) (ground arith) c.1 c.3 c.5 in
            rw miss (
              h',
              rw (here, c.1, c.2, miss) done,
              k.others p (ground (arith, out)) (ground (arith, out)) ∙ at,
              record {
                chained = (
                  c.0,
                  at',
                  k.others d c.4 (ground (arith, differs)) ∙ c.2,
                  unlinked-uses n xs c.3,
                  unlinked-uses d xs c.4,
                  k.chained,
                );
                others = λ q u g. k.others q (ground (arith, u)) (ground (arith, u));
                unused = λ q u g. k.unused q (ground (arith, u, g)) (ground (arith, g));
              },
            )
      ]

  removed_first :
      (fuel : ℕ) (b : HashBucket A) (n d : ℕ) (a : A) (xs : List (ℕ × ℕ × A))
      → Chained b.memory ((n, d, a) ∷ xs)
      → b.list ≡ n
      → (cb.comp a key == 0) ≡ true
      → (b' : HashBucket A) × (remove_node cb (suc fuel) key b ≡ some b')
        × (b'.list ≡ head_of xs)
        × Exchanges b.memory ((n, d, a) ∷ xs) (λ q. false) b'.memory xs
  unfolding remove_node walk_to cut_node
  removed_first fuel b n d a xs c head hit =
      let here : (n == 0) ≡ false = ground arith in
      let differs : (n == d) ≡ false = ground (arith, c.1, c.2) in
      let h₁ = update b.memory d none in
      let n₁ : h₁ n ≡ some (node_block (record { data' = d; next = head_of xs })) =
        ground (arith, differs, c.1) in
      (
        record { list = head_of xs; memory = update h₁ n none },
        rw (head, here, c.1, c.2, hit, here, c.1, c.2, n₁) refl,
        refl,
        record {
          chained = Chained-update h₁ n none xs c.3 (Chained-update b.memory d none xs c.4 c.5);
          others = λ q u g. ground (arith, u);
          unused = λ q u g. ground (arith, u, g);
        },
      )

  removed_later :
      (fuel : ℕ) (h : Heap A) (n d : ℕ) (a : A) (xs : List (ℕ × ℕ × A))
      → length xs < fuel
      → Chained h ((n, d, a) ∷ xs)
      → (cb.comp a key == 0) ≡ false
      → (b' : HashBucket A) × (remove_node cb (suc fuel) key (record { list = n; memory = h })
          ≡ some b')
        × (b'.list ≡ n)
        × Exchanges h ((n, d, a) ∷ xs) (λ q. false) b'.memory ((n, d, a) ∷ unlinked xs)
  unfolding remove_node walk_to remaining
  removed_later fuel h n d a xs f c miss =
      let here : (n == 0) ≡ false = ground arith in
      let differs : (n == d) ≡ false = ground (arith, c.1, c.2) in
      let (h', done, at, k) = remaining-Exchanges fuel n n d h xs f c.0 c.1 c.3 c.5 in
      (
        record { list = n; memory = h' },
        rw (here, c.1, c.2, miss) done,
        refl,
        record {
          chained = (
            c.0,
            at,
            k.others d c.4 (ground (arith, differs)) ∙ c.2,
            unlinked-uses n xs c.3,
            unlinked-uses d xs c.4,
            k.chained,
          );
          others = λ q u g. k.others q (ground (arith, u)) (ground (arith, u));
          unused = λ q u g. k.unused q (ground (arith, u, g)) (ground (arith, g));
        },
      )

  -- With fuel above the length of the chain, `tablahash_remove` on the nodes of its bucket ends without a
  -- fault. It leaves the chain without the node that HashTable unlinks, in order; that node and its datum
  -- are freed, and nothing outside the chain changes. Where no datum is under the key, the chain stays.
  pub remove_node-Exchanges :
      (fuel : ℕ) (b : HashBucket A) (xs : List (ℕ × ℕ × A))
      → length xs < fuel
      → Chained b.memory xs
      → b.list ≡ head_of xs
      → (b' : HashBucket A) × (ys : List (ℕ × ℕ × A)) × (remove_node cb fuel key b ≡ some b')
        × (b'.list ≡ head_of ys)
        × (contents ys ≡ unlink cb (contents xs) key)
        × Exchanges b.memory xs (λ q. false) b'.memory ys
  unfolding remove_node unlink walk_to cut_node
  remove_node-Exchanges zero b xs f c head = elim f [ ]
  remove_node-Exchanges (suc fuel) b [] f c head = (
    b,
    [],
    rw head refl,
    head,
    refl,
    record { chained = tt; others = λ q u g. refl; unused = λ q u g. absurd (cc) },
  )
  remove_node-Exchanges (suc fuel) b ((n, d, a) ∷ xs) f c head =
      elim (Bool-cases (cb.comp a key == 0)) [
        | inl hit ↦
            let (b', done, first, k) = removed_first fuel b n d a xs c head hit in
            (b', xs, done, first, rw hit refl, k)
        | inr miss ↦
            let (b', done, first, k) = removed_later fuel b.memory n d a xs (omega arith) c miss in
            let same : remove_node cb (suc fuel) key b
                ≡ remove_node cb (suc fuel) key (record { list = n; memory = b.memory }) =
              ap (λ (l : ℕ). remove_node cb (suc fuel) key (record { list = l; memory = b.memory }))
                head in
            (
              b',
              (n, d, a) ∷ unlinked xs,
              same ∙ done,
              first,
              rw miss (ap (◌∷◌ a) (unlinked-contents xs)),
              k,
            )
      ]
