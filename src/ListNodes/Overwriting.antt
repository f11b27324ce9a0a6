-- ===== src/ListNodes/Overwriting.antt =====
-- The search in a chain of nodes, and the overwriting of the datum that it finds.
use tp_sistemas_operativos_i.Prelude.{
  ℕ, zero, suc, ◌<◌, ◌≡◌, refl, ap, sym, ◌∙◌, List, [], ◌∷◌, length, false, Bool-cases, inl, inr,
  Option, none, some, ◌==◌, if◌then◌else◌, arith,
}
use tp_sistemas_operativos_i.HashTable.{Callbacks, find_in_list, overwrite}
use tp_sistemas_operativos_i.ListNodes.{
  Block, node_block, data_block, Heap, update, find_node, overwrite_node,
}
use tp_sistemas_operativos_i.ListNodes.Chained.{
  head_of, contents, uses, Chained, Chained-update, uses-free, Exchanges,
}

positive : (n : ℕ) → 0 < n → (n == 0) ≡ false
positive n z = ground arith

module _ {A : Type 0} (cb : Callbacks A) (key : A) where
  -- Where the search stops.
  pub spot : List (ℕ × ℕ × A) → ℕ
  spot [] = 0
  spot ((n, d, a) ∷ xs) = if cb.comp a key == 0 then n else spot xs

  pub find_node-spot :
      (fuel : ℕ) (h : Heap A) (xs : List (ℕ × ℕ × A))
      → length xs < fuel
      → Chained h xs
      → find_node cb fuel (head_of xs) key h ≡ some (spot xs)
  unfolding find_node spot
  find_node-spot zero h xs f c = elim f [ ]
  find_node-spot (suc fuel) h [] f c = refl
  find_node-spot (suc fuel) h ((n, d, a) ∷ xs) f c =
      let here : (n == 0) ≡ false = ground arith in
      let rest = find_node-spot fuel h xs (omega arith) c.5 in
      elim (Bool-cases (cb.comp a key == 0)) [
        | inl hit ↦ rw (here, c.1, c.2, hit) refl
        | inr miss ↦ rw (here, c.1, c.2, miss) rest
      ]

  pub spot-none : (xs : List (ℕ × ℕ × A)) → find_in_list cb (contents xs) key ≡ none → spot xs ≡ 0
  unfolding find_in_list spot
  spot-none [] e = refl
  spot-none ((n, d, a) ∷ xs) e = ground (arith, spot-none xs)

  pub spot-some :
      (h : Heap A) (xs : List (ℕ × ℕ × A)) (old : A)
      → Chained h xs
      → find_in_list cb (contents xs) key ≡ some old
      → (spot xs == 0) ≡ false
  unfolding find_in_list spot
  spot-some h [] old c e = cc
  spot-some h ((n, d, a) ∷ xs) old c e = elim (Bool-cases (cb.comp a key == 0)) [
    | inl hit ↦ rw hit (positive n c.0)
    | inr miss ↦ rw miss (spot-some h xs old c.5 (sym (rw miss refl) ∙ e))
  ]

  module _ (fresh : ℕ) where
    -- The chain after the overwriting, with the copy at `fresh`.
    pub rewritten : List (ℕ × ℕ × A) → List (ℕ × ℕ × A)
    rewritten [] = []
    rewritten ((n, d, a) ∷ xs) =
        if cb.comp a key == 0 then (n, fresh, key) ∷ xs else (n, d, a) ∷ rewritten xs

    pub rewritten-contents :
        (xs : List (ℕ × ℕ × A)) → contents (rewritten xs) ≡ overwrite cb (contents xs) key
    unfolding rewritten overwrite
    rewritten-contents [] = refl
    rewritten-contents ((n, d, a) ∷ xs) = elim (Bool-cases (cb.comp a key == 0)) [
      | inl hit ↦ rw hit refl
      | inr miss ↦ rw miss (ap (◌∷◌ a) (rewritten-contents xs))
    ]

    pub rewritten-head_of : (xs : List (ℕ × ℕ × A)) → head_of (rewritten xs) ≡ head_of xs
    unfolding rewritten
    rewritten-head_of [] = refl
    rewritten-head_of ((n, d, a) ∷ xs) = elim (Bool-cases (cb.comp a key == 0)) [
      | inl hit ↦ rw hit refl
      | inr miss ↦ rw miss refl
    ]

    rewritten-uses :
        (q : ℕ) (xs : List (ℕ × ℕ × A))
        → (q == fresh) ≡ false
        → uses q xs ≡ false
        → uses q (rewritten xs) ≡ false
    unfolding rewritten
    rewritten-uses q [] d e = refl
    rewritten-uses q ((n, s, a) ∷ xs) d e =
        let rest = rewritten-uses q xs d (ground (arith, e)) in
        elim (Bool-cases (cb.comp a key == 0)) [
          | inl hit ↦ rw hit (ground (arith, e, d))
          | inr miss ↦ rw miss (ground (arith, e, rest))
        ]

module _ {A : Type 0} (cb : Callbacks A) (key : A) (fresh : ℕ) where
  pub overwrite_node-Exchanges :
      (h : Heap A) (xs : List (ℕ × ℕ × A)) (old : A)
      → Chained h xs
      → find_in_list cb (contents xs) key ≡ some old
      → h fresh ≡ none
      → (h' : Heap A) × (overwrite_node (spot cb key xs) key fresh h ≡ some h')
        × Exchanges h xs (λ q. q == fresh) h' (rewritten cb key fresh xs)
  unfolding find_in_list overwrite_node spot rewritten
  overwrite_node-Exchanges h [] old c e f = cc
  overwrite_node-Exchanges h ((n, d, a) ∷ xs) old c e f =
      let apart = uses-free h fresh ((n, d, a) ∷ xs) f c in
      let differs : (n == d) ≡ false = ground (arith, c.1, c.2) in
      elim (Bool-cases (cb.comp a key == 0)) [
        | inl hit ↦
            let b = some (node_block (record { data' = fresh; next = head_of xs })) in
            let copy : Option (Block A) = some (data_block key) in
            let h₁ = update h d none in
            let h₂ = update h₁ fresh copy in
            rw hit (
              update h₂ n b,
              rw (c.1, c.2) refl,
              record {
                chained = (
                  c.0,
                  ground arith,
                  ground (arith, apart),
                  c.3,
                  ground (arith, apart),
                  Chained-update h₂ n b xs c.3 (
                      Chained-update h₁ fresh copy xs (ground (arith, apart))
                        (Chained-update h d none xs c.4 c.5)),
                );
                others = λ q u g. ground (arith, u, g);
                unused = λ q u g. ground (arith, u, g);
              },
            )
        | inr miss ↦
            let there : find_in_list cb (contents xs) key ≡ some old = ground arith in
            let (h', done, k) = overwrite_node-Exchanges h xs old c.5 there f in
            rw miss (
              h',
              done,
              record {
                chained = (
                  c.0,
                  k.others n c.3 (ground (arith, apart))
                      ∙ c.1
                      ∙ (rw (rewritten-head_of cb key fresh xs) refl),
                  k.others d c.4 (ground (arith, apart)) ∙ c.2,
                  rewritten-uses cb key fresh n xs (ground (arith, apart)) c.3,
                  rewritten-uses cb key fresh d xs (ground (arith, apart)) c.4,
                  k.chained,
                );
                others = λ q u g. k.others q (ground (arith, u)) g;
                unused = λ q u g. k.unused q (ground (arith, u, g)) (ground (arith, g));
              },
            )
      ]
