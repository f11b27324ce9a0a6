-- ===== src/ListNodes/Chained.antt =====
-- When cells of the heap hold a chain.
use tp_sistemas_operativos_i.Prelude.{
  ℕ, ◌<◌, ◌≡◌, refl, List, [], ◌∷◌, Bool, true, false, Option, none, some, ◌==◌, ◌||◌, arith,
}
use tp_sistemas_operativos_i.ListNodes.{Block, node_block, data_block, Heap, update}

module _ {A : Type 0} where
  -- The nodes of a chain: the address of the node, that of its datum, and the datum.
  abbrev pub head_of : List (ℕ × ℕ × A) → ℕ
  head_of [] = 0
  head_of ((n, d, a) ∷ xs) = n

  abbrev pub contents : List (ℕ × ℕ × A) → List A
  contents [] = []
  contents ((n, d, a) ∷ xs) = a ∷ contents xs

  abbrev pub uses : ℕ → List (ℕ × ℕ × A) → Bool
  uses q [] = false
  uses q ((n, d, a) ∷ xs) = q == n || (q == d || uses q xs)

  -- Every node is in the heap with its datum, not at NULL, linked to the next one, and shares no memory
  -- with the others.
  abbrev pub Chained : Heap A → List (ℕ × ℕ × A) → Type 0
  Chained h [] = Unit {0}
  Chained h ((n, d, a) ∷ xs) =
      (0 < n)
      × (h n ≡ some (node_block (record { data' = d; next = head_of xs })))
      × (h d ≡ some (data_block a))
      × (uses n xs ≡ false)
      × (uses d xs ≡ false)
      × Chained h xs

  -- A write outside a chain.
  pub Chained-update :
      (h : Heap A) (p : ℕ) (b : Option (Block A)) (xs : List (ℕ × ℕ × A))
      → uses p xs ≡ false
      → Chained h xs
      → Chained (update h p b) xs
  Chained-update h p b [] e c = tt
  Chained-update h p b ((n, d, a) ∷ xs) e c = (
    c.0,
    ground (arith, e, c.1),
    ground (arith, e, c.2),
    c.3,
    c.4,
    Chained-update h p b xs (ground (arith, e)) c.5,
  )

  -- What a chain uses is not free.
  pub uses-free :
      (h : Heap A) (q : ℕ) (xs : List (ℕ × ℕ × A)) → h q ≡ none → Chained h xs → uses q xs ≡ false
  uses-free h q [] e c = refl
  uses-free h q ((n, d, a) ∷ xs) e c =
      let rest = uses-free h q xs e c.5 in ground (arith, rest, c.1, c.2)

-- From the chain `xs` to the chain `ys`: what is outside the chain and not allocated stays, and what the
-- chain does not use any more is freed.
pub record Exchanges {A : Type 0} (h : Heap A) (xs : List (ℕ × ℕ × A)) (is_new : ℕ → Bool)
    (h' : Heap A) (ys : List (ℕ × ℕ × A)) : Type 0 where
  pub chained : Chained h' ys
  pub others : (q : ℕ) → uses q xs ≡ false → is_new q ≡ false → h' q ≡ h q
  pub unused : (q : ℕ) → uses q xs ≡ true → uses q ys ≡ false → h' q ≡ none
