-- ===== src/JobHeap/Destroy.antt =====
-- `destr_localjob` frees the cells of a job, each once, and no other.
use tp_sistemas_operativos_i.Prelude.{
  ℕ, zero, suc, ◌<◌, ◌≡◌, refl, ◌∙◌, [], ◌∷◌, Bool, false, ◌||◌, none, some, ◌==◌, if◌then◌else◌,
  length, arith,
}
use tp_sistemas_operativos_i.JobHeap.{
  JobCell, job_block, Heap, update, free, free_list, destr_localjob,
}
use tp_sistemas_operativos_i.JobHeap.Linked.{
  Nodes, head_address, is_in, Linked, Apart, Holds, Linked-update, job-is_in,
}

free_list-frees :
    (fuel : ℕ) (h : Heap) (xs : Nodes)
    → length xs < fuel
    → Linked h xs
    → (h' : Heap) × (free_list fuel (head_address xs) h ≡ some h')
      × ((q : ℕ) → h' q ≡ (if is_in q xs then none else h q))
unfolding free_list free
free_list-frees zero h xs f l = elim f [ ]
free_list-frees (suc fuel) h [] f l = (h, refl, λ q. refl)
free_list-frees (suc fuel) h ((p, r) ∷ xs) f l =
    let (h', done, rest) =
      free_list-frees fuel (update h p none) xs (omega arith) (Linked-update h p none xs l.2 l.3) in
    let here : (p == 0) ≡ false = ground arith in
    (h', rw (here, l.1) done, λ q. ground (arith, rest q))

-- The cells of a job and of its requests.
abbrev pub is_part : ℕ → ℕ → Nodes → Nodes → Bool
is_part q p xs ys = q == p || (is_in q xs || is_in q ys)

Linked-outside :
    (h h' : Heap) (xs ys : Nodes)
    → ((q : ℕ) → h' q ≡ (if is_in q xs then none else h q))
    → Apart ys xs
    → Linked h ys
    → Linked h' ys
Linked-outside h h' xs [] e a l = tt
Linked-outside h h' xs ((p, r) ∷ ys) e a l =
    (l.0, e p ∙ (rw (a.0, l.1) refl), l.2, Linked-outside h h' xs ys e a.1 l.3)

-- With more fuel than either list has requests, `destr_localjob` ends without a fault: it reads no cell
-- that it has freed and frees none twice. It frees the job and the requests of both lists, and leaves
-- every other cell as it was.
pub destr_localjob-frees :
    (fuel : ℕ) (h : Heap) (p : ℕ) (job : JobCell) (xs ys : Nodes)
    → length xs < fuel
    → length ys < fuel
    → Holds h p job xs ys
    → (h' : Heap) × (destr_localjob fuel p h ≡ some h')
      × ((q : ℕ) → h' q ≡ (if is_part q p xs ys then none else h q))
unfolding destr_localjob free
destr_localjob-frees fuel h p job xs ys fx fy v =
    let (h₁, first, e₁) = free_list-frees fuel h xs fx v.waiting_linked in
    let still : h₁ p ≡ some (job_block job) =
      e₁ p ∙ (rw (job-is_in h p job xs v.cell v.waiting_linked) v.cell) in
    let (h₂, second, e₂) =
      free_list-frees fuel h₁ ys fy (Linked-outside h h₁ xs ys e₁ v.apart v.granted_linked) in
    let last : h₂ p ≡ some (job_block job) =
      e₂ p ∙ (rw (job-is_in h p job ys v.cell v.granted_linked) still) in
    (
      update h₂ p none,
      rw (v.cell, v.waiting, first, still, v.granted, second, last) refl,
      λ q. ground (arith, e₁ q, e₂ q),
    )
