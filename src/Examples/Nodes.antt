-- ===== src/Examples/Nodes.antt =====
-- A bucket of the table of sockets on a heap, with two nodes.
use tp_sistemas_operativos_i.Prelude.{
  ◌≡◌, refl, ℕ, [], ◌∷◌, List, Bool, true, false, none, some, Option, arith,
}
use tp_sistemas_operativos_i.Prelude.Int.{pos}
use tp_sistemas_operativos_i.HashTable.{find_in_list, overwrite, unlink}
use tp_sistemas_operativos_i.Domain.{FdJobEntry, comp_fd, fd_callbacks}
use tp_sistemas_operativos_i.ListNodes.{
  HashBucket, Heap, node_block, data_block, update, insert_node, remove_node,
}
use tp_sistemas_operativos_i.ListNodes.Chained.{head_of, contents, Chained, Exchanges}
use tp_sistemas_operativos_i.ListNodes.Insertion.{with_new, is_either, insert_node-Exchanges}
use tp_sistemas_operativos_i.ListNodes.Deletion.{remove_node-Exchanges}

abbrev entry_of : ℕ → FdJobEntry
entry_of p = record { fd = pos 21; job = p }

abbrev first : FdJobEntry
first = record { fd = pos 277; job = 64 }

abbrev nodes : List (ℕ × ℕ × FdJobEntry)
nodes = (8, 12, first) ∷ (16, 20, entry_of 80) ∷ []

abbrev heap : Heap FdJobEntry
heap =
    update
      (update
        (update (update (λ q. none) 8 (some (node_block (record { data' = 12; next = 16 })))) 12
          (some (data_block first)))
        16 (some (node_block (record { data' = 20; next = 0 }))))
      20 (some (data_block (entry_of 80)))

abbrev chain : HashBucket FdJobEntry
chain = record { list = 8; memory = heap }

heap-Chained : Chained heap nodes
heap-Chained = (omega arith, refl, refl, refl, refl, (omega arith, refl, refl, refl, refl, tt))

-- Socket 21 gets another job.
insert_node-Exchanges_example :
    (b' : HashBucket FdJobEntry) × (ys : List (ℕ × ℕ × FdJobEntry)) × (insert_node fd_callbacks 3
        (entry_of 96)
        24
        28
        chain
      ≡ some b')
    × (b'.list ≡ head_of ys)
    × (contents ys
        ≡ with_new
            (overwrite fd_callbacks (contents nodes) (entry_of 96))
            (entry_of 96)
            (contents nodes)
            (find_in_list fd_callbacks (contents nodes) (entry_of 96)))
    × Exchanges heap nodes (is_either 24 28) b'.memory ys
insert_node-Exchanges_example =
    insert_node-Exchanges fd_callbacks 3 24 28 (entry_of 96) chain nodes (omega arith) heap-Chained
      refl (omega arith) refl refl refl

remove_node-Exchanges_example :
    (b' : HashBucket FdJobEntry) × (ys : List (ℕ × ℕ × FdJobEntry)) × (remove_node fd_callbacks 3
        (entry_of 0)
        chain
      ≡ some b')
    × (b'.list ≡ head_of ys)
    × (contents ys ≡ unlink fd_callbacks (contents nodes) (entry_of 0))
    × Exchanges heap nodes (λ q. false) b'.memory ys
remove_node-Exchanges_example =
    remove_node-Exchanges fd_callbacks (entry_of 0) 3 chain nodes (omega arith) heap-Chained refl

abbrev is_freed : Option (HashBucket FdJobEntry) → ℕ → Option Bool
is_freed none q = none
is_freed (some b) q = some (elim (b.memory q) [ none ↦ true | some x ↦ false ])

removed_node : is_freed (remove_node fd_callbacks 3 (entry_of 0) chain) 16 ≡ some true
unfolding remove_node comp_fd
removed_node = refl
