-- ===== src/Examples/Tables.antt =====
-- A table of nodes with two peers, one of them announced twice.
use tp_sistemas_operativos_i.Prelude.{ℕ, ◌≡◌, refl, [], ◌∷◌, none, some, if◌then◌else◌, ◌==◌, Bool}
use tp_sistemas_operativos_i.Prelude.Int.{pos, leb_ℤ}
use tp_sistemas_operativos_i.HashTable.{
  HashTable, tablahash_create, tablahash_find, tablahash_insert, tablahash_remove, find_in_list,
  overwrite, unlink,
}
use tp_sistemas_operativos_i.HashTable.Valid.{IsValid, create-IsValid, insert-IsValid}
use tp_sistemas_operativos_i.HashTable.Sweep.{sweep, unless_selected}
use tp_sistemas_operativos_i.HashTable.Operations.{operations-IsValid, find-operations}
use tp_sistemas_operativos_i.Domain.{ReceivedNode, node_callbacks, func_hash_node, comp_node}
use tp_sistemas_operativos_i.Domain.Keys.{node_callbacks-IsKeyed}

-- A peer at an address, with its free cpu and the time of its announcement.
abbrev node : ℕ → ℕ → ℕ → ReceivedNode
node ip cpu time = record {
  ip = pos ip;
  port = pos 4200;
  gpu = pos 1;
  mem = pos 8192;
  cpu = pos cpu;
  time = pos time;
}

abbrev one : HashTable ReceivedNode
one = (tablahash_insert node_callbacks tablahash_create (node 257 4 0)).table

abbrev two : HashTable ReceivedNode
two = (tablahash_insert node_callbacks one (node 1 2 3)).table

running : Unit {0}
unfolding tablahash_create tablahash_find tablahash_insert tablahash_remove find_in_list overwrite
    unlink func_hash_node comp_node sweep
running = tt

-- Both addresses go to bucket 1.
find_first : tablahash_find node_callbacks two (node 257 0 0) ≡ some (node 257 4 0)
unfolding running
find_first = refl

replace_first :
    tablahash_find node_callbacks
      (tablahash_insert node_callbacks two (node 257 9 9)).table
      (node 257 0 0)
    ≡ some (node 257 9 9)
unfolding running
replace_first = refl

remove_first : (tablahash_remove node_callbacks two (node 257 0 0)).destroyed ≡ node 257 4 0 ∷ []
unfolding running
remove_first = refl

one-IsValid : IsValid node_callbacks one
one-IsValid =
    insert-IsValid node_callbacks node_callbacks-IsKeyed tablahash_create (node 257 4 0)
      (create-IsValid node_callbacks)

abbrev is_old : ReceivedNode → Bool
is_old n = leb_ℤ n.time (pos 1)

operations-IsValid_example :
    IsValid node_callbacks tablahash_create
    × IsValid node_callbacks two
    × IsValid node_callbacks (tablahash_remove node_callbacks one (node 1 2 3)).table
    × IsValid node_callbacks (sweep is_old one).table
operations-IsValid_example =
    operations-IsValid is_old node_callbacks one (node 1 2 3) node_callbacks-IsKeyed one-IsValid

find-operations_example :
    (tablahash_find node_callbacks two (node 257 1 1) ≡ (
      if node_callbacks.comp (node 1 2 3) (node 257 1 1) == 0
      then some (node 1 2 3)
      else tablahash_find node_callbacks one (node 257 1 1)))
    × (tablahash_find node_callbacks
          (tablahash_remove node_callbacks one (node 1 2 3)).table
          (node 257 1 1)
        ≡ (if node_callbacks.comp (node 1 2 3) (node 257 1 1) == 0
            then none
            else tablahash_find node_callbacks one (node 257 1 1)))
    × (tablahash_find node_callbacks (sweep is_old one).table (node 257 1 1)
        ≡ unless_selected is_old (tablahash_find node_callbacks one (node 257 1 1)))
find-operations_example =
    find-operations is_old node_callbacks one (node 1 2 3) (node 257 1 1) node_callbacks-IsKeyed
      one-IsValid
