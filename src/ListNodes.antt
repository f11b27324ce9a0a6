-- ===== src/ListNodes.antt =====
-- The chains of ResourceManager/hashtable.c as linked `ListNode` cells of a heap, with the callbacks of
-- ResourceManager/hash.c that allocate and free: `copy_node`, `copy_job` and `copy_fd` copy the datum to
-- new memory, `destr_node`, `dest_job` and `destr_fd` free it. `none` is a fault: an access through
-- NULL or to freed memory, or a second `free`. HashTable has a chain as a list.
pub mod Chained
pub mod Overwriting
pub mod Insertion
pub mod Deletion
use tp_sistemas_operativos_i.Prelude.{ℕ, zero, suc, Option, none, some, ◌==◌, if◌then◌else◌}
use tp_sistemas_operativos_i.HashTable.{Callbacks}
use tp_sistemas_operativos_i.ResourceQueue.{◌>>=◌}

-- `ListNode`: the addresses of its datum and of the next node; 0 is NULL.
pub record ListNode : Type 0 where
  pub data' : ℕ
  pub next : ℕ

-- What `malloc` has allocated at an address.
pub data Block (A : Type 0) : Type 0 where
  node_block : ListNode → Block A
  data_block : A → Block A

abbrev pub Heap : Type 0 → Type 0
Heap A = ℕ → Option (Block A)

module _ {A : Type 0} where
  abbrev pub update : Heap A → ℕ → Option (Block A) → Heap A
  update h p b q = if q == p then b else h q

  abbrev node_of : Option (Block A) → Option ListNode
  node_of (some (node_block n)) = some n
  node_of _ = none

  abbrev data_of : Option (Block A) → Option A
  data_of (some (data_block a)) = some a
  data_of _ = none

  -- A read of `*current`, and of `*current->data`.
  abbrev pub read_node : ℕ → Heap A → Option ListNode
  read_node p h = node_of (h p)

  abbrev pub read_data : ℕ → Heap A → Option A
  read_data p h = data_of (h p)

  abbrev freed : ℕ → Heap A → Option (Block A) → Option (Heap A)
  freed p h none = none
  freed p h (some b) = some (update h p none)

  -- `free(p)`, which is also what `destr` does to a datum.
  abbrev pub release : ℕ → Heap A → Option (Heap A)
  release p h = freed p h (h p)

  -- The callback `copy`, which allocates at `fresh`.
  abbrev pub copy_data : A → ℕ → Heap A → Heap A
  copy_data key fresh h = update h fresh (some (data_block key))

-- A chain: the pointer to its first node, and the memory.
pub record HashBucket (A : Type 0) : Type 0 where
  pub list : ℕ
  pub memory : Heap A

-- Two pointers of the walk of `tablahash_remove`.
pub record Walk : Type 0 where
  pub prev : ℕ
  pub current : ℕ

module _ {A : Type 0} where
  -- `table->destr(existing->data); existing->data = table->copy(data);`, where the copy is allocated at
  -- `fresh`.
  unfoldable pub overwrite_node : ℕ → A → ℕ → Heap A → Option (Heap A)
  overwrite_node existing key fresh h = do
    node ← read_node existing h
    h₁ ← release node.data' h
    some (
        update (copy_data key fresh h₁) existing
          (some (node_block (record node { data' = fresh }))))

  -- The new node at `new_node`, before the others.
  abbrev pub push_node : A → ℕ → ℕ → HashBucket A → HashBucket A
  push_node key new_node fresh b = record {
    list = new_node;
    memory =
        copy_data key fresh
          (update b.memory new_node (some (node_block (record { data' = fresh; next = b.list }))));
  }

  -- `elems[idx].list = current->next`, or `prev->next = current->next`.
  abbrev pub bypass : ℕ → ListNode → HashBucket A → Option (HashBucket A)
  bypass prev node b = if prev == 0 then some (record b { list = node.next }) else (do
    before ← read_node prev b.memory
    some (record b {
      memory = update b.memory prev (some (node_block (record before { next = node.next })));
    }))

  -- What follows the walk.
  unfoldable pub cut_node : Walk → HashBucket A → Option (HashBucket A)
  cut_node w b = if w.current == 0 then some b else (do
    node ← read_node w.current b.memory
    b₁ ← bypass w.prev node b
    node₁ ← read_node w.current b₁.memory
    h₂ ← release node₁.data' b₁.memory
    h₃ ← release w.current h₂
    some (record b₁ { memory = h₃ }))

module _ {A : Type 0} (cb : Callbacks A) where
  -- `find_in_list`, with fuel: the address of the node, or NULL.
  unfoldable pub find_node : ℕ → ℕ → A → Heap A → Option ℕ
  find_node zero list key h = none
  find_node (suc fuel) list key h = if list == 0 then some 0 else (do
    node ← read_node list h
    x ← read_data node.data' h
    if cb.comp x key == 0 then some list else find_node fuel node.next key h)

  -- `tablahash_insert` on the chain of its bucket, with fuel.
  unfoldable pub insert_node : ℕ → A → ℕ → ℕ → HashBucket A → Option (HashBucket A)
  unfolding find_node overwrite_node
  insert_node fuel key new_node fresh b = do
    existing ← find_node fuel b.list key b.memory
    if existing == 0
        then some (push_node key new_node fresh b)
        else (do h ← overwrite_node existing key fresh b.memory; some (record b { memory = h }))

  -- The walk of `tablahash_remove`, with fuel.
  unfoldable pub walk_to : ℕ → ℕ → ℕ → A → Heap A → Option Walk
  walk_to zero prev current key h = none
  walk_to (suc fuel) prev current key h =
      if current == 0 then some (record { prev = prev; current = current }) else (do
        node ← read_node current h
        x ← read_data node.data' h
        if cb.comp x key == 0
            then some (record { prev = prev; current = current })
            else walk_to fuel current node.next key h)

  unfoldable pub remove_node : ℕ → A → HashBucket A → Option (HashBucket A)
  unfolding walk_to cut_node
  remove_node fuel key b = do w ← walk_to fuel 0 b.list key b.memory; cut_node w b
