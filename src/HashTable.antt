-- ===== src/HashTable.antt =====
-- ResourceManager/hashtable.c and hashtable.h: the chained hash table, generic in its callbacks.
-- A chain is the list of the data of its nodes. `tablahash_insert` and `tablahash_remove` return,
-- beside the table, the data that they hand to the callback `destr`; what `destr` frees is for the
-- caller to say. The callback `copy` gives equal data (copy_node, copy_job, copy_fd) or the same
-- pointer (copy_localjob), so a table stores what it is given. The mutex is no part of the state:
-- each operation is one step.
pub mod Chain
pub mod Sweep
pub mod Valid
pub mod Lookup
pub mod Total
pub mod Every
pub mod Members
pub mod Operations
use tp_sistemas_operativos_i.Prelude.{
  ℕ, suc, ◌+◌, ◌-◌, ◌%◌, ◌^◌, ◌≡◌, List, [], ◌∷◌, flatten, Option, none, some, get_or, set,
  replicate, ◌==◌, if◌then◌else◌,
}

-- HashFunc and CompareFunc, as they are handed to `tablahash_create`.
pub record Callbacks {ℓ} (A : Type ℓ) : Type ℓ where
  pub hash : A → ℕ
  pub comp : A → A → ℕ

-- The documented contract of the callbacks: comparing gives an equivalence that `hash` respects.
pub record IsKeyed {ℓ} {A : Type ℓ} (cb : Callbacks A) : Type ℓ where
  pub comp_refl : (a : A) → cb.comp a a ≡ 0
  pub comp_symm : (a b : A) → cb.comp a b ≡ 0 → cb.comp b a ≡ 0
  pub comp_trans : (a b c : A) → cb.comp a b ≡ 0 → cb.comp b c ≡ 0 → cb.comp a c ≡ 0
  pub hash-comp : (a b : A) → cb.comp a b ≡ 0 → cb.hash a ≡ cb.hash b

pub record HashTable {ℓ} (A : Type ℓ) : Type ℓ where
  pub elems : List (List A)
  pub num_elems : ℕ
  pub capacity : ℕ

abbrev pub hash_size : ℕ
hash_size = 256

-- `numElems++` and `numElems--` on an `unsigned`.
abbrev pub increment : ℕ → ℕ
increment n = (n + 1) % 2 ^ 32

abbrev pub decrement : ℕ → ℕ
decrement n = (n + 2 ^ 32 - 1) % 2 ^ 32

unfoldable pub tablahash_create {ℓ} : {A : Type ℓ} → HashTable A
tablahash_create = record { elems = replicate hash_size []; num_elems = 0; capacity = hash_size }

-- What an operation leaves, and the data that it handed to `destr`.
pub record Outcome {ℓ} (A : Type ℓ) : Type ℓ where
  pub table : HashTable A
  pub destroyed : List A

module _ {ℓ} {A : Type ℓ} (cb : Callbacks A) where
  -- The data of the node that the search stops at.
  unfoldable pub find_in_list : List A → A → Option A
  find_in_list [] data' = none
  find_in_list (x ∷ xs) data' = if cb.comp x data' == 0 then some x else find_in_list xs data'

  -- `existing->data = table->copy(data)`, at the node that the search stops at.
  unfoldable pub overwrite : List A → A → List A
  overwrite [] data' = []
  overwrite (x ∷ xs) data' = if cb.comp x data' == 0 then data' ∷ xs else x ∷ overwrite xs data'

  -- `prev->next = current->next`, or the new head of the chain.
  unfoldable pub unlink : List A → A → List A
  unlink [] data' = []
  unlink (x ∷ xs) data' = if cb.comp x data' == 0 then xs else x ∷ unlink xs data'

  abbrev pub index : HashTable A → A → ℕ
  index t data' = cb.hash data' % t.capacity

  abbrev pub bucket : HashTable A → A → List A
  bucket t data' = get_or t.elems (index t data') []

  unfoldable pub tablahash_find : HashTable A → A → Option A
  tablahash_find t data' = find_in_list (bucket t data') data'

  unfoldable pub tablahash_insert : HashTable A → A → Outcome A
  tablahash_insert t data' = elim (find_in_list (bucket t data') data') [
    | some old ↦ record {
      table = record t { elems = set t.elems (index t data') (overwrite (bucket t data') data') };
      destroyed = old ∷ [];
    }
    | none ↦ record {
      table = record t {
        elems = set t.elems (index t data') (data' ∷ bucket t data');
        num_elems = increment t.num_elems;
      };
      destroyed = [];
    }
  ]

  -- `tablahash_remove`, and `tablahash_remove_lock` round it.
  unfoldable pub tablahash_remove : HashTable A → A → Outcome A
  tablahash_remove t data' = elim (find_in_list (bucket t data') data') [
    | none ↦ record { table = t; destroyed = [] }
    | some old ↦ record {
      table = record t {
        elems = set t.elems (index t data') (unlink (bucket t data') data');
        num_elems = decrement t.num_elems;
      };
      destroyed = old ∷ [];
    }
  ]

unfoldable pub tablahash_nelems {ℓ} : {A : Type ℓ} → HashTable A → ℕ
tablahash_nelems t = t.num_elems

unfoldable pub tablahash_capacity {ℓ} : {A : Type ℓ} → HashTable A → ℕ
tablahash_capacity t = t.capacity

-- The data that `tablahash_destroy` hands to `destr`, bucket by bucket.
unfoldable pub tablahash_destroy {ℓ} : {A : Type ℓ} → HashTable A → List A
tablahash_destroy t = flatten t.elems
