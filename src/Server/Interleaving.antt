-- ===== src/Server/Interleaving.antt =====
-- Two workers in `record_granted` of agent/utils.c at once: `tablahash_find` and `tablahash_insert`
-- each take the lock of the table, and other workers run between the two.
use tp_sistemas_operativos_i.Prelude.{Option}
use tp_sistemas_operativos_i.Prelude.Int.{ℤ}
use tp_sistemas_operativos_i.HashTable.{HashTable, tablahash_find, tablahash_insert}
use tp_sistemas_operativos_i.Domain.{ReceivedJob, job_callbacks}
use tp_sistemas_operativos_i.Server.{
  Resource, Peers, type_name, address_of, job_key, existing_or, add_granted,
}

-- The arguments of a call of `record_granted`.
pub record Grant : Type 0 where
  pub job_id : ℤ
  pub socket : ℤ
  pub resource : Resource
  pub amount : ℤ

-- Where a worker is: before the search, between it and the insertion, with what it has found, and
-- behind the insertion.
pub data Phase : Type 0 where
  waits : Phase
  looked : Option ReceivedJob → Phase
  recorded : Phase

pub record Shared : Type 0 where
  pub table : HashTable ReceivedJob
  pub left : Phase
  pub right : Phase

module _ (peer : Peers) where
  abbrev pub key_of : Grant → ReceivedJob
  key_of g = job_key g.job_id (address_of (peer g.socket))

  -- The reservation that a worker builds from what it has found.
  abbrev pub entry : Option ReceivedJob → Grant → ReceivedJob
  entry found g =
      add_granted (type_name g.resource) g.amount
        (record (existing_or (key_of g) found) { original_socket = g.socket })

  abbrev pub inserted : HashTable ReceivedJob → Option ReceivedJob → Grant → HashTable ReceivedJob
  inserted t found g = (tablahash_insert job_callbacks t (entry found g)).table

  module _ (g h : Grant) where
    -- One step of the left worker, which records `g`, or of the right one, which records `h`.
    pub data Step : Shared → Shared → Type 0 where
      left_looks :
          (t : HashTable ReceivedJob) (other : Phase)
          → Step
              (record { table = t; left = waits; right = other })
              (record {
                table = t;
                left = looked (tablahash_find job_callbacks t (key_of g));
                right = other;
              })
      left_records :
          (t : HashTable ReceivedJob) (found : Option ReceivedJob) (other : Phase)
          → Step
              (record { table = t; left = looked found; right = other })
              (record { table = inserted t found g; left = recorded; right = other })
      right_looks :
          (t : HashTable ReceivedJob) (other : Phase)
          → Step
              (record { table = t; left = other; right = waits })
              (record {
                table = t;
                left = other;
                right = looked (tablahash_find job_callbacks t (key_of h));
              })
      right_records :
          (t : HashTable ReceivedJob) (found : Option ReceivedJob) (other : Phase)
          → Step
              (record { table = t; left = other; right = looked found })
              (record { table = inserted t found h; left = other; right = recorded })

    pub data Reach (s : Shared) : Shared → Type 0 where
      here : Reach s s
      next : {t u : Shared} → Reach s t → Step t u → Reach s u

    abbrev pub beginning : HashTable ReceivedJob → Shared
    beginning t = record { table = t; left = waits; right = waits }

    abbrev pub ending : HashTable ReceivedJob → Shared
    ending t = record { table = t; left = recorded; right = recorded }
