-- ===== src/Examples/Workers.antt =====
-- Two workers grant to jobs 1 and 2 of one peer at once: both search before either inserts.
use tp_sistemas_operativos_i.Prelude.{refl, none, ◌≡◌, ◌≢◌, some, Option, arith}
use tp_sistemas_operativos_i.Prelude.Int.{ℤ, pos, ◌+ℤ◌}
use tp_sistemas_operativos_i.Prelude.Text.{str_eq}
use tp_sistemas_operativos_i.HashTable.{
  tablahash_create, tablahash_insert, find_in_list, overwrite, HashTable, tablahash_find,
}
use tp_sistemas_operativos_i.Domain.{
  create_table_jobs, func_hash_job, ReceivedJob, job_callbacks, comp_job,
}
use tp_sistemas_operativos_i.Server.{record_granted, add_granted, Peers, start, cpu, mem}
use tp_sistemas_operativos_i.Server.Calls.{start-IsSound}
use tp_sistemas_operativos_i.Server.Interleaving.{
  Grant, waits, looked, recorded, key_of, inserted, Reach, here, next, left_looks, left_records,
  right_looks, right_records, beginning, ending,
}
use tp_sistemas_operativos_i.Server.Commutation.{both_recorded, interleaved_grants}

abbrev peer : Peers
peer fd = some (pos 167772162, pos 4200)

abbrev g : Grant
g = record { job_id = pos 1; socket = pos 12; resource = cpu; amount = pos 2 }

abbrev h : Grant
h = record { job_id = pos 2; socket = pos 12; resource = mem; amount = pos 512 }

abbrev found : Grant → Option ReceivedJob
found x = tablahash_find job_callbacks start.table_nodejobs (key_of peer x)

abbrev final : HashTable ReceivedJob
final = inserted peer (inserted peer start.table_nodejobs (found g) g) (found h) h

both_look : Reach peer g h (beginning peer g h start.table_nodejobs) (ending peer g h final)
both_look =
    next
      (next
        (next (next here (left_looks start.table_nodejobs waits))
          (right_looks start.table_nodejobs (looked (found g))))
        (left_records start.table_nodejobs (found g) (looked (found h))))
      (right_records (inserted peer start.table_nodejobs (found g) g) (found h) recorded)

keys-apart : comp_job (key_of peer g) (key_of peer h) ≢ 0
unfolding comp_job
keys-apart e = ground (arith, e)

interleaved_grants_example :
    tablahash_find job_callbacks final (key_of peer g)
    ≡ tablahash_find job_callbacks (both_recorded peer g h start).table_nodejobs (key_of peer g)
interleaved_grants_example =
    interleaved_grants peer g h start final (key_of peer g) start-IsSound keys-apart both_look

abbrev cpus : HashTable ReceivedJob → Option ℤ
cpus t = elim (tablahash_find job_callbacks t (key_of peer g)) [
  | none ↦ none
  | some j ↦ some j.cpu_granted
]

-- Two grants of one job, each of 2 cpus: one after the other, the table says 4.
one_by_one : cpus (both_recorded peer g g start).table_nodejobs ≡ some (pos 4)
unfolding record_granted add_granted str_eq start create_table_jobs tablahash_create tablahash_find
    tablahash_insert find_in_list overwrite func_hash_job comp_job ◌+ℤ◌
one_by_one = refl

abbrev overlapping : HashTable ReceivedJob
overlapping = inserted peer (inserted peer start.table_nodejobs (found g) g) (found g) g

-- When both search before either inserts, the table can say 2.
overlapping-Reach :
    Reach peer g g (beginning peer g g start.table_nodejobs) (ending peer g g overlapping)
overlapping-Reach =
    next
      (next
        (next (next here (left_looks start.table_nodejobs waits))
          (right_looks start.table_nodejobs (looked (found g))))
        (left_records start.table_nodejobs (found g) (looked (found g))))
      (right_records (inserted peer start.table_nodejobs (found g) g) (found g) recorded)

lost_grant : cpus overlapping ≡ some (pos 2)
unfolding add_granted str_eq start create_table_jobs tablahash_create tablahash_find
    tablahash_insert find_in_list overwrite func_hash_job comp_job ◌+ℤ◌
lost_grant = refl
