-- ===== src/Examples/Races.antt =====
-- Two workers on the job of Examples.Disconnects, which waits for the answer of its provider.
use tp_sistemas_operativos_i.Prelude.{◌≡◌, refl, none, some}
use tp_sistemas_operativos_i.Prelude.Int.{pos}
use tp_sistemas_operativos_i.HashTable.{
  tablahash_create, tablahash_find, tablahash_insert, find_in_list, overwrite,
}
use tp_sistemas_operativos_i.Domain.{func_hash_fd, comp_fd, func_hash_localjob, comp_localjob}
use tp_sistemas_operativos_i.Client.{find_job, find_localjob}
use tp_sistemas_operativos_i.Client.Ownership.{ref_of}
use tp_sistemas_operativos_i.Client.Races.{two_workers, overtaken, overtaken-faults}
use tp_sistemas_operativos_i.Client.Sessions.{grants, look_up, run_moves}
use tp_sistemas_operativos_i.Examples.Disconnects.{agent, agent-IsConsistent, asking}
use tp_sistemas_operativos_i.Examples.Steps.{env}

found_at_64 : look_up (grants (pos 21) (pos 7)) agent ≡ some 64
unfolding look_up find_job tablahash_create tablahash_find tablahash_insert find_in_list overwrite
    func_hash_fd comp_fd
found_at_64 = refl

owned_at_64 : find_localjob (pos 7) agent ≡ some (ref_of asking 64)
unfolding find_localjob tablahash_create tablahash_find tablahash_insert find_in_list overwrite
    func_hash_localjob comp_localjob
owned_at_64 = refl

-- The GRANTED for job 7 is looked up, then its timeout is handled.
overtaken-faults_example :
    run_moves (two_workers agent) (overtaken (grants (pos 21) (pos 7)) (pos 7) env env) ≡ none
overtaken-faults_example =
    overtaken-faults (grants (pos 21) (pos 7)) (pos 7) (ref_of asking 64) env env agent found_at_64
      owned_at_64 agent-IsConsistent
