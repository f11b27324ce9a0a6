-- ===== src/Examples/Steps.antt =====
-- The steps of an agent whose job 7 waits for its answer.
use tp_sistemas_operativos_i.Prelude.{
  [], ℕ, ◌<◌, ◌≤◌, ◌≡◌, refl, sym, ap, ◌∙◌, ◌⊎◌, List, flatten, none, some, length, arith,
}
use tp_sistemas_operativos_i.Prelude.Int.{ℤ, pos, negsuc}
use tp_sistemas_operativos_i.Prelude.Text.{codes, str_eq}
use tp_sistemas_operativos_i.HashTable.{
  tablahash_create, tablahash_find, tablahash_insert, find_in_list, overwrite,
}
use tp_sistemas_operativos_i.ResourceQueue.{◌>>=◌}
use tp_sistemas_operativos_i.HashTable.Lookup.{find-create}
use tp_sistemas_operativos_i.Domain.{
  func_hash_fd, comp_fd, func_hash_localjob, comp_localjob, PendingResource, localjob_callbacks,
}
use tp_sistemas_operativos_i.Domain.Keys.{localjob_callbacks-IsKeyed}
use tp_sistemas_operativos_i.Wire.{
  atoi, skip, read_signed, read_digits, until, after, strtok, get_token,
}
use tp_sistemas_operativos_i.Wire.Widths.{IsInt}
use tp_sistemas_operativos_i.Wire.Messages.{request_line, reserve_message, release_message}
use tp_sistemas_operativos_i.Nodes.{announce_message}
use tp_sistemas_operativos_i.Server.{granted_message}
use tp_sistemas_operativos_i.Client.Arrays.{messages_fit}
use tp_sistemas_operativos_i.Client.{
  destr_localjobs, ask_for_next_resource, C_to_erlang, handle_outbound_disconnect, find_job,
  reject_job, Agent, Env, opened, find_localjob,
}
use tp_sistemas_operativos_i.Client.Remote.{client_to_myserver}
use tp_sistemas_operativos_i.Client.Scheduler.{erlang_to_C, start_job}
use tp_sistemas_operativos_i.Client.Timeouts.{
  check_ourjob_timeouts, expired_ids, max_timeouts_per_tick,
}
use tp_sistemas_operativos_i.Client.Ownership.{IsConsistent, ref_of, some-injective}
use tp_sistemas_operativos_i.Client.Admission.{created-Consistent, ref_at-with_job}
use tp_sistemas_operativos_i.Client.Dispatch.{client_to_myserver-IsConsistent}
use tp_sistemas_operativos_i.Client.Commands.{EnvFits, requested, erlang_to_C-IsConsistent}
use tp_sistemas_operativos_i.Client.Sweeping.{NoneExpired, check_ourjob_timeouts-IsConsistent}
use tp_sistemas_operativos_i.Examples.Disconnects.{agent, agent-IsConsistent, asking, empty}

abbrev pub env : Env
env = record {
  peer = λ fd. some (pos 167772162, pos 4200);
  attempt = opened (pos 22);
  now = pos 110;
  fresh = 128;
  inet_addr = λ text. pos 167772161;
}

client_to_myserver-IsConsistent_example :
    (a' : Agent) × (client_to_myserver env (pos 21) (codes "GRANTED 7") agent ≡ some a')
    × IsConsistent a'
client_to_myserver-IsConsistent_example =
    client_to_myserver-IsConsistent env (pos 21) (codes "GRANTED 7") agent refl agent-IsConsistent

check_ourjob_timeouts-IsConsistent_example :
    (a' : Agent) × (check_ourjob_timeouts (pos 140) agent ≡ some a')
    × IsConsistent a'
    × (ids : List ℤ) × (expired_ids max_timeouts_per_tick
          (pos 140)
          agent.jobs
          (flatten agent.table_localjobs.elems)
        ≡ some ids)
    × ((max_timeouts_per_tick ≤ length ids) ⊎ NoneExpired (pos 140) a')
check_ourjob_timeouts-IsConsistent_example =
    check_ourjob_timeouts-IsConsistent (pos 140) agent agent-IsConsistent

pub env-EnvFits : EnvFits env agent.jobs
env-EnvFits = record { allocated = refl; unused = refl; opens = refl }

command_id : requested (codes "JOB_REQUEST 8 @10.0.0.1:cpu:2") ≡ some (pos 8)
unfolding atoi skip read_signed read_digits until after strtok get_token str_eq
command_id = refl

eight_absent : find_localjob (pos 8) agent ≡ none
unfolding find_localjob
eight_absent =
    ref_at-with_job tablahash_create (ref_of asking 64) (pos 8)
      (created-Consistent empty).jobs_valid
    ∙ find-create localjob_callbacks localjob_callbacks-IsKeyed
        (record { job_id = pos 8; address = 0 })

new_id :
    (id : ℤ)
    → requested (codes "JOB_REQUEST 8 @10.0.0.1:cpu:2") ≡ some id
    → find_localjob id agent ≡ none
new_id id e =
    ap (λ (i : ℤ). find_localjob i agent) (some-injective id (pos 8) (sym e ∙ command_id))
    ∙ eight_absent

erlang_to_C-IsConsistent_example :
    (a' : Agent) × (erlang_to_C env (codes "JOB_REQUEST 8 @10.0.0.1:cpu:2") agent ≡ some a')
    × IsConsistent a'
erlang_to_C-IsConsistent_example =
    erlang_to_C-IsConsistent env (codes "JOB_REQUEST 8 @10.0.0.1:cpu:2") agent env-EnvFits new_id
      agent-IsConsistent

abbrev wanted : PendingResource
wanted = record {
  kind = codes "mem";
  amount = pos 512;
  dest_ip = codes "10.0.0.2";
  dest_port = pos 4200;
  provider_fd = negsuc 0;
}

small : (n : ℕ) → n < 2147483648 → IsInt (pos n)
small n h = record { above = omega arith; below = h }

messages_fit_example :
    (length (announce_message (pos 4200) (pos 4) (pos 8192) (pos 1)) < 126)
    × (length (granted_message (pos 7)) < 64)
    × (reserve_message (pos 7) wanted ≡ request_line (codes "RESERVE ") (pos 7) wanted)
    × (release_message (pos 7) wanted ≡ request_line (codes "RELEASE ") (pos 7) wanted)
messages_fit_example =
    messages_fit (pos 4200) (pos 4) (pos 8192) (pos 1) (pos 7) wanted (small 4200 (omega arith))
      (small 4 (omega arith)) (small 8192 (omega arith)) (small 1 (omega arith))
      (small 7 (omega arith)) (small 512 (omega arith)) (omega arith)

-- A second JOB_REQUEST with the id of the job in flight frees it; when the socket of the first is then
-- closed, the index leads to the freed job.
freed_job_read : (start_job env (pos 7) [] agent >>= handle_outbound_disconnect (pos 21)) ≡ none
unfolding start_job destr_localjobs ask_for_next_resource C_to_erlang handle_outbound_disconnect
    find_job reject_job tablahash_create tablahash_find tablahash_insert find_in_list overwrite
    func_hash_fd comp_fd func_hash_localjob comp_localjob
freed_job_read = refl
