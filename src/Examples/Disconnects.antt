-- ===== src/Examples/Disconnects.antt =====
-- A provider disconnects while job 7 waits for its answer.
use tp_sistemas_operativos_i.Prelude.{ℕ, ◌≡◌, refl, [], ◌∷◌, none, some}
use tp_sistemas_operativos_i.Prelude.Int.{pos}
use tp_sistemas_operativos_i.Prelude.Text.{codes}
use tp_sistemas_operativos_i.HashTable.{tablahash_create}
use tp_sistemas_operativos_i.HashTable.Lookup.{find-create}
use tp_sistemas_operativos_i.Domain.{LocalJob, localjob_callbacks, create_table_nodes}
use tp_sistemas_operativos_i.Domain.Keys.{localjob_callbacks-IsKeyed}
use tp_sistemas_operativos_i.Server.{start}
use tp_sistemas_operativos_i.Client.{Agent, JobHeap, find_job, handle_outbound_disconnect}
use tp_sistemas_operativos_i.Client.Ownership.{Consistent, IsConsistent, Owned, ref_of, write}
use tp_sistemas_operativos_i.Client.Admission.{
  with_job, with_fd, ref_at-with_job, created-Consistent, with_job-Consistent, with_fd-Consistent,
}
use tp_sistemas_operativos_i.Client.Rejection.{handle_outbound_disconnect-IsConsistent}

abbrev pub asking : LocalJob
asking = record {
  job_id = pos 7;
  erlang_socket = pos 5;
  origin_socket = pos 21;
  next_req =
      record {
        kind = codes "cpu";
        amount = pos 2;
        dest_ip = codes "10.0.0.1";
        dest_port = pos 4200;
        provider_fd = pos 0;
      }
      ∷ [];
  granted_reqs = [];
  timer = pos 100;
}

abbrev pub empty : JobHeap
empty p = none

abbrev pub agent : Agent
agent = record {
  server = start;
  table_localjobs = with_job tablahash_create (ref_of asking 64);
  table_ourjobs = with_fd tablahash_create (pos 21) 64;
  table_nodes = create_table_nodes;
  jobs = write empty 64 (some asking);
  erlangfd = pos 5;
}

asking-Consistent :
    Consistent
      (with_job tablahash_create (ref_of asking 64))
      tablahash_create
      (write empty 64 (some asking))
asking-Consistent =
    with_job-Consistent tablahash_create tablahash_create empty 64 asking refl
      (find-create localjob_callbacks localjob_callbacks-IsKeyed
        (record { job_id = pos 7; address = 0 }))
      (created-Consistent empty)

asking-Owned :
    Owned (with_job tablahash_create (ref_of asking 64)) (write empty 64 (some asking)) 64 asking
asking-Owned = (
  refl,
  ref_at-with_job tablahash_create (ref_of asking 64) (pos 7) (created-Consistent empty).jobs_valid,
)

pub agent-IsConsistent : IsConsistent agent
agent-IsConsistent =
    with_fd-Consistent (with_job tablahash_create (ref_of asking 64)) tablahash_create
      (write empty 64 (some asking)) 64 asking (pos 21) asking-Owned refl refl refl
      asking-Consistent

handle_outbound_disconnect-IsConsistent_example :
    (a' : Agent) × (handle_outbound_disconnect (pos 21) agent ≡ some a')
    × IsConsistent a'
    × (find_job (pos 21) a' ≡ none)
    × ((p : ℕ) → find_job (pos 21) agent ≡ some p → a'.jobs p ≡ none)
handle_outbound_disconnect-IsConsistent_example =
    handle_outbound_disconnect-IsConsistent (pos 21) agent agent-IsConsistent
