-- ===== src/Domain/Keys.antt =====
-- The callbacks of the four tables meet the contract that the hash table relies on.
use tp_sistemas_operativos_i.Prelude.{◌≡◌, ◌↔◌, refl, sym, ◌∙◌, arith, ap}
use tp_sistemas_operativos_i.Prelude.Int.{eq_ℤ_iff, to_unsigned}
use tp_sistemas_operativos_i.HashTable.{IsKeyed}
use tp_sistemas_operativos_i.Domain.{
  ReceivedJob, func_hash_node, comp_node, func_hash_job, comp_job, func_hash_fd, comp_fd,
  func_hash_localjob, comp_localjob, node_callbacks, job_callbacks, fd_callbacks,
  localjob_callbacks,
}

pub node_callbacks-IsKeyed : IsKeyed node_callbacks
unfolding comp_node func_hash_node
node_callbacks-IsKeyed = record {
  comp_refl = λ a. ground arith;
  comp_symm = λ a b h. ground arith;
  comp_trans = λ a b c h k. ground arith;
  hash-comp = λ a b h. ap to_unsigned ((eq_ℤ_iff a.ip b.ip).0 (ground arith));
}

pub fd_callbacks-IsKeyed : IsKeyed fd_callbacks
unfolding comp_fd func_hash_fd
fd_callbacks-IsKeyed = record {
  comp_refl = λ a. ground arith;
  comp_symm = λ a b h. ground arith;
  comp_trans = λ a b c h k. ground arith;
  hash-comp = λ a b h. ap to_unsigned ((eq_ℤ_iff a.fd b.fd).0 (ground arith));
}

pub localjob_callbacks-IsKeyed : IsKeyed localjob_callbacks
unfolding comp_localjob func_hash_localjob
localjob_callbacks-IsKeyed = record {
  comp_refl = λ a. ground arith;
  comp_symm = λ a b h. ground arith;
  comp_trans = λ a b c h k. ground arith;
  hash-comp = λ a b h. ap to_unsigned ((eq_ℤ_iff a.job_id b.job_id).0 (ground arith));
}

-- Two reservations are under one key exactly when job id, address and port agree.
pub comp_job_iff :
    (a b : ReceivedJob) → (comp_job a b ≡ 0) ↔ ((a.id ≡ b.id) × (a.ip ≡ b.ip) × (a.port ≡ b.port))
unfolding comp_job
comp_job_iff a b = (
  λ h. (
    (eq_ℤ_iff a.id b.id).0 (ground arith),
    (eq_ℤ_iff a.ip b.ip).0 (ground arith),
    (eq_ℤ_iff a.port b.port).0 (ground arith),
  ),
  λ e. rw ((eq_ℤ_iff a.id b.id).1 e.0, (eq_ℤ_iff a.ip b.ip).1 e.1, (eq_ℤ_iff a.port b.port).1 e.2),
)

pub job_callbacks-IsKeyed : IsKeyed job_callbacks
unfolding func_hash_job
job_callbacks-IsKeyed = record {
  comp_refl = λ a. (comp_job_iff a a).1 (refl, refl, refl);
  comp_symm =
      λ a b h. let e = (comp_job_iff a b).0 h in (comp_job_iff b a).1 (sym e.0, sym e.1, sym e.2);
  comp_trans = λ a b c h k.
      let e = (comp_job_iff a b).0 h in
      let f = (comp_job_iff b c).0 k in (comp_job_iff a c).1 (e.0 ∙ f.0, e.1 ∙ f.1, e.2 ∙ f.2);
  hash-comp = λ a b h. let e = (comp_job_iff a b).0 h in rw (e.0, e.1, e.2);
}
