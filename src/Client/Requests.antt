-- ===== src/Client/Requests.antt =====
-- What happens to the requests of a job: they are granted in the order in which the scheduler gave
-- them, and each provider is released once.
use mathlib.Core.List.{append_assoc, reverse-cons, map-append}
use tp_sistemas_operativos_i.Prelude.{
  ℕ, ◌≡◌, refl, sym, ap, ◌∙◌, List, [], ◌∷◌, ◌++◌, map, reverse, Option, some, true, ◌==◌,
  Bool-cases, inl, inr, arith,
}
use mathlib.Core.Option
use tp_sistemas_operativos_i.Prelude.Int.{ℤ}
use tp_sistemas_operativos_i.Kernel.{Effect}
use tp_sistemas_operativos_i.Domain.{PendingResource, LocalJob}
use tp_sistemas_operativos_i.ResourceQueue.{◌>>=◌}
use tp_sistemas_operativos_i.Client.{
  Agent, is_held, given_up, release_provider, release_all, release_resources,
}
use tp_sistemas_operativos_i.Client.Remote.{advanced}

-- What a request asks for, and where.
abbrev pub demand : PendingResource → List ℕ × ℤ × List ℕ × ℤ
demand r = (r.kind, r.amount, r.dest_ip, r.dest_port)

-- The demands of a job, oldest first: those that are granted, then those that wait.
abbrev pub demands : LocalJob → List (List ℕ × ℤ × List ℕ × ℤ)
demands job = map demand (reverse job.granted_reqs ++ job.next_req)

moved :
    (fd : ℤ) (job : LocalJob) (rs : List PendingResource)
    → demands (advanced fd (record job { next_req = rs })) ≡ demands (record job { next_req = rs })
moved fd job [] = refl
moved fd job (r ∷ rs) =
    ap (λ (l : List PendingResource). map demand (l ++ rs))
      (reverse-cons (record r { provider_fd = fd }) job.granted_reqs)
    ∙ ap (map demand)
        (append_assoc (reverse job.granted_reqs) (record r { provider_fd = fd } ∷ []) rs)
    ∙ map-append demand (reverse job.granted_reqs) (record r { provider_fd = fd } ∷ rs)
    ∙ sym (map-append demand (reverse job.granted_reqs) (r ∷ rs))

-- A grant moves the boundary between what a job holds and what it waits for by one request, and
-- keeps the demands of the job and their order.
pub demands-advanced : (fd : ℤ) (job : LocalJob) → demands (advanced fd job) ≡ demands job
demands-advanced fd job = moved fd job job.next_req

release_provider-given_up :
    (id : ℤ) (r : PendingResource) (trace : List Effect)
    → release_provider id (given_up r) trace ≡ trace
release_provider-given_up id r trace = elim (Bool-cases (is_held r)) [
  | inl held ↦ rw held refl
  | inr other ↦ rw (other, other) refl
]

release_all-given_up :
    (id : ℤ) (rs : List PendingResource) (trace : List Effect)
    → release_all id (map given_up rs) trace ≡ trace
unfolding release_all
release_all-given_up id [] trace = refl
release_all-given_up id (r ∷ rs) trace =
    ap (release_all id (map given_up rs)) (release_provider-given_up id r trace)
    ∙ release_all-given_up id rs trace

-- The messages and the closed connections so far.
abbrev pub trace_of : Option Agent → Option (List Effect)
trace_of = Option.map (λ (a : Agent). a.server.trace)

-- Releasing the providers of a live job a second time sends nothing and closes nothing: no provider
-- gets a second RELEASE, and no connection is closed twice.
pub release_resources-twice :
    (p : ℕ) (a : Agent) (job : LocalJob)
    → a.jobs p ≡ some job
    → trace_of (release_resources p a >>= release_resources p) ≡ trace_of (release_resources p a)
unfolding release_resources
release_resources-twice p a job live =
    let here : (p == p) ≡ true = ground arith in
    rw (live, here) (ap some (release_all-given_up job.job_id job.granted_reqs _))
