-- ===== src/Client/Dispatch.antt =====
-- The lines of peers (`client_to_myserver` of agent/communications.c) and the sockets that are ready
-- for writing (`send_request` of agent/loopfunc.c) keep the tables consistent.
use tp_sistemas_operativos_i.Prelude.{
  ℕ, ◌≡◌, refl, ap, ◌∙◌, List, [], ◌∷◌, Option, some, true, false, if◌then◌else◌, Bool,
  Option-cases, inl, inr,
}
use tp_sistemas_operativos_i.Prelude.Int.{ℤ}
use tp_sistemas_operativos_i.Prelude.Text.{codes, str_eq}
use tp_sistemas_operativos_i.Domain.{PendingResource, LocalJob}
use tp_sistemas_operativos_i.ResourceQueue.{bind-some}
use tp_sistemas_operativos_i.Wire.{atoi, get_token, bounded_copy}
use tp_sistemas_operativos_i.Framing.{buffer_len}
use tp_sistemas_operativos_i.Nodes.{c_string}
use tp_sistemas_operativos_i.Client.{Agent, Env, find_job, send_request, sent_for, reserve_sent}
use tp_sistemas_operativos_i.Client.Remote.{
  client_to_myserver, dispatched, on_reserve, on_granted, on_denied, granted_at, denied_at,
}
use tp_sistemas_operativos_i.Client.Ownership.{IsConsistent}
use tp_sistemas_operativos_i.Client.Freeing.{Continues}
use tp_sistemas_operativos_i.Client.Rejection.{rejected-IsConsistent, rejected_agent}
use tp_sistemas_operativos_i.Client.Asking.{AttemptFits, grant_job-Continues}

on_granted-Continues :
    (env : Env) (fd : ℤ) (args : List (List ℕ)) (a : Agent)
    → AttemptFits env.attempt
    → IsConsistent a
    → Continues (on_granted env fd args a)
on_granted-Continues env fd [] a fits c = (a, refl, c)
on_granted-Continues env fd (id ∷ more) a fits c = elim (Option-cases (find_job fd a)) [
  | inl absent ↦ (a, ap (granted_at env fd (atoi id) a) absent, c)
  | inr (p, found) ↦
      let (a', e, c') = grant_job-Continues env fd (atoi id) p a fits found c in
      (a', ap (granted_at env fd (atoi id) a) found ∙ e, c')
]

on_denied-Continues :
    (fd : ℤ) (args : List (List ℕ)) (a : Agent) → IsConsistent a → Continues (on_denied fd args a)
unfolding find_job
on_denied-Continues fd [] a c = (a, refl, c)
on_denied-Continues fd (id ∷ more) a c = elim (Option-cases (find_job fd a)) [
  | inl absent ↦ (a, ap (denied_at fd a) absent, c)
  | inr (p, found) ↦
      let (job, own, flies) = c.indexed fd p found in
      let (e, c') = rejected-IsConsistent fd p job a c found own in
      (rejected_agent fd p job a, ap (denied_at fd a) found ∙ e, c')
]

on_reserve-IsConsistent :
    (env : Env) (fd : ℤ) (args : List (List ℕ)) (a : Agent)
    → IsConsistent a
    → IsConsistent (on_reserve env fd args a)
on_reserve-IsConsistent env fd [] a c = c
on_reserve-IsConsistent env fd (id ∷ []) a c = c
on_reserve-IsConsistent env fd (id ∷ kind ∷ []) a c = c
on_reserve-IsConsistent env fd (id ∷ kind ∷ amount ∷ more) a c = c

pub if-Continues :
    (b : Bool) (x y : Option Agent) → Continues x → Continues y → Continues (if b then x else y)
if-Continues true x y h k = h
if-Continues false x y h k = k

dispatched-Continues :
    (env : Env) (fd : ℤ) (words : List (List ℕ)) (a : Agent)
    → AttemptFits env.attempt
    → IsConsistent a
    → Continues (dispatched env fd words a)
dispatched-Continues env fd [] a fits c = (a, refl, c)
dispatched-Continues env fd (word ∷ args) a fits c =
    if-Continues (str_eq word (codes "RESERVE")) _ _
      (on_reserve env fd args a, refl, on_reserve-IsConsistent env fd args a c)
      (if-Continues (str_eq word (codes "RELEASE")) _ _ (_, refl, c)
        (if-Continues (str_eq word (codes "GRANTED")) _ _
          (on_granted-Continues env fd args a fits c) (on_denied-Continues fd args a c)))

-- From a consistent state, any line of a peer is handled to the end without a read of a freed job,
-- and leaves a consistent state, when `socket` returns no negative descriptor.
pub client_to_myserver-IsConsistent :
    (env : Env) (fd : ℤ) (instruction : List ℕ) (a : Agent)
    → AttemptFits env.attempt
    → IsConsistent a
    → (a' : Agent) × (client_to_myserver env fd instruction a ≡ some a') × IsConsistent a'
unfolding client_to_myserver
client_to_myserver-IsConsistent env fd instruction a fits c =
    dispatched-Continues env fd (get_token (bounded_copy buffer_len (c_string instruction)) 10) a
      fits c

sent_for-Continues :
    (fd : ℤ) (a : Agent) (p : ℕ) (job : LocalJob) (reqs : List PendingResource)
    → job.next_req ≡ reqs
    → a.jobs p ≡ some job
    → IsConsistent a
    → Continues (sent_for fd a (some p))
sent_for-Continues fd a p job [] e live c = (a, bind-some (a.jobs p) job _ live ∙ (rw e refl), c)
sent_for-Continues fd a p job (req ∷ reqs) e live c =
    (reserve_sent fd job (req ∷ reqs) a, bind-some (a.jobs p) job _ live ∙ (rw e refl), c)

-- From a consistent state, a socket that is ready for writing makes the agent read no freed job, and
-- leaves a consistent state.
pub send_request-IsConsistent :
    (fd : ℤ) (a : Agent)
    → IsConsistent a
    → (a' : Agent) × (send_request fd a ≡ some a') × IsConsistent a'
unfolding send_request find_job
send_request-IsConsistent fd a c = elim (Option-cases (find_job fd a)) [
  | inl absent ↦ (a, ap (sent_for fd a) absent, c)
  | inr (p, found) ↦
      let (job, own, flies) = c.indexed fd p found in
      let (a', e, c') = sent_for-Continues fd a p job job.next_req refl own.0 c in
      (a', ap (sent_for fd a) found ∙ e, c')
]
