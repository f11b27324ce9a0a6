-- ===== src/Server/Workers/Quiet.antt =====
-- While a head that fits waits in a queue, some worker of Server.Workers is still to drain that queue.
use tp_sistemas_operativos_i.Prelude.{
  ℕ, zero, suc, ◌≡◌, refl, List, [], ◌∷◌, Bool, true, false, ◌||◌, Bool-cases, ◌⊎◌, inl, inr, All,
}
use tp_sistemas_operativos_i.Kernel.{Effect, sent}
use tp_sistemas_operativos_i.HashTable.{HashTable, tablahash_insert}
use tp_sistemas_operativos_i.HashTable.Sweep.{sweep}
use tp_sistemas_operativos_i.Domain.{ReceivedJob, job_callbacks}
use tp_sistemas_operativos_i.ResourceQueue.Waiting.{Blocked, drain_list-Blocked}
use tp_sistemas_operativos_i.Server.Conservation.{queue-set_queue}
use tp_sistemas_operativos_i.Server.Ledger.{same}
use tp_sistemas_operativos_i.Server.Progress.{IsDrained}
use tp_sistemas_operativos_i.Server.{
  Resource, cpu, mem, gpu, Server, Peers, queue, set_queue, amount, drained_queue, granted_on,
  granted_message,
}
use tp_sistemas_operativos_i.Server.Workers.{
  Task, reserving, releasing, giving, draining, granting, inserting, answering, idle, reservation,
  set_table, after_sweep, advance, Call, reserve, release, begin, World, Turn, calls, works, Action,
  act, action, turn, run_turns,
}

abbrev holds : Resource → List Resource → Bool
holds k [] = false
holds k (r ∷ rs) = same r k || holds k rs

-- The worker is still to drain queue `k`.
unfoldable pub will_drain : Resource → Task → Bool
will_drain k (reserving resource job_id a fd) = false
will_drain k (releasing fd) = false
will_drain k (giving rs jobs) = true
will_drain k (draining rs) = holds k rs
will_drain k (granting r ready rs) = holds k rs
will_drain k (inserting r req address found ready rs) = holds k rs
will_drain k (answering r req ready rs) = holds k rs

-- No head of queue `k` fits.
abbrev pub Still : Resource → Server → Type 0
Still k s = Blocked amount (queue s k).resources_left (queue s k).waiting

abbrev Settles : Resource → Task → Server → Type 0
Settles k t s = Still k s ⊎ (will_drain k t ≡ true)

-- A write outside the queues.
Still-table :
    (k : Resource) (s : Server) (t : HashTable ReceivedJob) → Still k s → Still k (set_table s t)
Still-table cpu s t h = h
Still-table mem s t h = h
Still-table gpu s t h = h

Still-trace :
    (k : Resource) (s : Server) (t : List Effect) → Still k s → Still k (record s { trace = t })
Still-trace cpu s t h = h
Still-trace mem s t h = h
Still-trace gpu s t h = h

map-left {ℓ} : {A B C : Type ℓ} → (A → B) → A ⊎ C → B ⊎ C
map-left f (inl a) = inl (f a)
map-left f (inr c) = inr c

drain-all : (k : Resource) → holds k (cpu ∷ mem ∷ gpu ∷ []) ≡ true
drain-all cpu = refl
drain-all mem = refl
drain-all gpu = refl

map-right {ℓ} : {A B C : Type ℓ} → (B → C) → A ⊎ B → A ⊎ C
map-right f (inl a) = inl a
map-right f (inr b) = inr (f b)

swept-Settles :
    (k : Resource) (s : Server) (t : HashTable ReceivedJob) (jobs : List ReceivedJob)
    → Still k s ⊎ (false ≡ true)
    → Settles k (after_sweep jobs) (set_table s t)
unfolding will_drain
swept-Settles k s t [] h = map-left (Still-table k s t) h
swept-Settles k s t (j ∷ js) h = inr refl

drained-Settles :
    (k r : Resource) (rs : List Resource) (s : Server)
    → Still k s ⊎ (holds k (r ∷ rs) ≡ true)
    → Still k (set_queue s r (drained_queue (queue s r))) ⊎ (holds k rs ≡ true)
drained-Settles k r rs s h = elim (Bool-cases (same r k)) [
  | inl own ↦ inl (
      rw (queue-set_queue s r k (drained_queue (queue s r)), own)
        (drain_list-Blocked amount (queue s r).resources_left (queue s r).waiting []))
  | inr other ↦ elim h [
    | inl still ↦ inl (rw (queue-set_queue s r k (drained_queue (queue s r)), other) still)
    | inr later ↦ inr (rw other at later)
  ]
]

-- A step of a worker leaves a head that fits only where the worker is to drain the queue.
advance-Settles :
    (peer : Peers) (t : Task) (s : Server) (k : Resource)
    → Settles k t s
    → Settles k (advance peer t s).0 (advance peer t s).1
unfolding advance will_drain
advance-Settles peer (reserving resource id a fd) s k h = inr (drain-all k)
advance-Settles peer (releasing fd) s k h =
    let o = sweep (granted_on fd) s.table_nodejobs in swept-Settles k s o.table o.destroyed h
advance-Settles peer (giving [] jobs) s k h = inr (drain-all k)
advance-Settles peer (giving (r ∷ rs) jobs) s k h = inr refl
advance-Settles peer (draining []) s k h = h
advance-Settles peer (draining (r ∷ rs)) s k h = drained-Settles k r rs s h
advance-Settles peer (granting r [] rs) s k h = h
advance-Settles peer (granting r (req ∷ ready) rs) s k h = h
advance-Settles peer (inserting r req address found ready rs) s k h =
    let o = tablahash_insert job_callbacks s.table_nodejobs (reservation r req address found) in
    map-left (Still-table k s o.table) h
advance-Settles peer (answering r req ready rs) s k h =
    map-left (Still-trace k s (sent req.origin_socket (granted_message req.job_id) ∷ s.trace)) h

begin-will_drain :
    (c : Call) (t : Task) (k : Resource) → will_drain k t ≡ true → will_drain k (begin c t) ≡ true
unfolding begin will_drain
begin-will_drain (reserve resource job_id a fd) (draining []) k h = h
begin-will_drain (release fd) (draining []) k h = h
begin-will_drain c t k h = h

-- Some worker is still to drain queue `k`.
abbrev AnyDrains : Resource → List Task → Type 0
AnyDrains k [] = ⊥
AnyDrains k (t ∷ ts) = (will_drain k t ≡ true) ⊎ AnyDrains k ts

module _ (k : Resource) (a : Action)
    (step : (t : Task) (s : Server) → Settles k t s → Settles k (a t s).0 (a t s).1) where
  act-Settles :
      (i : ℕ) (ts : List Task) (s : Server)
      → Still k s ⊎ AnyDrains k ts
      → Still k (act i a ts s).1 ⊎ AnyDrains k (act i a ts s).0
  unfolding act
  act-Settles i [] s h = h
  act-Settles zero (t ∷ ts) s (inl still) = map-right inl (step t s (inl still))
  act-Settles zero (t ∷ ts) s (inr (inl now)) = map-right inl (step t s (inr now))
  act-Settles zero (t ∷ ts) s (inr (inr later)) = inr (inr later)
  act-Settles (suc i) (t ∷ ts) s (inl still) = map-right inr (act-Settles i ts s (inl still))
  act-Settles (suc i) (t ∷ ts) s (inr (inl now)) = inr (inl now)
  act-Settles (suc i) (t ∷ ts) s (inr (inr later)) = map-right inr (act-Settles i ts s (inr later))

turn-Settles :
    (w : World) (t : Turn) (k : Resource)
    → Still k w.server ⊎ AnyDrains k w.tasks
    → Still k (turn w t).server ⊎ AnyDrains k (turn w t).tasks
unfolding turn action
turn-Settles w (calls i c) k h =
    act-Settles k (action (calls i c)) (λ t s. map-right (begin-will_drain c t k)) i w.tasks
      w.server h
turn-Settles w (works i peer) k h =
    act-Settles k (action (works i peer)) (λ t s. advance-Settles peer t s k) i w.tasks w.server h

run_turns-Settles :
    (w : World) (ts : List Turn) (k : Resource)
    → Still k w.server ⊎ AnyDrains k w.tasks
    → Still k (run_turns w ts).server ⊎ AnyDrains k (run_turns w ts).tasks
unfolding run_turns
run_turns-Settles w [] k h = h
run_turns-Settles w (t ∷ ts) k h = run_turns-Settles (turn w t) ts k (turn-Settles w t k h)

abbrev pub AllIdle : World → Type 0
AllIdle w = All (λ t. t ≡ idle) w.tasks

idle-will_drain : (k : Resource) (t : Task) → t ≡ idle → ¬ (will_drain k t ≡ true)
unfolding will_drain
idle-will_drain k t e now = cc

none-drains : (k : Resource) (ts : List Task) → All (λ t. t ≡ idle) ts → ¬ AnyDrains k ts
none-drains k [] e h = h
none-drains k (t ∷ ts) e (inl now) = idle-will_drain k t e.0 now
none-drains k (t ∷ ts) e (inr later) = none-drains k ts e.1 later

settled :
    (k : Resource) (w : World)
    → AllIdle w
    → Still k w.server ⊎ AnyDrains k w.tasks
    → Still k w.server
settled k w e (inl still) = still
settled k w e (inr later) = absurd (none-drains k w.tasks e later)

-- However any number of workers interleave, from queues that are drained: whenever every worker is
-- done with its calls, each queue is empty or its head asks for more than is free.
pub run_turns-IsDrained :
    (w : World) (ts : List Turn)
    → IsDrained w.server
    → AllIdle (run_turns w ts)
    → IsDrained (run_turns w ts).server
run_turns-IsDrained w ts h e k = settled k (run_turns w ts) e (run_turns-Settles w ts k (inl (h k)))
