-- ===== src/Server/Workers/Bounds.antt =====
-- What is free and what is granted stay in their bounds while the workers of Server.Workers interleave.
use tp_sistemas_operativos_i.Prelude.{◌≡◌, ap, ◌∙◌, List, [], ◌∷◌, All, arith, Bool-cases, inl, inr}
use tp_sistemas_operativos_i.Prelude.Int.{
  ℤ, pos, pos_part, neg_part, ◌+ℤ◌, ◌≤ℤ◌, sum_ℤ, int_laws, eq_of_parts,
}
use tp_sistemas_operativos_i.HashTable.Every.{sum_ℤ-nonneg, total-nonneg}
use tp_sistemas_operativos_i.Domain.{ReceivedJob}
use tp_sistemas_operativos_i.ResourceQueue.{Request}
use tp_sistemas_operativos_i.Server.Bounds.{IsNonneg-granted, start-IsSafe, start-ledger}
use tp_sistemas_operativos_i.Server.Calls.{start-IsSound}
use tp_sistemas_operativos_i.Server.Ledger.{granted_of, granted_total, credit, same}
use tp_sistemas_operativos_i.Server.Safety.{IsNonneg, Asks, IsSafe}
use tp_sistemas_operativos_i.Server.{Resource, queue, amount, capacity}
use tp_sistemas_operativos_i.Server.Workers.{
  Task, reserving, releasing, giving, draining, granting, inserting, answering, Call, reserve,
  release, begin, World, Turn, calls, works, action, turn, run_turns, start_workers,
}
use tp_sistemas_operativos_i.Server.Workers.Accounts.{owed, held}
use tp_sistemas_operativos_i.Server.Workers.Books.{IsSoundWorld, books, total_slip, run_turns-books}
use tp_sistemas_operativos_i.Server.Workers.Keeping.{act-Keeps}
use tp_sistemas_operativos_i.Server.Workers.Safety.{
  IsSafeTask, IsFairCall, IsFairTurn, granted-nonneg, advance-IsSafe,
}

credit-nonneg : (r k : Resource) (a : ℤ) → pos 0 ≤ℤ a → pos 0 ≤ℤ credit r k a
credit-nonneg r k a h = elim (Bool-cases (same r k)) [
  | inl own ↦ rw own h
  | inr other ↦ rw other (omega arith)
]

owed-nonneg :
    (k : Resource) (rs : List Resource) (jobs : List ReceivedJob)
    → All IsNonneg jobs
    → pos 0 ≤ℤ owed k rs jobs
unfolding owed
owed-nonneg k [] jobs h = omega arith
owed-nonneg k (r ∷ rs) jobs h =
    let one = credit-nonneg r k (sum_ℤ (granted_of r) jobs) (granted-nonneg r jobs h) in
    let rest = owed-nonneg k rs jobs h in omega (int_laws, one, rest)

asked-nonneg : (ready : List Request) → All Asks ready → pos 0 ≤ℤ sum_ℤ amount ready
asked-nonneg ready h = sum_ℤ-nonneg Asks amount ready (λ r p. p) h

-- What is owed to a queue, and what waits to be recorded, is not negative.
held-nonneg : (k : Resource) (t : Task) → IsSafeTask t → pos 0 ≤ℤ held k t
unfolding held
held-nonneg k (reserving resource id a fd) h = omega arith
held-nonneg k (releasing fd) h = omega arith
held-nonneg k (giving rs jobs) h = owed-nonneg k rs jobs h
held-nonneg k (draining rs) h = omega arith
held-nonneg k (granting r ready rs) h = credit-nonneg r k _ (asked-nonneg ready h)
held-nonneg k (inserting r req address found ready rs) h =
    let rest = asked-nonneg ready h.2 in credit-nonneg r k _ (omega (int_laws, h.0, rest))
held-nonneg k (answering r req ready rs) h = credit-nonneg r k _ (asked-nonneg ready h)

begin-IsSafeTask : (c : Call) (t : Task) → IsFairCall c → IsSafeTask t → IsSafeTask (begin c t)
unfolding begin
begin-IsSafeTask (reserve resource id a fd) (draining []) f h = f
begin-IsSafeTask (release fd) (draining []) f h = tt
begin-IsSafeTask c t f h = h

pub record IsSafeWorld (w : World) : Type 0 where
  pub safe : IsSafe w.server
  pub tasks : All IsSafeTask w.tasks

turn-IsSafe : (w : World) (t : Turn) → IsFairTurn t → IsSafeWorld w → IsSafeWorld (turn w t)
unfolding turn action
turn-IsSafe w (calls i c) f v =
    let (s, h) =
      act-Keeps IsSafe IsSafeTask (action (calls i c)) (λ t s v h. (v, begin-IsSafeTask c t f h)) i
        w.tasks w.server v.safe v.tasks in
    record { safe = s; tasks = h }
turn-IsSafe w (works i peer) f v =
    let (s, h) =
      act-Keeps IsSafe IsSafeTask (action (works i peer)) (advance-IsSafe peer) i w.tasks w.server
        v.safe v.tasks in
    record { safe = s; tasks = h }

run_turns-IsSafe :
    (w : World) (ts : List Turn) → All IsFairTurn ts → IsSafeWorld w → IsSafeWorld (run_turns w ts)
unfolding run_turns
run_turns-IsSafe w [] f v = v
run_turns-IsSafe w (t ∷ ts) f v = run_turns-IsSafe (turn w t) ts f.1 (turn-IsSafe w t f.0 v)

start-IsSafeWorld : IsSafeWorld start_workers
unfolding start_workers
start-IsSafeWorld = record { safe = start-IsSafe; tasks = omega arith }

pub start-IsSoundWorld : IsSoundWorld start_workers
unfolding start_workers
start-IsSoundWorld = record { sound = start-IsSound; keyed = omega arith }

start-books : (k : Resource) → books start_workers k ≡ capacity k
unfolding start_workers held sum_ℤ
start-books k =
    let e = start-ledger k in eq_of_parts _ _ (omega (int_laws, ap pos_part e, ap neg_part e))

-- However the four workers interleave from the start, while no RESERVE asks for a negative amount: what
-- is free of a resource and what is granted of it are never negative, and together with the slips of
-- the insertions they do not exceed the capacity of the node.
pub run_turns-bounds :
    (ts : List Turn) (k : Resource)
    → All IsFairTurn ts
    → let w = run_turns start_workers ts in
      (pos 0 ≤ℤ (queue w.server k).resources_left)
      × (pos 0 ≤ℤ granted_total w.server k)
      × ((queue w.server k).resources_left
            +ℤ granted_total w.server k
            +ℤ total_slip k start_workers ts
          ≤ℤ capacity k)
run_turns-bounds ts k f =
    let w = run_turns start_workers ts in
    let v = run_turns-IsSafe start_workers ts f start-IsSafeWorld in
    let e = run_turns-books start_workers ts k start-IsSoundWorld ∙ start-books k in
    let others = sum_ℤ-nonneg IsSafeTask (held k) w.tasks (held-nonneg k) v.tasks in
    let granted : pos 0 ≤ℤ granted_total w.server k =
      total-nonneg IsNonneg (granted_of k) w.server.table_nodejobs (IsNonneg-granted k)
        v.safe.table in
    ((v.safe.queues k).0, granted, omega (int_laws, ap pos_part e, ap neg_part e, others))
