-- ===== src/Server/Workers/Books.antt =====
-- The books of each resource while the workers of Server.Workers interleave.
use tp_sistemas_operativos_i.Prelude.{ℕ, zero, suc, ◌≡◌, refl, ap, List, [], ◌∷◌, All, get_or}
use tp_sistemas_operativos_i.Prelude.Int.{ℤ, pos, pos_part, neg_part, ◌+ℤ◌, sum_ℤ, int_laws}
use tp_sistemas_operativos_i.Server.Conservation.{IsSound}
use tp_sistemas_operativos_i.Server.Ledger.{ledger}
use tp_sistemas_operativos_i.Server.{Resource, Server}
use tp_sistemas_operativos_i.Server.Workers.{
  Task, draining, idle, Call, reserve, release, begin, World, Turn, calls, works, Action, act,
  action, turn, run_turns,
}
use tp_sistemas_operativos_i.Server.Workers.Keeping.{act-Keeps}
use tp_sistemas_operativos_i.Server.Workers.Steps.{advance-IsSound, advance-books}
use tp_sistemas_operativos_i.Server.Workers.Accounts.{held, slip, HasKey}

-- What every worker holds, with the ledger.
abbrev pub books : World → Resource → ℤ
books w k = ledger w.server k +ℤ sum_ℤ (held k) w.tasks

-- What a turn takes off the books.
abbrev pub turn_slip : Resource → World → Turn → ℤ
turn_slip k w (calls i c) = pos 0
turn_slip k w (works i peer) = slip k (get_or w.tasks i idle) w.server

unfoldable pub total_slip : Resource → World → List Turn → ℤ
total_slip k w [] = pos 0
total_slip k w (t ∷ ts) = turn_slip k w t +ℤ total_slip k (turn w t) ts

-- The table is well formed, and every worker between a search and an insertion holds what is under the
-- key.
pub record IsSoundWorld (w : World) : Type 0 where
  pub sound : IsSound w.server
  pub keyed : All HasKey w.tasks

-- An action that balances each task balances the list.
act-books :
    (k : Resource) (i : ℕ) (a : Action) (lost : Task → Server → ℤ)
    → ((t : Task) (s : Server)
        → IsSound s
        → HasKey t
        → ledger (a t s).1 k +ℤ held k (a t s).0 +ℤ lost t s ≡ ledger s k +ℤ held k t)
    → ((s : Server) → lost idle s ≡ pos 0)
    → (ts : List Task) (s : Server) → IsSound s
    → All HasKey ts
    → ledger (act i a ts s).1 k +ℤ sum_ℤ (held k) (act i a ts s).0 +ℤ lost (get_or ts i idle) s
      ≡ ledger s k +ℤ sum_ℤ (held k) ts
unfolding act sum_ℤ
act-books k i a lost step still [] s v h =
    let e = still s in omega (int_laws, ap pos_part e, ap neg_part e)
act-books k zero a lost step still (t ∷ ts) s v h =
    let e = step t s v h.0 in omega (int_laws, ap pos_part e, ap neg_part e)
act-books k (suc i) a lost step still (t ∷ ts) s v h =
    let e = act-books k i a lost step still ts s v h.1 in
    omega (int_laws, ap pos_part e, ap neg_part e)

begin-HasKey : (c : Call) (t : Task) → HasKey t → HasKey (begin c t)
unfolding begin
begin-HasKey (reserve resource job_id a fd) (draining []) h = tt
begin-HasKey (release fd) (draining []) h = tt
begin-HasKey c t h = h

begin-held :
    (c : Call) (t : Task) (s : Server) (k : Resource)
    → ledger s k +ℤ held k (begin c t) +ℤ pos 0 ≡ ledger s k +ℤ held k t
unfolding begin held
begin-held (reserve resource job_id a fd) (draining []) s k = omega int_laws
begin-held (release fd) (draining []) s k = omega int_laws
begin-held c t s k = omega int_laws

idle-slip : (k : Resource) (s : Server) → slip k idle s ≡ pos 0
unfolding slip
idle-slip k s = refl

pub turn-IsSound : (w : World) (t : Turn) → IsSoundWorld w → IsSoundWorld (turn w t)
unfolding turn action
turn-IsSound w (calls i c) v =
    let (s, h) =
      act-Keeps IsSound HasKey (action (calls i c)) (λ t s v h. (v, begin-HasKey c t h)) i w.tasks
        w.server v.sound v.keyed in
    record { sound = s; keyed = h }
turn-IsSound w (works i peer) v =
    let (s, h) =
      act-Keeps IsSound HasKey (action (works i peer)) (λ t s v h. advance-IsSound peer t s v) i
        w.tasks w.server v.sound v.keyed in
    record { sound = s; keyed = h }

turn-books :
    (w : World) (t : Turn) (k : Resource)
    → IsSoundWorld w
    → books (turn w t) k +ℤ turn_slip k w t ≡ books w k
unfolding turn action
turn-books w (calls i c) k v =
    act-books k i (action (calls i c)) (λ t s. pos 0) (λ t s v h. begin-held c t s k) (λ s. refl)
      w.tasks w.server v.sound v.keyed
turn-books w (works i peer) k v =
    act-books k i (action (works i peer)) (slip k) (λ t s v h. advance-books peer t s k v h)
      (idle-slip k) w.tasks w.server v.sound v.keyed

-- However any number of workers interleave, from a state in which the table is well formed and what
-- each search has found is under its key: what is free, what is granted and what the workers hold of
-- a resource stay as they were together, but for the slips: for each insertion of `record_granted`,
-- what the table held under the key by then, less what the search before it had found there.
pub run_turns-books :
    (w : World) (ts : List Turn) (k : Resource)
    → IsSoundWorld w
    → books (run_turns w ts) k +ℤ total_slip k w ts ≡ books w k
unfolding run_turns total_slip
run_turns-books w [] k v = omega int_laws
run_turns-books w (t ∷ ts) k v =
    let one = turn-books w t k v in
    let rest = run_turns-books (turn w t) ts k (turn-IsSound w t v) in
    omega (int_laws, ap pos_part one, ap neg_part one, ap pos_part rest, ap neg_part rest)

pub run_turns-IsSound :
    (w : World) (ts : List Turn) → IsSoundWorld w → IsSoundWorld (run_turns w ts)
unfolding run_turns
run_turns-IsSound w [] v = v
run_turns-IsSound w (t ∷ ts) v = run_turns-IsSound (turn w t) ts (turn-IsSound w t v)
