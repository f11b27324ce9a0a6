-- ===== src/Handlers/Returns.antt =====
-- The handlers of agent/loopfunc.c return: once the socket has no more bytes, their loops end.
use tp_sistemas_operativos_i.Prelude.{
  ℕ, zero, suc, sym, ◌∙◌, ◌+◌, ◌≤◌, ◌<◌, ◌≡◌, refl, List, Option, some, arith, length,
}
use tp_sistemas_operativos_i.Prelude.Int.{ℤ, pos_part}
use tp_sistemas_operativos_i.Framing.{
  Connections, Status, line, incomplete, gone, read_until_newline, buffer_len,
}
use tp_sistemas_operativos_i.Framing.Shapes.{Holds}
use tp_sistemas_operativos_i.Framing.Lines.{RecvFits}
use tp_sistemas_operativos_i.Client.{Agent, Env}
use tp_sistemas_operativos_i.Client.Ownership.{IsConsistent}
use tp_sistemas_operativos_i.Client.Freeing.{Continues}
use tp_sistemas_operativos_i.Handlers.{World, Turn, Handled, finished, read_lines}
use tp_sistemas_operativos_i.Handlers.Reading.{
  Held, IsQuiet, Shrinks, read_until_newline-Held, read_until_newline-Shrinks,
}

-- The tables of the jobs are consistent, and the buffers well formed.
pub record IsSound (w : World) : Type 0 where
  pub consistent : IsConsistent w.agent
  pub held : Held w.connections

-- The handler returns, and what it leaves is sound.
abbrev pub Returns : Handled → Type 0
Returns h = (w : World) × (h ≡ finished w) × IsSound w

-- Each turn's `recv` returns no more than it is given space for, and none from turn `quiet` on.
pub record Arrives (turns : ℕ → Turn) (quiet : ℕ) : Type 0 where
  pub fits : (k : ℕ) → RecvFits (turns k).recv
  pub ends : (k : ℕ) → quiet ≤ k → IsQuiet (turns k).recv

line-injective : (l l' : List ℕ) → line l ≡ line l' → l ≡ l'
line-injective l l' e = cc

module _ (handle : Env → List ℕ → Agent → Option Agent) (conclude : Status → World → Handled)
    (Allowed : Env → List ℕ → Agent → Type 0) where
  -- Each line that the loop hands over is allowed when it arrives.
  unfoldable pub Admits : ℕ → (ℕ → Turn) → ℤ → World → Type 0
  Admits zero turns fd w = Unit {0}
  Admits (suc n) turns fd w =
      (l : List ℕ)
      → (read_until_newline fd (turns 0).recv w.connections).0 ≡ line l
      → Allowed (turns 0).env l w.agent
        × ((a : Agent)
            → handle (turns 0).env l w.agent ≡ some a
            → Admits n (λ k. turns (suc k)) fd
                (record {
                  agent = a;
                  connections = (read_until_newline fd (turns 0).recv w.connections).1;
                }))

  -- No line is there.
  pub Admits-incomplete :
      (n : ℕ) (turns : ℕ → Turn) (fd : ℤ) (w : World)
      → (read_until_newline fd (turns 0).recv w.connections).0 ≡ incomplete
      → Admits n turns fd w
  unfolding Admits
  Admits-incomplete zero turns fd w e = tt
  Admits-incomplete (suc n) turns fd w e =
      λ l e'. absurd (let e'' : incomplete ≡ line l = sym e ∙ e' in cc)

  -- One line is there, and it is allowed.
  pub Admits-line :
      (n : ℕ) (turns : ℕ → Turn) (fd : ℤ) (w : World) (l : List ℕ)
      → (read_until_newline fd (turns 0).recv w.connections).0 ≡ line l
      → Allowed (turns 0).env l w.agent
      → ((a : Agent)
          → Admits n
              (λ k. turns (suc k))
              fd
              (record {
                agent = a;
                connections = (read_until_newline fd (turns 0).recv w.connections).1;
              }))
      → Admits (suc n) turns fd w
  unfolding Admits
  Admits-line n turns fd w l e allowed next l' e' =
      let same = line-injective l l' (sym e ∙ e') in (rw (← same) allowed, λ a live. next a)

  module _
      (kept : (env : Env) (l : List ℕ) (a : Agent)
        → Allowed env l a
        → IsConsistent a
        → Continues (handle env l a))
      (ended : (status : Status) (w : World) → IsSound w → Returns (conclude status w)) where
    -- One call of `read_until_newline`, and the rest of the loop.
    read_lines-step :
        (n : ℕ) (turns : ℕ → Turn) (fd : ℤ) (w : World)
        → RecvFits (turns 0).recv
        → IsSound w
        → Admits (suc n) turns fd w
        → ((w' : World)
            → IsSound w'
            → Shrinks fd (turns 0).recv w.connections w'.connections
            → Admits n (λ k. turns (suc k)) fd w'
            → Returns (read_lines handle conclude n (λ k. turns (suc k)) fd w'))
        → Returns (read_lines handle conclude (suc n) turns fd w)
    unfolding read_lines Admits
    read_lines-step n turns fd w fits v admits rest =
        ending (read_until_newline fd (turns 0).recv w.connections).0 refl
      where
        cs : Connections
        cs = (read_until_newline fd (turns 0).recv w.connections).1

        held : Held cs
        held = read_until_newline-Held fd (turns 0).recv w.connections fits v.held

        ending :
            (status : Status)
            → (read_until_newline fd (turns 0).recv w.connections).0 ≡ status
            → Returns (read_lines handle conclude (suc n) turns fd w)
        ending incomplete e =
            rw (e, read_lines)
              (ended incomplete (record w { connections = cs })
                (record { consistent = v.consistent; held = held }))
        ending gone e =
            rw (e, read_lines)
              (ended gone (record w { connections = cs })
                (record { consistent = v.consistent; held = held }))
        ending (line l) e =
            let (allowed, next) = admits l e in
            let (a, live, c) = kept (turns 0).env l w.agent allowed v.consistent in
            rw (e, live, read_lines)
              (rest (record { agent = a; connections = cs })
                (record { consistent = c; held = held })
                (read_until_newline-Shrinks fd (turns 0).recv w.connections l fits e) (next a live))

    -- Nothing arrives any more: each line leaves less in the buffer.
    read_lines-quiet :
        (n : ℕ) (turns : ℕ → Turn) (fd : ℤ) (w : World) (bytes : List ℕ)
        → Arrives turns 0
        → IsSound w
        → Holds (w.connections (pos_part fd)) bytes
        → length bytes < n
        → Admits n turns fd w
        → Returns (read_lines handle conclude n turns fd w)
    read_lines-quiet zero turns fd w bytes quiet v h enough admits = absurd (omega arith)
    read_lines-quiet (suc n) turns fd w bytes quiet v h enough admits =
        read_lines-step n turns fd w (quiet.fits 0) v admits (λ w' v' shrinks admits'.
          let (bytes', h', less) = shrinks bytes h in
          read_lines-quiet n (λ k. turns (suc k)) fd w' bytes'
            (record {
              fits = λ k. quiet.fits (suc k);
              ends = λ k le. quiet.ends (suc k) (omega arith);
            })
            v' h' (omega (arith, less (quiet.ends 0 (omega arith)), enough)) admits')

    pub read_lines-Returns :
        (quiet n : ℕ) (turns : ℕ → Turn) (fd : ℤ) (w : World)
        → Arrives turns quiet
        → quiet + buffer_len ≤ n
        → IsSound w
        → Admits n turns fd w
        → Returns (read_lines handle conclude n turns fd w)
    read_lines-Returns zero n turns fd w arrives enough v admits =
        let (bytes, h) = v.held (pos_part fd) in
        read_lines-quiet n turns fd w bytes arrives v h (omega (arith, h.fits, enough)) admits
    read_lines-Returns (suc quiet) zero turns fd w arrives enough v admits =
        absurd (omega (arith, enough))
    read_lines-Returns (suc quiet) (suc n) turns fd w arrives enough v admits =
        read_lines-step n turns fd w (arrives.fits 0) v admits (λ w' v' shrinks admits'.
          read_lines-Returns quiet n (λ k. turns (suc k)) fd w'
            (record {
              fits = λ k. arrives.fits (suc k);
              ends = λ k le. arrives.ends (suc k) (omega (arith, le));
            })
            (omega (arith, enough)) v' admits')
