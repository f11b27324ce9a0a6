-- ===== src/Wire/Messages.antt =====
-- The lines that the client side sends: to the scheduler (`C_to_erlang`, agent/communications.c),
-- and to peers (`release_resources`, agent/utils.c, and `send_request`, agent/loopfunc.c).
use tp_sistemas_operativos_i.Prelude.{ℕ, List, [], ◌∷◌, ◌++◌, take}
use tp_sistemas_operativos_i.Prelude.Int.{ℤ}
use tp_sistemas_operativos_i.Prelude.Text.{codes}
use tp_sistemas_operativos_i.Domain.{PendingResource}
use tp_sistemas_operativos_i.Wire.{print_int}

abbrev pub response : List ℕ → List ℕ → List ℕ
response word id = word ++ (id ++ 10 ∷ [])

-- The four answers to the scheduler.
pub data Instruction : Type 0 where
  granted rejected waiting timeout : Instruction

abbrev pub word_of : Instruction → List ℕ
word_of granted = codes "JOB_GRANTED "
word_of rejected = codes "JOB_DENIED "
word_of waiting = codes "WAITING "
word_of timeout = codes "JOB_TIMEOUT "

-- "%s %d %s %d\n" for RELEASE and RESERVE.
abbrev pub request_line : List ℕ → ℤ → PendingResource → List ℕ
request_line word id r =
    word ++ (print_int id ++ (32 ∷ (r.kind ++ (32 ∷ (print_int r.amount ++ 10 ∷ [])))))

-- `snprintf` into an array of `size` bytes, then `strlen`.
unfoldable pub release_message : ℤ → PendingResource → List ℕ
release_message id r = take 127 (request_line (codes "RELEASE ") id r)

unfoldable pub reserve_message : ℤ → PendingResource → List ℕ
reserve_message id r = take 255 (request_line (codes "RESERVE ") id r)
