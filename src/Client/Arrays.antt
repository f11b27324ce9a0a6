-- ===== src/Client/Arrays.antt =====
-- The messages fit into the arrays that they are printed into: `udp_broadcast` and `send_request`
-- (agent/loopfunc.c), `drain_queue` and `release_resources` (agent/utils.c).
use tp_sistemas_operativos_i.Prelude.{
  ℕ, ◌+◌, ◌≤◌, ◌<◌, ◌≡◌, List, [], ◌∷◌, ◌++◌, arith, length, length-append, take_all,
}
use tp_sistemas_operativos_i.Prelude.Int.{ℤ}
use tp_sistemas_operativos_i.Prelude.Text.{codes}
use tp_sistemas_operativos_i.Domain.{PendingResource}
use tp_sistemas_operativos_i.Wire.{print_int}
use tp_sistemas_operativos_i.Wire.Widths.{IsInt, length-print_int}
use tp_sistemas_operativos_i.Wire.Messages.{request_line, reserve_message, release_message}
use tp_sistemas_operativos_i.Nodes.{announce_message}
use tp_sistemas_operativos_i.Server.{granted_message}

-- A text, a printed number, and more text.
length-number :
    (text more : List ℕ) (z : ℤ) (room : ℕ)
    → IsInt z
    → length more ≤ room
    → length (text ++ (print_int z ++ more)) ≤ length text + (11 + room)
length-number text more z room h fits = omega (
  arith,
  length-append {0} text (print_int z ++ more),
  length-append {0} (print_int z) more,
  length-print_int z h,
  fits,
)

length-request_line :
    (word : List ℕ) (id : ℤ) (r : PendingResource)
    → IsInt id
    → IsInt r.amount
    → length r.kind ≤ 7
    → length (request_line word id r) ≤ length word + 32
length-request_line word id r h a k =
    let amount = length-number (32 ∷ []) (10 ∷ []) r.amount 1 a (omega arith) in
    let kind = length-append {0} r.kind (32 ∷ (print_int r.amount ++ 10 ∷ [])) in
    length-number word (32 ∷ (r.kind ++ (32 ∷ (print_int r.amount ++ 10 ∷ [])))) id 21 h
      (omega (arith, amount, kind, k))

length-announce_message :
    (port cpu mem gpu : ℤ)
    → IsInt port
    → IsInt cpu
    → IsInt mem
    → IsInt gpu
    → length (announce_message port cpu mem gpu) ≤ 69
unfolding announce_message
length-announce_message port cpu mem gpu p c m g =
    let last = length-number (codes " gpu:") (10 ∷ []) gpu 1 g (omega arith) in
    let third = length-number (codes " mem:") _ mem 17 m last in
    let second = length-number (codes " cpu:") _ cpu 33 c third in
    length-number (codes "ANNOUNCE ") _ port 49 p second

length-granted_message : (id : ℤ) → IsInt id → length (granted_message id) ≤ 20
unfolding granted_message
length-granted_message id h = length-number (codes "GRANTED ") (10 ∷ []) id 1 h (omega arith)

-- For 32-bit values and a resource name of at most 7 characters, no message to a peer is cut: the
-- announcement and the GRANTED line, with their terminators, fit into their arrays of 126 and 64
-- bytes, and the RESERVE and RELEASE lines are sent whole from their arrays of 256 and 128 bytes.
pub messages_fit :
    (port cpu mem gpu id : ℤ) (r : PendingResource)
    → IsInt port
    → IsInt cpu
    → IsInt mem
    → IsInt gpu
    → IsInt id
    → IsInt r.amount
    → length r.kind ≤ 7
    → (length (announce_message port cpu mem gpu) < 126)
      × (length (granted_message id) < 64)
      × (reserve_message id r ≡ request_line (codes "RESERVE ") id r)
      × (release_message id r ≡ request_line (codes "RELEASE ") id r)
unfolding reserve_message release_message
messages_fit port cpu mem gpu id r p c m g h a k = (
  omega (arith, length-announce_message port cpu mem gpu p c m g),
  omega (arith, length-granted_message id h),
  take_all 255 (request_line (codes "RESERVE ") id r)
      (omega (arith, length-request_line (codes "RESERVE ") id r h a k)),
  take_all 127 (request_line (codes "RELEASE ") id r)
      (omega (arith, length-request_line (codes "RELEASE ") id r h a k)),
)
