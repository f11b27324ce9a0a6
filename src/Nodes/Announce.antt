-- ===== src/Nodes/Announce.antt =====
-- A datagram that a peer broadcasts is read back as the peer meant it, and silence of 15 seconds
-- takes a peer out of the directory.
use tp_sistemas_operativos_i.Prelude.{
  ℕ, ◌<◌, ◌≡◌, refl, sym, ap, List, [], ◌∷◌, ◌++◌, true, false, none, some, arith, ◌==◌,
  if◌then◌else◌, length, take_all, All, All-append,
}
use tp_sistemas_operativos_i.Prelude.Int.{ℤ, ◌-ℤ◌, leb_ℤ, eq_ℤ_iff}
use tp_sistemas_operativos_i.Prelude.Text.{codes}
use tp_sistemas_operativos_i.HashTable.{HashTable, tablahash_find, tablahash_insert}
use tp_sistemas_operativos_i.HashTable.Valid.{IsValid, insert-IsValid}
use tp_sistemas_operativos_i.HashTable.Lookup.{find-insert}
use tp_sistemas_operativos_i.Domain.Keys.{node_callbacks-IsKeyed}
use tp_sistemas_operativos_i.HashTable.Sweep.{find-sweep}
use tp_sistemas_operativos_i.Domain.{ReceivedNode, node_callbacks, comp_node}
use tp_sistemas_operativos_i.Wire.{print_int, atoi, get_token, get_quantity}
use tp_sistemas_operativos_i.Wire.Decimal.{atoi-print_int}
use tp_sistemas_operativos_i.Wire.Numerals.{
  IsByte, int-IsByte, print_int-IsWord, append-IsWord, get_quantity-print_int,
}
use tp_sistemas_operativos_i.Wire.Tokens.{line_of, get_token-line_of, until-All}
use tp_sistemas_operativos_i.Nodes.{
  announce_message, udp_datagram_from_remote, is_stale, check_nodes_timeouts, node_timeout_sec,
}

announce-bytes : (port cpu mem gpu : ℤ) → All IsByte (announce_message port cpu mem gpu)
unfolding announce_message
announce-bytes port cpu mem gpu = All-append IsByte (codes "ANNOUNCE ") _ (ground arith) (
    int-IsByte port _ (
      All-append IsByte (codes " cpu:") _ (ground arith) (
        int-IsByte cpu _ (
          All-append IsByte (codes " mem:") _ (ground arith) (
            int-IsByte mem _ (
              All-append IsByte (codes " gpu:") _ (ground arith)
                (int-IsByte gpu (10 ∷ []) (ground arith))))))))

abbrev words : ℤ → ℤ → ℤ → ℤ → List (List ℕ)
words port cpu mem gpu =
    codes "ANNOUNCE"
    ∷ print_int port
    ∷ (codes "cpu:" ++ print_int cpu)
    ∷ (codes "mem:" ++ print_int mem)
    ∷ (codes "gpu:" ++ print_int gpu)
    ∷ []

announce-line :
    (port cpu mem gpu : ℤ) → announce_message port cpu mem gpu ≡ line_of (words port cpu mem gpu)
unfolding announce_message line_of
announce-line port cpu mem gpu = refl

-- The peer that a datagram announces.
abbrev pub announced_node : ℤ → ℤ → ℤ → ℤ → ℤ → ℤ → ReceivedNode
announced_node sender now port cpu mem gpu = record {
  ip = sender;
  port = port;
  gpu = gpu;
  mem = mem;
  cpu = cpu;
  time = now;
}

announce_pos : (port cpu mem gpu : ℤ) → 0 < length (announce_message port cpu mem gpu)
unfolding announce_message
announce_pos port cpu mem gpu = omega arith

announce-tokens :
    (port cpu mem gpu : ℤ)
    → get_token (announce_message port cpu mem gpu) 10 ≡ words port cpu mem gpu
announce-tokens port cpu mem gpu = rw (announce-line port cpu mem gpu) (
    get_token-line_of (words port cpu mem gpu) 10 (
      ground arith,
      (
        print_int-IsWord port,
        (
          append-IsWord (codes "cpu:") cpu (ground arith),
          (
            append-IsWord (codes "mem:") mem (ground arith),
            (append-IsWord (codes "gpu:") gpu (ground arith), tt),
          ),
        ),
      ),
    ))

parsed-node :
    (port cpu mem gpu sender now : ℤ)
    → record {
      ip = sender;
      port = atoi (print_int port);
      gpu = get_quantity (codes "gpu:" ++ print_int gpu);
      mem = get_quantity (codes "mem:" ++ print_int mem);
      cpu = get_quantity (codes "cpu:" ++ print_int cpu);
      time = now;
    }
      ≡ announced_node sender now port cpu mem gpu
parsed-node port cpu mem gpu sender now = rw (
  atoi-print_int port,
  get_quantity-print_int (codes "gpu") gpu (ground arith),
  get_quantity-print_int (codes "mem") mem (ground arith),
  get_quantity-print_int (codes "cpu") cpu (ground arith),
)

-- A peer's broadcast that fits in its array of 126 bytes, received, stores the peer under the
-- sender's address with the port and the quantities that it announced and the time of the arrival.
pub udp_datagram-announce_message :
    (port cpu mem gpu sender now : ℤ) (t : HashTable ReceivedNode)
    → length (announce_message port cpu mem gpu) < 126
    → udp_datagram_from_remote (some (announce_message port cpu mem gpu, sender)) now t
      ≡ (tablahash_insert node_callbacks t (announced_node sender now port cpu mem gpu)).table
unfolding udp_datagram_from_remote
udp_datagram-announce_message port cpu mem gpu sender now t h =
    let message = announce_message port cpu mem gpu in
    let nonempty : (length message == 0) ≡ false = ground (arith, announce_pos port cpu mem gpu) in
    let text = until-All (λ c. c == 0) message (announce-bytes port cpu mem gpu) in
    let copy = take_all 1023 message (omega arith) in
    let tokens = announce-tokens port cpu mem gpu in
    rw (nonempty, text, copy, tokens)
      (ap (λ (n : ReceivedNode). (tablahash_insert node_callbacks t n).table)
        (parsed-node port cpu mem gpu sender now))

same-node : (a b : ReceivedNode) → a.ip ≡ b.ip → (comp_node a b == 0) ≡ true
unfolding comp_node
same-node a b e = ground (arith, (eq_ℤ_iff a.ip b.ip).1 e)

-- In a well-formed directory, a peer whose broadcast (it fits in its array) was heard at `heard` is
-- still there after a check at `now` exactly if less than 15 seconds have passed; then it is found
-- with what it announced.
pub check_nodes_timeouts-announce :
    (port cpu mem gpu sender heard now : ℤ) (t : HashTable ReceivedNode) (q : ReceivedNode)
    → length (announce_message port cpu mem gpu) < 126
    → IsValid node_callbacks t
    → q.ip ≡ sender
    → tablahash_find node_callbacks
        (check_nodes_timeouts now
          (udp_datagram_from_remote (some (announce_message port cpu mem gpu, sender)) heard t))
        q
      ≡ (if leb_ℤ node_timeout_sec (now -ℤ heard)
          then none
          else some (announced_node sender heard port cpu mem gpu))
unfolding check_nodes_timeouts
check_nodes_timeouts-announce port cpu mem gpu sender heard now t q h v e =
    let node = announced_node sender heard port cpu mem gpu in
    let t' = (tablahash_insert node_callbacks t node).table in
    let same : (comp_node node q == 0) ≡ true = same-node node q (sym e) in
    rw
      (
        udp_datagram-announce_message port cpu mem gpu sender heard t h,
        find-sweep (is_stale now) node_callbacks t' q
            (insert-IsValid node_callbacks node_callbacks-IsKeyed t node v),
        find-insert node_callbacks node_callbacks-IsKeyed t node q v,
        same,
      )
      refl
