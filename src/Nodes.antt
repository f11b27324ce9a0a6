-- ===== src/Nodes.antt =====
-- The directory of peers: `udp_broadcast` and `udp_datagram_from_remote` (agent/loopfunc.c),
-- `check_nodes_timeouts` (agent/timer.c) and `get_nodes_instance` (agent/read_instructions.c). What
-- `recvfrom` and the clock answer are arguments.
pub mod Announce
pub mod Listing
use tp_sistemas_operativos_i.Prelude.{
  ℕ, suc, ◌+◌, ◌-◌, ◌/◌, ◌%◌, ◌^◌, List, [], ◌∷◌, ◌++◌, flatten, Bool, true, false, Option, none,
  some, ltb, leb, ◌==◌, if◌then◌else◌, length, take,
}
use tp_sistemas_operativos_i.Prelude.Int.{ℤ, pos, ◌-ℤ◌, leb_ℤ, to_unsigned}
use tp_sistemas_operativos_i.Prelude.Text.{codes}
use tp_sistemas_operativos_i.HashTable.{HashTable, tablahash_insert}
use tp_sistemas_operativos_i.HashTable.Sweep.{sweep}
use tp_sistemas_operativos_i.Domain.{ReceivedNode, node_callbacks}
use tp_sistemas_operativos_i.Wire.{
  print_int, print_nat, atoi, get_token, get_quantity, until, bounded_copy,
}

-- "ANNOUNCE %d cpu:%d mem:%d gpu:%d\n"; at most 69 bytes for values of `int`, so that the array of
-- 126 bytes holds it.
unfoldable pub announce_message : ℤ → ℤ → ℤ → ℤ → List ℕ
announce_message port cpu mem gpu =
    codes "ANNOUNCE "
    ++ (print_int port
        ++ (codes " cpu:"
            ++ (print_int cpu
                ++ (codes " mem:"
                    ++ (print_int mem ++ (codes " gpu:" ++ (print_int gpu ++ 10 ∷ [])))))))

-- The bytes before the terminator.
abbrev pub c_string : List ℕ → List ℕ
c_string = until (λ c. c == 0)

abbrev pub datagram_len : ℕ
datagram_len = 1024

-- `if (num < 5) return;`, and the insertion.
abbrev pub announced : List (List ℕ) → ℤ → ℤ → HashTable ReceivedNode → HashTable ReceivedNode
announced (word ∷ port ∷ cpu ∷ mem ∷ gpu ∷ more) sender now t =
    (tablahash_insert node_callbacks t (record {
      ip = sender;
      port = atoi port;
      gpu = get_quantity gpu;
      mem = get_quantity mem;
      cpu = get_quantity cpu;
      time = now;
    })).table
announced _ sender now t = t

-- `recvfrom` has returned nothing, or the bytes of a datagram and its sender.
unfoldable pub udp_datagram_from_remote :
    Option (List ℕ × ℤ) → ℤ → HashTable ReceivedNode → HashTable ReceivedNode
unfolding get_token
udp_datagram_from_remote none now t = t
udp_datagram_from_remote (some (bytes, sender)) now t =
    if length bytes == 0
    then t
    else announced (get_token (bounded_copy datagram_len (c_string bytes)) 10) sender now t

abbrev pub node_timeout_sec : ℤ
node_timeout_sec = pos 15

-- `difftime(now, node->time) >= NODE_TIMEOUT_SEC`
abbrev pub is_stale : ℤ → ReceivedNode → Bool
is_stale now node = leb_ℤ node_timeout_sec (now -ℤ node.time)

unfoldable pub check_nodes_timeouts : ℤ → HashTable ReceivedNode → HashTable ReceivedNode
unfolding sweep
check_nodes_timeouts now t = (sweep (is_stale now) t).table

-- `inet_ntop` of an address whose first byte is the lowest, as on a little-endian machine.
unfoldable pub inet_ntop : ℤ → List ℕ
inet_ntop ip =
    let a = to_unsigned ip in
    print_nat (a % 256)
    ++ (46
        ∷ (print_nat (a / 2 ^ 8 % 256)
            ++ (46 ∷ (print_nat (a / 2 ^ 16 % 256) ++ (46 ∷ print_nat (a / 2 ^ 24 % 256))))))

-- "%s:%d:cpu:%d:mem:%d:gpu:%d"
unfoldable pub node_text : ReceivedNode → List ℕ
unfolding inet_ntop
node_text n =
    inet_ntop n.ip
    ++ (codes ":"
        ++ (print_int n.port
            ++ (codes ":cpu:"
                ++ (print_int n.cpu
                    ++ (codes ":mem:"
                        ++ (print_int n.mem ++ (codes ":gpu:" ++ print_int n.gpu)))))))

abbrev pub buffer_size : ℕ
buffer_size = 8192

-- The text that the buffer holds, and the variable `offset`.
pub record Output : Type 0 where
  pub text : List ℕ
  pub offset : ℕ

-- `if (offset < buffer_size) offset += snprintf(result + offset, buffer_size - offset, ...)`:
-- `snprintf` writes what fits and returns the length of the whole.
unfoldable pub append : List ℕ → Output → Output
append s o =
    if ltb o.offset buffer_size
    then record {
      text = o.text ++ take (buffer_size - o.offset - 1) s;
      offset = o.offset + length s;
    }
    else o

-- The rest of the walk over the nodes; `first` is over.
unfoldable pub append_nodes : List ReceivedNode → Output → Output
unfolding append node_text
append_nodes [] o = o
append_nodes (n ∷ ns) o = append_nodes ns (append (node_text n) (append (codes ";") o))

unfoldable pub append_first : List ReceivedNode → Output → Output
unfolding append_nodes
append_first [] o = o
append_first (n ∷ ns) o = append_nodes ns (append (node_text n) o)

-- The newline, where `offset < buffer_size - 1`.
abbrev pub close_text : Output → List ℕ
close_text o = if ltb o.offset (buffer_size - 1) then o.text ++ 10 ∷ [] else o.text

unfoldable pub get_nodes_instance : HashTable ReceivedNode → List ℕ
unfolding append_first
get_nodes_instance t =
    close_text (append_first (flatten t.elems) (record { text = codes "NODES "; offset = 6 }))
