-- ===== src/Examples/Directory.antt =====
-- A peer announces itself, is listed, and is forgotten.
use tp_sistemas_operativos_i.Prelude.{
  ◌≡◌, refl, [], ◌∷◌, ◌++◌, some, none, flatten, arith, ltb, length, take, ◌-◌, if◌then◌else◌,
}
use tp_sistemas_operativos_i.Prelude.Int.{ℤ, pos, ◌-ℤ◌, leb_ℤ}
use tp_sistemas_operativos_i.Prelude.Text.{codes}
use tp_sistemas_operativos_i.HashTable.{
  HashTable, tablahash_find, tablahash_insert, tablahash_create, find_in_list, overwrite,
}
use tp_sistemas_operativos_i.HashTable.Valid.{create-IsValid}
use tp_sistemas_operativos_i.Domain.{
  ReceivedNode, node_callbacks, create_table_nodes, func_hash_node, comp_node,
}
use tp_sistemas_operativos_i.Wire.{print_int, print_nat, print_digits}
use tp_sistemas_operativos_i.Nodes.{
  announce_message, udp_datagram_from_remote, check_nodes_timeouts, node_timeout_sec, node_text,
  inet_ntop, append, append_nodes, append_first, get_nodes_instance, buffer_size,
}
use tp_sistemas_operativos_i.Nodes.Announce.{announced_node, check_nodes_timeouts-announce}
use tp_sistemas_operativos_i.Nodes.Listing.{listing, get_nodes_instance-listing}

-- 192.168.1.23, as the four bytes stand in an `int`.
abbrev sender : ℤ
sender = pos 385984704

abbrev known : HashTable ReceivedNode
known = create_table_nodes

printing :
    announce_message (pos 8100) (pos 4) (pos 8192) (pos 1)
    ≡ codes "ANNOUNCE 8100 cpu:4 mem:8192 gpu:1" ++ 10 ∷ []
unfolding announce_message print_int print_nat print_digits
printing = refl

listed :
    get_nodes_instance
      (tablahash_insert node_callbacks known
        (announced_node sender (pos 100) (pos 8100) (pos 4) (pos 8192) (pos 1))).table
    ≡ codes "NODES 192.168.1.23:8100:cpu:4:mem:8192:gpu:1" ++ 10 ∷ []
unfolding get_nodes_instance append append_nodes append_first node_text inet_ntop print_int
    print_nat print_digits tablahash_insert find_in_list overwrite tablahash_create
    create_table_nodes func_hash_node comp_node flatten
listed = refl

-- The directory with one peer.
abbrev one_peer : HashTable ReceivedNode
one_peer =
    (tablahash_insert node_callbacks known
      (announced_node sender (pos 100) (pos 8100) (pos 4) (pos 8192) (pos 1))).table

get_nodes_instance-listing_example : get_nodes_instance one_peer ≡ (
    if ltb (length (listing (flatten one_peer.elems))) (buffer_size - 1)
    then listing (flatten one_peer.elems) ++ 10 ∷ []
    else take (buffer_size - 1) (listing (flatten one_peer.elems)))
get_nodes_instance-listing_example = get_nodes_instance-listing one_peer

check_nodes_timeouts-announce_example :
    tablahash_find node_callbacks
      (check_nodes_timeouts (pos 115) (
        udp_datagram_from_remote
          (some (announce_message (pos 8100) (pos 4) (pos 8192) (pos 1), sender))
          (pos 100)
          known))
      (announced_node sender (pos 0) (pos 0) (pos 0) (pos 0) (pos 0))
    ≡ (if leb_ℤ node_timeout_sec (pos 115 -ℤ pos 100)
        then none
        else some (announced_node sender (pos 100) (pos 8100) (pos 4) (pos 8192) (pos 1)))
unfolding create_table_nodes
check_nodes_timeouts-announce_example =
    check_nodes_timeouts-announce (pos 8100) (pos 4) (pos 8192) (pos 1) sender (pos 100) (pos 115)
      known (announced_node sender (pos 0) (pos 0) (pos 0) (pos 0) (pos 0))
      (rw printing (omega arith)) (create-IsValid node_callbacks) refl
