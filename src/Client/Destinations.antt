-- ===== src/Client/Destinations.antt =====
-- The destinations of a JOB_REQUEST, as the scheduler writes them.
use tp_sistemas_operativos_i.Prelude.{
  ℕ, ◌≡◌, ◌≤◌, refl, ap, ◌∙◌, List, ◌∷◌, ◌++◌, some, length, take_all,
}
use tp_sistemas_operativos_i.Prelude.Int.{ℤ, negsuc}
use tp_sistemas_operativos_i.HashTable.{HashTable}
use tp_sistemas_operativos_i.Domain.{ReceivedNode}
use tp_sistemas_operativos_i.Wire.{print_int, strtok, is_colon, is_blank, bounded_copy}
use tp_sistemas_operativos_i.Wire.Decimal.{atoi-print_int}
use tp_sistemas_operativos_i.Wire.Numerals.{strtok-print_int}
use tp_sistemas_operativos_i.Wire.Tokens.{IsToken, strtok-token}
use tp_sistemas_operativos_i.ResourceQueue.{bind-some}
use tp_sistemas_operativos_i.Client.{Env}
use tp_sistemas_operativos_i.Client.Scheduler.{parse_request, resolve_port, skip_at}

-- "@ip:res:amount"
abbrev pub destination : List ℕ → List ℕ → ℤ → List ℕ
destination ip res amount = b'@' ∷ (ip ++ b':' ∷ (res ++ b':' ∷ print_int amount))

-- A destination whose address and resource have no colon and fit in their arrays, in a token of at
-- most 255 bytes, is read as the request that it writes, to the port that the directory has for the
-- address.
pub parse_request-destination :
    (env : Env) (nodes : HashTable ReceivedNode) (ip res : List ℕ) (amount : ℤ)
    → IsToken is_colon ip
    → IsToken is_colon res
    → length ip ≤ 15
    → length res ≤ 7
    → length (destination ip res amount) ≤ 255
    → parse_request env nodes (destination ip res amount)
      ≡ some (record {
        kind = res;
        amount = amount;
        dest_ip = ip;
        dest_port = resolve_port nodes (env.inet_addr ip);
        provider_fd = negsuc 0;
      })
unfolding parse_request
parse_request-destination env nodes ip res amount i r ip_fits res_fits fits =
    let copy = take_all 255 (destination ip res amount) fits in
    let first = strtok-token is_colon ip (res ++ b':' ∷ print_int amount) b':' i refl in
    let second = strtok-token is_colon res (print_int amount) b':' r refl in
    bind-some (strtok is_colon (skip_at (bounded_copy 256 (destination ip res amount)))) _ _
      (ap (λ l. strtok is_colon (skip_at l)) copy ∙ first)
    ∙ bind-some (strtok is_colon (res ++ b':' ∷ print_int amount)) _ _ second
    ∙ bind-some (strtok is_blank (print_int amount)) _ _ (strtok-print_int amount)
    ∙ rw (atoi-print_int amount, take_all 7 res res_fits, take_all 15 ip ip_fits) refl
