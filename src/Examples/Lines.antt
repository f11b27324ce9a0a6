-- ===== src/Examples/Lines.antt =====
-- Lines of the protocol, printed and parsed.
use tp_sistemas_operativos_i.Prelude.{◌≡◌, refl}
use tp_sistemas_operativos_i.Prelude.Int.{pos, negsuc}
use tp_sistemas_operativos_i.Prelude.Text.{codes}
use tp_sistemas_operativos_i.Wire.{
  print_int, print_nat, print_digits, atoi, skip, read_signed, read_digits, until, after, strtok,
  get_token, get_quantity,
}
use tp_sistemas_operativos_i.Wire.Decimal.{atoi-print_int}

printing : Unit {0}
unfolding print_int print_nat print_digits atoi skip read_signed read_digits until after strtok
    get_token get_quantity
printing = tt

prints : print_int (negsuc 41) ≡ codes "-42"
unfolding printing
prints = refl

reads : atoi (codes "  +17 and more") ≡ pos 17
unfolding printing
reads = refl

quantity : get_quantity (codes "mem:8192") ≡ pos 8192
unfolding printing
quantity = refl

quantity_missing : get_quantity (codes "mem") ≡ pos 0
unfolding printing
quantity_missing = refl

atoi-print_int_example : atoi (print_int (negsuc 41)) ≡ negsuc 41
atoi-print_int_example = atoi-print_int (negsuc 41)
