-- ===== src/Hypervisor/Allocator/Names.antt =====
-- `"%s-vm-%d" % (server_name, vm_index)`, and the loop that looks for a name that no machine has.
pub mod Fresh
use Prim.Native.Char.{Char}
use Prim.Native.String.{◌++◌}
use text.Mathlib.TextBridge.{of_list}
use habertest_backend.Base.{
  ℕ, zero, suc, ◌+◌, ◌/◌, ◌%◌, String, Option, none, some, List, [], ◌∷◌, ◌++◌ as append, ltb,
  nat_beq, if◌then◌else◌, string_eq,
}
use habertest_backend.Base.Dict.{Dict, has_key}

digit : ℕ → Char
digit d =
    if nat_beq d 0
    then "0"
    else if nat_beq d 1
    then "1"
    else if nat_beq d 2
    then "2"
    else if nat_beq d 3
    then "3"
    else if nat_beq d 4
    then "4"
    else if nat_beq d 5
    then "5"
    else if nat_beq d 6
    then "6"
    else if nat_beq d 7
    then "7"
    else if nat_beq d 8
    then "8"
    else "9"

-- The digits of a number; a number has at most as many as its successor.
digits : ℕ → ℕ → List Char
digits zero n = []
digits (suc fuel) n =
    let rest = digits fuel (n / 10) in
    if ltb n 10 then digit n ∷ [] else append rest (digit (n % 10) ∷ [])

-- `"%d" % n`
pub decimal : ℕ → String
decimal n = of_list (digits (suc n) n)

pub vm_name : String → ℕ → String
vm_name server_name index = server_name ++ ("-vm-" ++ decimal index)

-- `while vm_name in self.vms`, on fuel
module _ {V : Type 0} where
  unfoldable pub find_name : String → ℕ → ℕ → Dict String V → Option String
  find_name server zero index vms = none
  find_name server (suc fuel) index vms =
      let rest = find_name server fuel (index + 1) vms in
      if has_key (vm_name server index) vms then rest else some (vm_name server index)
