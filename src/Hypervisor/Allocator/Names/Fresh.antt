-- ===== src/Hypervisor/Allocator/Names/Fresh.antt =====
-- The names of one server differ at different indices, so the loop over them ends with a free one.
use Prim.Native.Char.{Char, code}
use text.Mathlib.TextBridge.{to_list, to_list-of_list}
use text.Mathlib.TextLemmas.{append_cancel_left}
use habertest_backend.Base.{
  ℕ, string_eq, ltb, Bool-cases, length, zero, suc, ◌+◌, ◌-◌, ◌*◌, ◌/◌, ◌%◌, ◌<◌, String, ◌≡◌, refl,
  sym, ap, ◌∙◌, inl, inr, none, some, List, [], ◌∷◌, ◌++◌, arith, nat_beq, nat_beq_iff, ◌≤◌, true,
}
use habertest_backend.Hypervisor.Allocator.Names.{digit, digits, decimal, vm_name, find_name}
use habertest_backend.Base.Dict.{Dict, lookup, has_key, erase, has_key-erase_ne, length-erase-lt}

-- The number that a row of digits spells.
value : ℕ → List Char → ℕ
value acc [] = acc
value acc (c ∷ cs) = value (acc * 10 + (code c - 48)) cs

value-append :
    (acc : ℕ) (cs : List Char) (c : Char)
    → value acc (cs ++ c ∷ []) ≡ value acc cs * 10 + (code c - 48)
unfolding value
value-append acc [] c = refl
value-append acc (d ∷ cs) c = value-append (acc * 10 + (code d - 48)) cs c

code-digit : (d : ℕ) → d < 10 → code (digit d) - 48 ≡ d
unfolding digit
code-digit zero h = refl
code-digit (suc zero) h = refl
code-digit (suc (suc zero)) h = refl
code-digit (suc (suc (suc zero))) h = refl
code-digit (suc (suc (suc (suc zero)))) h = refl
code-digit (suc (suc (suc (suc (suc zero))))) h = refl
code-digit (suc (suc (suc (suc (suc (suc zero)))))) h = refl
code-digit (suc (suc (suc (suc (suc (suc (suc zero))))))) h = refl
code-digit (suc (suc (suc (suc (suc (suc (suc (suc zero)))))))) h = refl
code-digit (suc (suc (suc (suc (suc (suc (suc (suc (suc zero))))))))) h = refl
code-digit (suc (suc (suc (suc (suc (suc (suc (suc (suc (suc n)))))))))) h = absurd (omega arith)

value-digits : (fuel n : ℕ) → n < fuel → value 0 (digits fuel n) ≡ n
unfolding digits
value-digits zero n h = absurd (omega arith)
value-digits (suc fuel) n h = elim (Bool-cases (ltb n 10)) [
  | inl small ↦ rw small (unfold value in omega (arith, code-digit n (ground arith)))
  | inr large ↦
      rw (large, value-append)
        (omega
          (arith, value-digits fuel (n / 10) (ground arith), code-digit (n % 10) (omega arith)))
]

decimal_inj : (m n : ℕ) → decimal m ≡ decimal n → m ≡ n
unfolding decimal
decimal_inj m n h =
    sym (value-digits (suc m) m (omega arith))
    ∙ ap (λ s. value 0 s) (sym (to_list-of_list _) ∙ ap to_list h ∙ to_list-of_list _)
    ∙ value-digits (suc n) n (omega arith)

-- Two machines of one server with different indices have different names.
pub vm_name_inj : (server : String) (m n : ℕ) → vm_name server m ≡ vm_name server n → m ≡ n
unfolding vm_name
vm_name_inj server m n h =
    decimal_inj m n (append_cancel_left "-vm-" _ _ (append_cancel_left server _ _ h))

module _ {V : Type 0} where
  find_name-erase :
      (server : String) (fuel index k : ℕ) (vms : Dict String V)
      → k < index
      → find_name server fuel index (erase (vm_name server k) vms) ≡ find_name server fuel index vms
  unfolding find_name
  find_name-erase server zero index k vms h = refl
  find_name-erase server (suc fuel) index k vms h = rw (
    has_key-erase_ne (vm_name server k) (vm_name server index) vms
        (λ e. omega (arith, vm_name_inj server k index e)),
    find_name-erase server fuel (index + 1) k vms (omega arith),
  )

  pub find_name_total :
      (server : String) (fuel index : ℕ) (vms : Dict String V)
      → length vms < fuel
      → (name : String) × (find_name server fuel index vms ≡ some name)
  unfolding find_name
  find_name_total server zero index vms h = absurd (omega arith)
  find_name_total server (suc fuel) index vms h =
      elim (Bool-cases (has_key (vm_name server index) vms)) [
        | inl taken ↦
            let rest : Dict String V = erase (vm_name server index) vms in
            let (name, e) =
              find_name_total server fuel (index + 1) rest
                (omega (arith, length-erase-lt (vm_name server index) vms taken)) in
            (
              name,
              rw taken (sym (find_name-erase server fuel (index + 1) index vms (omega arith)) ∙ e),
            )
        | inr free ↦ (vm_name server index, rw free)
      ]

  -- The name that the loop ends with belongs to no machine.
  pub find_name_fresh :
      (server : String) (fuel index : ℕ) (vms : Dict String V) (name : String)
      → find_name server fuel index vms ≡ some name
      → lookup name vms ≡ none
  unfolding find_name
  find_name_fresh server zero index vms name h = cc
  find_name_fresh server (suc fuel) index vms name h =
      ground (arith, find_name_fresh server fuel (index + 1) vms name)

  first_of_found :
      (server : String) (fuel index : ℕ) (vms : Dict String V) (name : String)
      → find_name server fuel index vms ≡ some name
      → (m : ℕ) × (index ≤ m)
        × (name ≡ vm_name server m)
        × (lookup name vms ≡ none)
        × ((j : ℕ) → index ≤ j → j < m → has_key (vm_name server j) vms ≡ true)
  unfolding find_name
  first_of_found server zero index vms name h = cc
  first_of_found server (suc fuel) index vms name h =
      elim (Bool-cases (has_key (vm_name server index) vms)) [
        | inr free ↦ (
          index,
          omega arith,
          ground (arith, h, free),
          find_name_fresh server (suc fuel) index vms name (unfold find_name in h),
          λ j low high. absurd (omega arith),
        )
        | inl taken ↦
            let (m, low, named, fresh, below) =
              first_of_found server fuel (index + 1) vms name (ground (arith, h, taken)) in
            (
              m,
              omega arith,
              named,
              fresh,
              λ j from to. elim (Bool-cases (nat_beq index j)) [
                | inl same ↦ rw (← (nat_beq_iff index j).0 same) taken
                | inr other ↦ below j (ground (arith, other)) to
              ],
            )
      ]

  -- With more rounds than machines the loop ends, and with the name of the first index, from the one
  -- that it starts at on, whose name no machine has: all names before it are taken.
  pub find_name_first :
      (server : String) (fuel index : ℕ) (vms : Dict String V)
      → length vms < fuel
      → (m : ℕ) × (index ≤ m)
        × (find_name server fuel index vms ≡ some (vm_name server m))
        × (lookup (vm_name server m) vms ≡ none)
        × ((j : ℕ) → index ≤ j → j < m → has_key (vm_name server j) vms ≡ true)
  find_name_first server fuel index vms enough =
      let (name, e) = find_name_total server fuel index vms enough in
      let (m, low, named, fresh, below) = first_of_found server fuel index vms name e in
      (m, low, e ∙ ap some named, rw (← named) fresh, below)
