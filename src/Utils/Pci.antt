-- ===== src/Utils/Pci.antt =====
-- PCI addresses and the output of `lspci` (resource_managers/utils/pci.py).
pub mod RoundTrip
use Prim.Native.Char.{code}
use Prim.Native.String.{◌++◌}
use text.Mathlib.Text.{starts_with}
use habertest_backend.Base.{
  string_eq, ℕ, zero, suc, Bool, not, ◌&&◌, ◌||◌, String, Option, none, some, List, [], ◌∷◌, leb,
  nat_beq, if◌then◌else◌,
}
use habertest_backend.Base.Dict.{Dict, insert}
use habertest_backend.Base.Exec.{Result, ok, err}
use habertest_backend.Hypervisor.Vm.{Device}

-- A step of the pattern: what it matched, and the rest of the text
abbrev pub Matched : Type 0 → Type 0
Matched A = Option (A × String)

infixl 5 ◌>>-◌
abbrev pub ◌>>-◌ : {A B : Type 0} → Matched A → (A → String → Matched B) → Matched B
m >>- f = elim m [ none ↦ none | some (a, rest) ↦ f a rest ]

-- `[0-9a-f]`
abbrev pub is_hex : ℕ → Bool
is_hex c = (leb b'0' c && leb c b'9') || (leb b'a' c && leb c b'f')

-- `[0-9a-f]{n}`
unfoldable pub hex_digits : ℕ → String → Matched String
hex_digits zero text = some ("", text)
hex_digits (suc n) String.[] = none
hex_digits (suc n) (String.◌∷◌ c text) =
    let rest = hex_digits n text in
    if is_hex (code c) then (rest >>- λ digits after. some (String.◌∷◌ c digits, after)) else none

-- One character that passes a test
unfoldable pub one_char : (ℕ → Bool) → String → Matched String
one_char test String.[] = none
one_char test (String.◌∷◌ c text) =
    if test (code c) then some (String.◌∷◌ c String.[], text) else none

abbrev pub is_colon : ℕ → Bool
is_colon c = nat_beq c b':'

-- The dot of the pattern stands for any character but a newline.
abbrev pub is_any : ℕ → Bool
is_any c = not (nat_beq c 10)

-- `LSPCI_D_REGEX.match`, with the groups of the address and its text; the space behind it is matched in any case.
unfoldable pub match_address : String → Matched (Device × String)
unfolding hex_digits one_char
match_address text = hex_digits 4 text >>- λ domain a. one_char is_colon a >>- λ c b.
    hex_digits 2 b >>- λ bus d. one_char is_colon d >>- λ e f. hex_digits 2 f >>- λ slot g.
    one_char is_any g >>- λ dot i. hex_digits 1 i >>- λ function rest. some (
      (
        record { domain = domain; bus = bus; slot = slot; function = function },
        domain ++ (c ++ (bus ++ (e ++ (slot ++ (dot ++ function))))),
      ),
      rest,
    )

pub data PciError : Type 0 where
  not_an_address : String → PciError
  no_info : String → PciError

-- `device_info`, of which only the failure to read a file is kept, and `str.lower`
module _ (has_info : String → Bool) (lower : String → String) where
  with_info : String → Device → Result PciError Device
  with_info address device = if has_info address then ok device else err (no_info address)

  read_device : String → Matched (Device × String) → Result PciError Device
  unfolding with_info
  read_device address none = err (not_an_address address)
  read_device address (some ((device, matched), rest)) = with_info address device

  -- `from_full_address`
  unfoldable pub from_full_address : String → Result PciError Device
  unfolding match_address read_device
  from_full_address address = read_device address (match_address address)

  -- `pattern in text`
  occurs : String → String → Bool
  occurs pattern' String.[] = starts_with String.[] pattern'
  occurs pattern' (String.◌∷◌ c text) =
      starts_with (String.◌∷◌ c text) pattern' || occurs pattern' text

  is_gpu_line : String → Bool
  unfolding occurs
  is_gpu_line line = occurs "nvidia" line && not (occurs "audio" line)

  add_device : Matched (Device × String) → Dict String Device → Result PciError (Dict String Device)
  unfolding with_info
  add_device none devices = ok devices
  add_device (some ((device, address), rest)) devices = elim (with_info address device) [
    | ok found ↦ ok (insert address found devices)
    | err e ↦ err e
  ]

  parse_from : Dict String Device → List String → Result PciError (Dict String Device)
  unfolding is_gpu_line add_device match_address
  parse_from devices [] = ok devices
  parse_from devices (line ∷ lines) =
      elim (if is_gpu_line (lower line)
        then add_device (match_address (lower line)) devices
        else ok devices) [ ok more ↦ parse_from more lines | err e ↦ err e ]

  -- `parse_nvidia_lspci_output`; a line without an address is passed over.
  unfoldable pub parse_nvidia_lspci_output : List String → Result PciError (Dict String Device)
  unfolding parse_from
  parse_nvidia_lspci_output lines = parse_from [] lines
