-- ===== src/Utils/Pci/RoundTrip.antt =====
-- The address of a device is read back as the device.
use Prim.Native.Char.{code, Char}
use Prim.Native.String.{◌++◌}
use text.Mathlib.TextLemmas.{cons-append, nil-append, append-nil}
use habertest_backend.Base.{
  string_eq, ℕ, zero, suc, true, String, some, ◌≡◌, refl, sym, ap, ◌∙◌, Bool,
}
use habertest_backend.Utils.Pci.{
  is_hex, hex_digits, one_char, is_colon, is_any, match_address, from_full_address, read_device,
  with_info,
}
use habertest_backend.Base.Exec.{ok}
use habertest_backend.Hypervisor.Vm.{Device}
use habertest_backend.Hypervisor.Allocator.Restore.{full_address}

-- A text of `n` hexadecimal digits
abbrev pub IsHex : ℕ → String → Type 0
IsHex zero text = text ≡ ""
IsHex (suc n) String.[] = ⊥
IsHex (suc n) (String.◌∷◌ c text) = (is_hex (code c) ≡ true) × IsHex n text

hex_digits-append :
    (n : ℕ) (text rest : String) → IsHex n text → hex_digits n (text ++ rest) ≡ some (text, rest)
unfolding hex_digits
hex_digits-append zero text rest h = rw (h, nil-append) refl
hex_digits-append (suc n) String.[] rest h = absurd h
hex_digits-append (suc n) (String.◌∷◌ c text) rest h =
    rw (cons-append c text rest, h.0, hex_digits-append n text rest h.1) refl

one_char-append :
    (test : ℕ → Bool) (c : Char) (rest : String)
    → test (code c) ≡ true
    → one_char test (String.◌∷◌ c String.[] ++ rest) ≡ some (String.◌∷◌ c String.[], rest)
unfolding one_char
one_char-append test c rest h = rw (cons-append c String.[] rest, nil-append rest, h) refl

hex_digits_all : (n : ℕ) (text : String) → IsHex n text → hex_digits n text ≡ some (text, "")
hex_digits_all n text h = ap (hex_digits n) (sym (append-nil text)) ∙ hex_digits-append n text "" h

-- A device whose parts are hexadecimal digits, as many as an address has
abbrev pub IsAddress : Device → Type 0
IsAddress d = IsHex 4 d.domain × IsHex 2 d.bus × IsHex 2 d.slot × IsHex 1 d.function

match_address-full_address :
    (d : Device) → IsAddress d → match_address (full_address d) ≡ some ((d, full_address d), "")
unfolding match_address full_address
match_address-full_address d (hd, hb, hs, hf) =
    rw
      (
        hex_digits-append 4 d.domain (":" ++ (d.bus ++ (":" ++ (d.slot ++ ("." ++ d.function)))))
            hd,
        one_char-append is_colon ":" (d.bus ++ (":" ++ (d.slot ++ ("." ++ d.function)))) refl,
        hex_digits-append 2 d.bus (":" ++ (d.slot ++ ("." ++ d.function))) hb,
        one_char-append is_colon ":" (d.slot ++ ("." ++ d.function)) refl,
        hex_digits-append 2 d.slot ("." ++ d.function) hs,
        one_char-append is_any "." d.function refl,
        hex_digits_all 1 d.function hf,
      )
      refl

-- The device that `full_address` was taken of is read back by `from_full_address`, if its parts are
-- hexadecimal digits, as many as an address has, and the files about it can be read.
pub from_full_address-full_address :
    (has_info : String → Bool) (lower : String → String) (d : Device)
    → IsAddress d
    → has_info (full_address d) ≡ true
    → from_full_address has_info lower (full_address d) ≡ ok d
unfolding from_full_address read_device with_info
from_full_address-full_address has_info lower d h readable =
    ap (read_device has_info lower (full_address d)) (match_address-full_address d h)
    ∙ rw readable refl
