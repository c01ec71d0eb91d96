-- ===== src/Nanopb/Machine.antt =====
-- What the message encoder reads: memory, descriptor arrays by address, and function pointers.
-- Struct layouts are those of a 64-bit target with a pb_size_t of four bytes.
use fantasy_iq.Base.{ℕ, zero, suc, ◌+◌, ◌-◌, ◌*◌, ◌%◌, ◌^◌, List, [], ◌∷◌, ltb, if◌then◌else◌}
use fantasy_iq.Nanopb.Field.{Field}
use fantasy_iq.Nanopb.Iterator.{field_at, add_address}
use fantasy_iq.Nanopb.Output.{Encode}

-- Encoding does not write to memory. `call_encode` and `call_extension` are the functions that the
-- application's function pointers point to, by address; `undefined` is what the program does
-- after it calls a NULL pointer or reads an object as another type, of which nothing is known.
pub record Machine (S : Type 0) : Type 0 where
  pub memory : ℕ → ℕ
  pub descriptors : ℕ → List Field
  pub call_encode : ℕ → Field → ℕ → Encode S
  pub call_extension : ℕ → ℕ → Encode S
  pub undefined : Encode S

-- `n` bytes of memory, and the little-endian number that they hold.
unfoldable pub load_bytes : (ℕ → ℕ) → ℕ → ℕ → List ℕ
load_bytes memory zero p = []
load_bytes memory (suc n) p = (memory p % 256) ∷ load_bytes memory n (add_address p 1)

unfoldable pub load : (ℕ → ℕ) → ℕ → ℕ → ℕ
load memory zero p = 0
load memory (suc n) p = memory p % 256 + 256 * load memory n (add_address p 1)

abbrev pub load_pointer : (ℕ → ℕ) → ℕ → ℕ
load_pointer memory p = load memory 8 p

-- A pb_size_t.
abbrev pub load_size : (ℕ → ℕ) → ℕ → ℕ
load_size memory p = load memory 4 p

-- The sign of a `w`-bit pattern extended to 64 bits.
unfoldable pub sign_extended : ℕ → ℕ → ℕ
sign_extended w v = if ltb v (2 ^ (w - 1)) then v else v + 2 ^ 64 - 2 ^ w

-- pb_callback_t: `funcs.encode`, and the address of `arg`.
abbrev pub callback_funcs : (ℕ → ℕ) → ℕ → ℕ
callback_funcs memory p = load_pointer memory p

abbrev pub callback_arg : ℕ → ℕ
callback_arg p = add_address p 8

-- pb_extension_t: `type`, `&dest`, `next`; and pb_extension_type_t: `encode`, `arg`.
abbrev pub extension_type : (ℕ → ℕ) → ℕ → ℕ
extension_type memory p = load_pointer memory p

abbrev pub extension_dest : ℕ → ℕ
extension_dest p = add_address p 8

abbrev pub extension_next : (ℕ → ℕ) → ℕ → ℕ
extension_next memory p = load_pointer memory (add_address p 16)

abbrev pub extension_encode : (ℕ → ℕ) → ℕ → ℕ
extension_encode memory p = load_pointer memory (add_address (extension_type memory p) 8)

-- `(const pb_field_t*)extension->type->arg`
abbrev pub extension_field : {S : Type 0} → Machine S → ℕ → Field
extension_field m p =
    field_at (m.descriptors (load_pointer m.memory (add_address (extension_type m.memory p) 16))) 0
