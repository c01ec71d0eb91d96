-- ===== src/Nanopb/Field.antt =====
-- pb_field_t and the type codes of nanopb/pb.h, with the build settings of this project:
-- PB_FIELD_32BIT (pb_size_t is uint32_t) and 64-bit pointers.
pub mod Ltype
pub mod Htype
pub mod Atype
use fantasy_iq.Base.{ℕ, ◌-◌, ◌^◌, bit_and, Bool, ◌==◌}

pub record Field : Type 0 where
  pub tag : ℕ
  -- pb_type_t, a byte: LTYPE, HTYPE and ATYPE together.
  pub type_code : ℕ
  -- Relative to the end of the previous field's data.
  pub data_offset : ℕ
  -- Of the count or has_ member, relative to the data: a 32-bit two's complement pattern.
  pub size_offset : ℕ
  pub data_size : ℕ
  pub array_size : ℕ
  -- The address of the submessage's descriptor, or of the default value; 0 is NULL.
  pub ptr : ℕ

abbrev pub pb_size_max : ℕ
pb_size_max = 2 ^ 32 - 1

-- PB_LTYPE, PB_HTYPE, PB_ATYPE
abbrev pub ltype : Field → ℕ
ltype f = bit_and f.type_code 0x0F

abbrev pub htype : Field → ℕ
htype f = bit_and f.type_code 0x30

abbrev pub atype : Field → ℕ
atype f = bit_and f.type_code 0xC0
