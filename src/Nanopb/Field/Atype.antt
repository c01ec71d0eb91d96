-- ===== src/Nanopb/Field/Atype.antt =====
-- PB_ATYPE_* of nanopb/pb.h: how the field is stored.
use fantasy_iq.Base.{ℕ}

abbrev pub static : ℕ
static = 0x00

abbrev pub pointer : ℕ
pointer = 0x80

abbrev pub callback : ℕ
callback = 0x40
