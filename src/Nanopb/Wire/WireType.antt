-- ===== src/Nanopb/Wire/WireType.antt =====
-- pb_wire_type_t of nanopb/pb.h.
use fantasy_iq.Base.{ℕ}

abbrev pub varint : ℕ
varint = 0

abbrev pub bits64 : ℕ
bits64 = 1

abbrev pub string : ℕ
string = 2

abbrev pub bits32 : ℕ
bits32 = 5
