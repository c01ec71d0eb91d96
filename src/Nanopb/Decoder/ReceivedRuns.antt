-- ===== src/Nanopb/Decoder/ReceivedRuns.antt =====
-- The sample structure with a submessage and a list, behind pb_encode and pb_decode.
use fantasy_iq.Base.{refl, arith, replicate}
use fantasy_iq.Nanopb.Decoder.SameMessage.{IsSame}
use fantasy_iq.Nanopb.Decoder.Setup.{machine, platform, blank}
use fantasy_iq.Nanopb.Decoder.SetupPlaced.{outer-IsPlaced}
use fantasy_iq.Nanopb.Decoder.Outer.{outer-IsTransferable, outer-IsMessage, outer_bytes}
use fantasy_iq.Nanopb.Decoder.Received.{received, received-IsSame}

received-IsSame_example :
    IsSame platform machine 2 2 4096 8192
      (received platform machine 2 2 4096 8192 blank (replicate 24 0) 20)
received-IsSame_example =
    received-IsSame platform machine 2 2 4096 8192 24 blank (replicate 24 0) 20 (λ d. refl)
      outer-IsTransferable outer-IsPlaced outer-IsMessage (rw outer_bytes (omega arith))
      (omega arith) (omega arith)
