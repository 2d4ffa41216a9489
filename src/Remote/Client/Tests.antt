-- ===== src/Remote/Client/Tests.antt =====
-- A client that receives a frame in two pieces.
use si_log.Base.{◌≡◌, refl, [], ◌∷◌, take, drop, length-drop, take-append-drop, arith}
use si_log.Remote.Wire.Roundtrip.{read_back, wire, length-wire}
use si_log.Remote.Client.Sample.{entry, entry-IsEntry, client}
use si_log.Remote.Client.Receive.{receive_all, receive_all-wire}

-- The first 20 bytes, and the others.
receive_all-wire_example :
    receive_all client (take 20 (wire entry) ∷ []) (drop 20 (wire entry))
    ≡ (client, read_back entry ∷ [])
receive_all-wire_example =
    receive_all-wire client (take 20 (wire entry) ∷ []) (drop 20 (wire entry)) entry refl refl
      entry-IsEntry (omega (arith, length-drop 20 (wire entry), length-wire entry entry-IsEntry))
      (take-append-drop 20 (wire entry))
