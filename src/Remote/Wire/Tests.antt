-- ===== src/Remote/Wire/Tests.antt =====
-- The wire format at a concrete entry.
use si_log.Base.{ℕ, ◌%◌, ◌^◌, ◌<◌, ◌≡◌, ◌↔◌, refl, true, some, List, ◌∷◌, length, replicate, arith}
use si_log.Errors.{ok}
use si_log.Entry.{LogEntry}
use si_log.Remote.Wire.{serialize, deserialize, get_ts}
use si_log.Remote.Wire.Roundtrip.{IsEntry, read_ts, read_back, roundtrip}
use si_log.Remote.Wire.Timestamp.{read_ts-kept}

abbrev entry : LogEntry
entry = record {
  ts = 1_700_000_000_123;
  pid = 0xffff_ffff;
  tid = 4242;
  level = 259;
  tag = b'w' ∷ b'i' ∷ replicate 30 0;
  file = b'a' ∷ b'.' ∷ b'c' ∷ replicate 61 0;
  line = 77;
  msg = b'h' ∷ b'i' ∷ replicate 254 0;
  msg_len = 300;
  enabled = 1;
}

entry-IsEntry : IsEntry entry
entry-IsEntry = record {
  ts = omega arith;
  pid = omega arith;
  tid = omega arith;
  line = omega arith;
  tag = record { whole = refl; ended = refl };
  file = record { whole = refl; ended = refl };
  msg = record { whole = refl; ended = refl };
}

roundtrip_example :
    (buf : List ℕ) × (serialize entry true 377 true ≡ some buf)
    × (length buf ≡ 377)
    × (deserialize (some buf) 377 true ≡ (ok, some (read_back entry)))
roundtrip_example = roundtrip entry entry-IsEntry

-- A time in milliseconds is read wrong.
read_ts-entry : read_ts 1_700_000_000_123 ≡ 510_091_790_909_563
unfolding read_ts get_ts
read_ts-entry = refl

read_ts-kept_example :
    (read_ts 1_700_000_000_123 ≡ 1_700_000_000_123) ↔ (1_700_000_000_123 % 2 ^ 48 < 256)
read_ts-kept_example = read_ts-kept 1_700_000_000_123 (omega arith)
