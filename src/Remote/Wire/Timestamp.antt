-- ===== src/Remote/Wire/Timestamp.antt =====
-- The timestamp that `SilogRemoteDeserializeEntry` of silog_comm/src/silog_remote.c makes of its
-- eight bytes: bytes 2, 4 and 6 are shifted eight bits too far.
use Prim.Native.Nat.{bit_or}
use si_log.Base.{ℕ, ◌+◌, ◌*◌, ◌/◌, ◌%◌, ◌^◌, ◌<◌, ◌≡◌, ◌↔◌, ◌∙◌, refl, ap, arith}
use si_log.Base.Bits.{bit_or-zero, bit_or_sum, bit_or_scaled}
use si_log.Remote.Wire.{byte, get_ts}
use si_log.Remote.Wire.Roundtrip.{read_ts}

-- The four high bytes of the timestamp read, as a number.
abbrev high : ℕ → ℕ → ℕ → ℕ → ℕ → ℕ → ℕ → ℕ
high b0 b1 b2 b3 b4 b5 b6 =
    bit_or
      (bit_or
        (bit_or (bit_or (bit_or (bit_or (b0 * 2 ^ 24) (b1 * 2 ^ 16)) (b2 * 2 ^ 16)) (b3 * 2 ^ 8))
          (b4 * 2 ^ 8))
        b5)
      b6

get_ts-high :
    (b0 b1 b2 b3 b4 b5 b6 b7 : ℕ)
    → b0 < 256
    → b1 < 256
    → b2 < 256
    → b3 < 256
    → b4 < 256
    → b5 < 256
    → b6 < 256
    → b7 < 256
    → get_ts b0 b1 b2 b3 b4 b5 b6 b7 ≡ high b0 b1 b2 b3 b4 b5 b6 * 2 ^ 32 + b7
unfolding get_ts
get_ts-high b0 b1 b2 b3 b4 b5 b6 b7 h0 h1 h2 h3 h4 h5 h6 h7 =
    let s1 =
      bit_or_scaled 32 (b0 * 2 ^ 24) (b1 * 2 ^ 16) (b0 * 2 ^ 56 % 2 ^ 64)
        (b1 * 2 ^ 56 % 2 ^ 64 / 2 ^ 8) (omega arith) (omega arith) in
    let s2 = bit_or_scaled 32 _ (b2 * 2 ^ 16) _ (b2 * 2 ^ 48 % 2 ^ 64) s1 (omega arith) in
    let s3 = bit_or_scaled 32 _ (b3 * 2 ^ 8) _ (b3 * 2 ^ 48 % 2 ^ 64 / 2 ^ 8) s2 (omega arith) in
    let s4 = bit_or_scaled 32 _ (b4 * 2 ^ 8) _ (b4 * 2 ^ 40 % 2 ^ 64) s3 (omega arith) in
    let s5 = bit_or_scaled 32 _ b5 _ (b5 * 2 ^ 40 % 2 ^ 64 / 2 ^ 8) s4 (omega arith) in
    let s6 = bit_or_scaled 32 _ b6 _ (b6 * 2 ^ 32 % 2 ^ 64) s5 (omega arith) in
    bit_or_sum 32 (high b0 b1 b2 b3 b4 b5 b6) _ b7 s6 (omega arith) ∙ ap (λ t. t + b7) s6

-- Without bytes 4, 5 and 6 the high part is a multiple of 2 ^ 8 but for byte 3.
high-low : (b0 b1 b2 : ℕ) → high b0 b1 b2 0 0 0 0 ≡ bit_or (bit_or (b0 * 2 ^ 8) b1) b2 * 2 ^ 16
high-low b0 b1 b2 =
    let s1 = bit_or_scaled 16 (b0 * 2 ^ 8) b1 (b0 * 2 ^ 24) (b1 * 2 ^ 16) (omega arith) refl in
    let s2 = bit_or_scaled 16 _ b2 _ (b2 * 2 ^ 16) s1 refl in
    bit_or-zero _ ∙ bit_or-zero _ ∙ bit_or-zero _ ∙ bit_or-zero _ ∙ s2

high-mid :
    (b0 b1 b2 b3 : ℕ)
    → high b0 b1 b2 b3 0 0 0
      ≡ bit_or (bit_or (bit_or (b0 * 2 ^ 16) (b1 * 2 ^ 8)) (b2 * 2 ^ 8)) b3 * 2 ^ 8
high-mid b0 b1 b2 b3 =
    let s1 =
      bit_or_scaled 8 (b0 * 2 ^ 16) (b1 * 2 ^ 8) (b0 * 2 ^ 24) (b1 * 2 ^ 16) (omega arith)
        (omega arith) in
    let s2 = bit_or_scaled 8 _ (b2 * 2 ^ 8) _ (b2 * 2 ^ 16) s1 (omega arith) in
    let s3 = bit_or_scaled 8 _ b3 _ (b3 * 2 ^ 8) s2 refl in
    bit_or-zero _ ∙ bit_or-zero _ ∙ bit_or-zero _ ∙ s3

high-top : (b0 b1 : ℕ) → b0 < 256 → b1 < 256 → high b0 b1 0 0 0 0 0 ≡ b0 * 2 ^ 24 + b1 * 2 ^ 16
high-top b0 b1 h0 h1 =
    bit_or-zero _
    ∙ bit_or-zero _
    ∙ bit_or-zero _
    ∙ bit_or-zero _
    ∙ bit_or-zero _
    ∙ bit_or_sum 24 b0 (b0 * 2 ^ 24) (b1 * 2 ^ 16) refl (omega arith)

module _ (ts : ℕ) (fits : ts < 2 ^ 64) where
  read_ts-high :
      read_ts ts
      ≡ high
            (byte ts 56)
            (byte ts 48)
            (byte ts 40)
            (byte ts 32)
            (byte ts 24)
            (byte ts 16)
            (byte ts 8)
          * 2 ^ 32
        + ts % 256
  unfolding read_ts
  read_ts-high =
      get_ts-high (byte ts 56) (byte ts 48) (byte ts 40) (byte ts 32) (byte ts 24) (byte ts 16)
        (byte ts 8) (ts % 256) (omega arith) (omega arith) (omega arith) (omega arith) (omega arith)
        (omega arith) (omega arith) (omega arith)

  low_bytes-zero : read_ts ts ≡ ts → (byte ts 24 ≡ 0) × (byte ts 16 ≡ 0) × (byte ts 8 ≡ 0)
  low_bytes-zero e = (
    omega (arith, e, read_ts-high),
    omega (arith, e, read_ts-high),
    omega (arith, e, read_ts-high),
  )

  fourth_byte-zero : read_ts ts ≡ ts → byte ts 32 ≡ 0
  fourth_byte-zero e =
      let (z4, z5, z6) = low_bytes-zero e in
      let whole =
        rw (z4, z5, z6, high-mid (byte ts 56) (byte ts 48) (byte ts 40) (byte ts 32)) at
          read_ts-high in
      omega (arith, e, whole)

  third_byte-zero : read_ts ts ≡ ts → byte ts 40 ≡ 0
  third_byte-zero e =
      let (z4, z5, z6) = low_bytes-zero e in
      let whole =
        rw (fourth_byte-zero e, z4, z5, z6, high-low (byte ts 56) (byte ts 48) (byte ts 40)) at
          read_ts-high in
      omega (arith, e, whole)

  -- A timestamp of 64 bits is read back as it was exactly when its bytes 2 to 6, counted from the most
  -- significant, are 0.
  pub read_ts-kept : (read_ts ts ≡ ts) ↔ (ts % 2 ^ 48 < 256)
  read_ts-kept = (
    λ e.
        let (z4, z5, z6) = low_bytes-zero e in
        omega (arith, z4, z5, z6, fourth_byte-zero e, third_byte-zero e),
    λ small.
        let z2 : byte ts 40 ≡ 0 = omega arith in
        let z3 : byte ts 32 ≡ 0 = omega arith in
        let z4 : byte ts 24 ≡ 0 = omega arith in
        let z5 : byte ts 16 ≡ 0 = omega arith in
        let z6 : byte ts 8 ≡ 0 = omega arith in
        let whole =
          rw (z2, z3, z4, z5, z6, high-top (byte ts 56) (byte ts 48) (omega arith) (omega arith)) at
            read_ts-high in
        omega (arith, whole),
  )
