-- ===== src/Remote/Wire/Words.antt =====
-- The words of the wire format: a word read back from its bytes in network order.
use Prim.Native.Nat.{bit_or}
use si_log.Base.{ℕ, ◌+◌, ◌*◌, ◌%◌, ◌^◌, ◌<◌, ◌≡◌, ◌∙◌, ap₂, refl, arith}
use si_log.Base.Bits.{bit_or_sum}
use si_log.Remote.Wire.{byte, get64, get32}

-- `|` as a sum, where the second number is below the lowest digit of the first.
or_sum : (k a x x' b b' : ℕ) → x ≡ x' → b ≡ b' → x' ≡ a * 2 ^ k → b' < 2 ^ k → bit_or x b ≡ x' + b'
or_sum k a x x' b b' e f g h = ap₂ bit_or e f ∙ bit_or_sum k a x' b' g h

pub get32-sum :
    (b0 b1 b2 b3 : ℕ)
    → b0 < 256
    → b1 < 256
    → b2 < 256
    → b3 < 256
    → get32 b0 b1 b2 b3 ≡ b0 * 2 ^ 24 + b1 * 2 ^ 16 + b2 * 2 ^ 8 + b3
unfolding get32
get32-sum b0 b1 b2 b3 h0 h1 h2 h3 =
    let s1 =
      or_sum 24 (b0) (b0 * 2 ^ 24 % 2 ^ 32) (b0 * 2 ^ 24) (b1 * 2 ^ 16 % 2 ^ 32) (b1 * 2 ^ 16)
        (omega arith) (omega arith) (omega arith) (omega arith) in
    let s2 =
      or_sum 16 (b0 * 2 ^ 8 + b1) _ (b0 * 2 ^ 24 + b1 * 2 ^ 16) (b2 * 2 ^ 8 % 2 ^ 32) (b2 * 2 ^ 8)
        s1 (omega arith) (omega arith) (omega arith) in
    or_sum 8 (b0 * 2 ^ 16 + b1 * 2 ^ 8 + b2) _ (b0 * 2 ^ 24 + b1 * 2 ^ 16 + b2 * 2 ^ 8) b3 b3 s2
      refl (omega arith) (omega arith)

-- The four bytes of a uint32_t are read back as the word.
pub get32-bytes : (x : ℕ) → x < 2 ^ 32 → get32 (byte x 24) (byte x 16) (byte x 8) (x % 256) ≡ x
get32-bytes x h =
    get32-sum (byte x 24) (byte x 16) (byte x 8) (x % 256) (omega arith) (omega arith) (omega arith)
      (omega arith)
    ∙ omega arith

pub get64-sum :
    (b0 b1 b2 b3 b4 b5 b6 b7 : ℕ)
    → b0 < 256
    → b1 < 256
    → b2 < 256
    → b3 < 256
    → b4 < 256
    → b5 < 256
    → b6 < 256
    → b7 < 256
    → get64 b0 b1 b2 b3 b4 b5 b6 b7
      ≡ b0 * 2 ^ 56
        + b1 * 2 ^ 48
        + b2 * 2 ^ 40
        + b3 * 2 ^ 32
        + b4 * 2 ^ 24
        + b5 * 2 ^ 16
        + b6 * 2 ^ 8
        + b7
unfolding get64
get64-sum b0 b1 b2 b3 b4 b5 b6 b7 h0 h1 h2 h3 h4 h5 h6 h7 =
    let s1 =
      or_sum 56 (b0) (b0 * 2 ^ 56 % 2 ^ 64) (b0 * 2 ^ 56) (b1 * 2 ^ 48 % 2 ^ 64) (b1 * 2 ^ 48)
        (omega arith) (omega arith) (omega arith) (omega arith) in
    let s2 =
      or_sum 48 (b0 * 2 ^ 8 + b1) _ (b0 * 2 ^ 56 + b1 * 2 ^ 48) (b2 * 2 ^ 40 % 2 ^ 64) (b2 * 2 ^ 40)
        s1 (omega arith) (omega arith) (omega arith) in
    let s3 =
      or_sum 40 (b0 * 2 ^ 16 + b1 * 2 ^ 8 + b2) _ (b0 * 2 ^ 56 + b1 * 2 ^ 48 + b2 * 2 ^ 40)
        (b3 * 2 ^ 32 % 2 ^ 64) (b3 * 2 ^ 32) s2 (omega arith) (omega arith) (omega arith) in
    let s4 =
      or_sum 32 (b0 * 2 ^ 24 + b1 * 2 ^ 16 + b2 * 2 ^ 8 + b3) _
        (b0 * 2 ^ 56 + b1 * 2 ^ 48 + b2 * 2 ^ 40 + b3 * 2 ^ 32) (b4 * 2 ^ 24 % 2 ^ 64) (b4 * 2 ^ 24)
        s3 (omega arith) (omega arith) (omega arith) in
    let s5 =
      or_sum 24 (b0 * 2 ^ 32 + b1 * 2 ^ 24 + b2 * 2 ^ 16 + b3 * 2 ^ 8 + b4) _
        (b0 * 2 ^ 56 + b1 * 2 ^ 48 + b2 * 2 ^ 40 + b3 * 2 ^ 32 + b4 * 2 ^ 24) (b5 * 2 ^ 16 % 2 ^ 64)
        (b5 * 2 ^ 16) s4 (omega arith) (omega arith) (omega arith) in
    let s6 =
      or_sum 16 (b0 * 2 ^ 40 + b1 * 2 ^ 32 + b2 * 2 ^ 24 + b3 * 2 ^ 16 + b4 * 2 ^ 8 + b5) _
        (b0 * 2 ^ 56 + b1 * 2 ^ 48 + b2 * 2 ^ 40 + b3 * 2 ^ 32 + b4 * 2 ^ 24 + b5 * 2 ^ 16)
        (b6 * 2 ^ 8 % 2 ^ 64) (b6 * 2 ^ 8) s5 (omega arith) (omega arith) (omega arith) in
    or_sum 8 (b0 * 2 ^ 48 + b1 * 2 ^ 40 + b2 * 2 ^ 32 + b3 * 2 ^ 24 + b4 * 2 ^ 16 + b5 * 2 ^ 8 + b6)
      _
      (b0 * 2 ^ 56
        + b1 * 2 ^ 48
        + b2 * 2 ^ 40
        + b3 * 2 ^ 32
        + b4 * 2 ^ 24
        + b5 * 2 ^ 16
        + b6 * 2 ^ 8)
      b7 b7 s6 refl (omega arith) (omega arith)

-- The eight bytes of a uint64_t are read back as the word.
pub get64-bytes :
    (x : ℕ)
    → x < 2 ^ 64
    → get64
        (byte x 56)
        (byte x 48)
        (byte x 40)
        (byte x 32)
        (byte x 24)
        (byte x 16)
        (byte x 8)
        (x % 256)
      ≡ x
get64-bytes x h =
    get64-sum (byte x 56) (byte x 48) (byte x 40) (byte x 32) (byte x 24) (byte x 16) (byte x 8)
      (x % 256) (omega arith) (omega arith) (omega arith) (omega arith) (omega arith) (omega arith)
      (omega arith) (omega arith)
    ∙ omega arith
