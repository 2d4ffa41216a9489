-- ===== src/Remote/Server/Send.antt =====
-- `SilogRemoteSendFull` of silog_comm/src/silog_remote.c.
use si_log.Base.{ℕ, zero, suc, ◌+◌, ◌-◌, ◌≤◌, ◌<◌, ◌≡◌, ◌⊎◌, refl, Bool-cases, ltb, inl, inr, arith}
use si_log.Errors.{ErrorCode, ok, net_timeout, net_file_error}
use si_log.Remote.Server.{Sent, bytes, would_block, send_failed, send_loop, send_full}

-- What the loop may return: all bytes sent, or an error with some byte missing.
abbrev Outcome : ℕ → ErrorCode × ℕ → Type 0
Outcome len r =
    ((r.0 ≡ ok) × (r.1 ≡ len)) ⊎ (((r.0 ≡ net_timeout) ⊎ (r.0 ≡ net_file_error)) × (r.1 < len))

-- `send` never answers more bytes than it was given.
abbrev pub IsBounded : (ℕ → ℕ → Sent) → Type 0
IsBounded answer = (k left n : ℕ) → answer k left ≡ bytes n → n ≤ left

Sent-cases :
    (a : Sent)
    → (a ≡ would_block) ⊎ ((a ≡ send_failed) ⊎ ((a ≡ bytes 0) ⊎ ((n : ℕ) × (a ≡ bytes (suc n)))))
Sent-cases would_block = inl refl
Sent-cases send_failed = inr (inl refl)
Sent-cases (bytes zero) = inr (inr (inl refl))
Sent-cases (bytes (suc n)) = inr (inr (inr (n, refl)))

send_loop-Outcome :
    (fuel : ℕ) (answer : ℕ → ℕ → Sent) (k len sent : ℕ)
    → IsBounded answer
    → sent ≤ len
    → len ≤ sent + fuel
    → Outcome len (send_loop fuel answer k len sent)
unfolding send_loop
send_loop-Outcome zero answer k len sent bound le enough = inl (refl, omega arith)
send_loop-Outcome (suc fuel) answer k len sent bound le enough = elim (Bool-cases (ltb sent len)) [
  | inr done ↦ rw done (inl (refl, ground arith))
  | inl more ↦ elim (Sent-cases (answer k (len - sent))) [
    | inl e ↦ rw (more, e) (inr (inl refl, ground arith))
    | inr (inl e) ↦ rw (more, e) (inr (inr refl, ground arith))
    | inr (inr (inl e)) ↦ rw (more, e) (inr (inr refl, ground arith))
    | inr (inr (inr (n, e))) ↦
        let fits : suc n ≤ len - sent = bound k (len - sent) (suc n) e in
        rw (more, e)
          (send_loop-Outcome fuel answer (k + 1) len (sent + suc n) bound (omega arith)
            (omega arith))
  ]
]

-- Where `send` answers no more than it was given, `SilogRemoteSendFull` answers `SILOG_OK` with all
-- bytes sent, or a timeout or a file error with fewer bytes sent, and nothing else.
pub send_full-Outcome :
    (answer : ℕ → ℕ → Sent) (len : ℕ)
    → IsBounded answer
    → (((send_full answer len).0 ≡ ok) × ((send_full answer len).1 ≡ len))
      ⊎ ((((send_full answer len).0 ≡ net_timeout) ⊎ ((send_full answer len).0 ≡ net_file_error))
          × ((send_full answer len).1 < len))
unfolding send_full
send_full-Outcome answer len bound =
    send_loop-Outcome len answer 0 len 0 bound (omega arith) (omega arith)
