-- ===== src/Remote/Server/Fate.antt =====
-- `SilogRemoteBroadcast` of silog_comm/src/silog_remote.c, as a specification: what becomes of each slot.
use si_log.Base.{
  ℕ, ◌+◌, ◌≡◌, ◌⊎◌, refl, Option, none, some, List, [], ◌∷◌, ◌++◌, Option-cases, if◌then◌else◌, inl,
  inr, arith,
}
use si_log.Errors.{ok, net_timeout, net_file_error}
use si_log.Remote.Server.{Client, Sent, vacant, closed_by, send_full}
use si_log.Remote.Server.Table.{count_active}
use si_log.Remote.Server.Send.{IsBounded, send_full-Outcome}

-- The descriptor to which a broadcast sends, if the slot has one.
abbrev pub target : Client → Option ℕ
target c = if c.active then c.fd else none

-- What a broadcast does with a slot.
pub data Fate : Type 0 where
  absent served skipped dropped : Fate

pub count_active-append :
    (xs ys : List Client) → count_active (xs ++ ys) ≡ count_active xs + count_active ys
count_active-append [] ys = omega arith
count_active-append (x ∷ xs) ys = omega (arith, count_active-append xs ys)

-- The specification of a broadcast: each slot by itself.
module _ (answers : ℕ → ℕ → ℕ → Sent) (len : ℕ) where
  unfoldable pub fate : Client → Fate
  fate c = elim (target c) [
    | none ↦ absent
    | some fd ↦ elim (send_full (answers fd) len).0 [
      | ok ↦ served
      | net_timeout ↦ skipped
      | code ↦ dropped
    ]
  ]

  -- Only a client whose sending failed leaves the table.
  abbrev pub after : Client → Client
  after c = elim (fate c) [ dropped ↦ vacant | other ↦ c ]

  abbrev pub served_in : List Client → ℕ
  served_in [] = 0
  served_in (c ∷ cs) = elim (fate c) [ served ↦ 1 | other ↦ 0 ] + served_in cs

  abbrev pub dropped_in : List Client → List ℕ
  dropped_in [] = []
  dropped_in (c ∷ cs) = elim (fate c) [ dropped ↦ closed_by c | other ↦ [] ] ++ dropped_in cs

  -- The cases of a slot, with what the loop tests.
  pub slot-cases :
      (c : Client)
      → ((fd : ℕ) → IsBounded (answers fd))
      → ((target c ≡ none) × (fate c ≡ absent))
        ⊎ ((fd : ℕ) × (target c ≡ some fd)
            × (((send_full (answers fd) len).0 ≡ ok) × (fate c ≡ served)
                ⊎ (((send_full (answers fd) len).0 ≡ net_timeout) × (fate c ≡ skipped)
                    ⊎ ((send_full (answers fd) len).0 ≡ net_file_error) × (fate c ≡ dropped))))
  unfolding fate
  slot-cases c bounded = elim (Option-cases (target c)) [
    | inl e ↦ inl (e, rw (e, fate) refl)
    | inr (fd, e) ↦ elim (send_full-Outcome (answers fd) len (bounded fd)) [
      | inl (code, all) ↦ inr (fd, e, inl (code, rw (fate, e, code) refl))
      | inr (inl code, part) ↦ inr (fd, e, inr (inl (code, rw (fate, e, code) refl)))
      | inr (inr code, part) ↦ inr (fd, e, inr (inr (code, rw (fate, e, code) refl)))
    ]
  ]
