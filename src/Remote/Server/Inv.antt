-- ===== src/Remote/Server/Inv.antt =====
-- The invariant of the client table of silog_comm/src/silog_remote.c, and the descriptors that its
-- operations open, keep and close.
use si_log.Base.{
  ℕ, ◌+◌, ◌<◌, ◌≡◌, ◌≢◌, ◌⊎◌, ◌∙◌, refl, ap, Bool, true, false, some, List, [], ◌∷◌, ◌++◌, ◌&&◌,
  leb, if◌then◌else◌, length, get_or, set, length-set, arith, Bool-cases, Option-cases, inl, inr,
}
use si_log.Errors.{ErrorCode, ok, net_file_error, net_timeout}
use si_log.Remote.Server.{
  Client, Manager, Accepted, connection, none_waiting, accept_failed, vacant, fd_list,
  find_free_slot, find_free_from, admit, accept,
}
use si_log.Remote.Server.Table.{
  times, times-append, count_active, held, AllSlots, count_active-set, times-held-set, AllSlots-set,
  find_free_from-some,
}

-- What holds while the service is initialised.
pub record IsValid (m : Manager) : Type 0 where
  pub whole : length m.clients ≡ m.max_clients
  pub counted : m.client_count ≡ count_active m.clients
  pub slots : AllSlots m.clients

-- The descriptors that the manager is responsible for.
abbrev pub owned : Manager → List ℕ
owned m = held m.clients ++ fd_list m.listen_fd

times-owned :
    (x : ℕ) (m : Manager)
    → times x (owned m) ≡ times x (held m.clients) + times x (fd_list m.listen_fd)
times-owned x m = times-append x (held m.clients) (fd_list m.listen_fd)

-- The descriptor of a connection, if there is one.
abbrev pub opened_by : Accepted → List ℕ
opened_by (connection fd addr) = fd ∷ []
opened_by none_waiting = []
opened_by accept_failed = []

module _ {m : Manager} (v : IsValid m) (fd addr : ℕ) (g s : Bool) where
  -- A connection is either refused, with its descriptor closed and the table as it was, or stored in
  -- a slot that was free.
  admit-cases :
      ((code : ErrorCode) × (code ≢ ok) × (admit m fd addr g s ≡ (code, m, fd ∷ [])))
      ⊎ ((slot : ℕ) × (slot < m.max_clients)
          × ((get_or m.clients slot vacant).active ≡ false)
          × (m.client_count < m.max_clients)
          × (admit m fd addr g s ≡ (
            ok,
            record m {
              clients = set m.clients slot (record { fd = some fd; addr = addr; active = true });
              client_count = m.client_count + 1;
            },
            [],
          )))
  unfolding admit find_free_slot
  admit-cases = elim (Bool-cases (leb m.max_clients m.client_count)) [
    | inl full ↦ inl (net_file_error, (λ e. cc), rw full)
    | inr room ↦ elim (Option-cases (find_free_from m.clients 0)) [
      | inl taken ↦ inl (net_file_error, (λ e. cc), rw (room, taken))
      | inr (slot, found) ↦ elim (Bool-cases (g && s)) [
        | inr bad ↦ inl (net_file_error, (λ e. cc), rw (room, found, bad))
        | inl good ↦
            let (j, at, inside, free) = find_free_from-some m.clients 0 found in
            let here : slot ≡ j = omega arith in
            inr (
              slot,
              omega (arith, here, v.whole),
              ap (λ k. (get_or m.clients k vacant).active) here ∙ free,
              ground arith,
              rw (room, found, good),
            )
      ]
    ]
  ]

  -- `SilogRemoteAccept` of a connection keeps the table valid, and its descriptor is owned or closed.
  admit-IsValid : IsValid (admit m fd addr g s).1
  admit-IsValid = elim admit-cases [
    | inl (code, bad, e) ↦ rw e v
    | inr (slot, lt, free, room, e) ↦ rw e (record {
      whole = length-set m.clients slot _ ∙ v.whole;
      counted = ground (
        arith,
        count_active-set m.clients slot (record { fd = some fd; addr = addr; active = true })
            (omega (arith, v.whole)),
        v.counted,
        free,
      );
      slots = AllSlots-set m.clients slot _ v.slots (λ p. cc);
    })
  ]

  admit-owned :
      (x : ℕ)
      → times x (owned (admit m fd addr g s).1) + times x (admit m fd addr g s).2
        ≡ times x (owned m) + times x (fd ∷ [])
  admit-owned x = elim admit-cases [
    | inl (code, bad, e) ↦ rw e refl
    | inr (slot, lt, free, room, e) ↦
        let new : Client = record { fd = some fd; addr = addr; active = true } in
        rw e (
          omega (
            arith,
            times-append x (held (set m.clients slot new)) (fd_list m.listen_fd),
            times-append x (held m.clients) (fd_list m.listen_fd),
            times-held-set x m.clients slot new (omega (arith, v.whole)),
            ap (λ (b : Bool). times x (if b then fd_list (get_or m.clients slot vacant).fd else []))
                free,
          ))
  ]

accept-connection :
    (m : Manager) (fd addr : ℕ) (g s : Bool)
    → m.is_init ≡ true
    → accept m (connection fd addr) g s ≡ admit m fd addr g s
unfolding accept
accept-connection m fd addr g s on = ground arith

accept-off :
    (m : Manager) (answer : Accepted) (g s : Bool)
    → m.is_init ≡ false
    → accept m answer g s ≡ (net_file_error, m, [])
unfolding accept
accept-off m answer g s off = ground arith

accept-none_waiting :
    (m : Manager) (g s : Bool) → m.is_init ≡ true → accept m none_waiting g s ≡ (net_timeout, m, [])
unfolding accept
accept-none_waiting m g s on = ground arith

accept-accept_failed :
    (m : Manager) (g s : Bool)
    → m.is_init ≡ true
    → accept m accept_failed g s ≡ (net_file_error, m, [])
unfolding accept
accept-accept_failed m g s on = ground arith

accept-on :
    {m : Manager} (answer : Accepted) (g s : Bool)
    → IsValid m
    → m.is_init ≡ true
    → IsValid (accept m answer g s).1
      × ((x : ℕ)
          → times x (owned (accept m answer g s).1) + times x (accept m answer g s).2
            ≡ times x (owned m) + (if m.is_init then times x (opened_by answer) else 0))
accept-on {m} none_waiting g s v on = rw (accept-none_waiting m g s on) (v, λ x. ground (arith, on))
accept-on {m} accept_failed g s v on =
    rw (accept-accept_failed m g s on) (v, λ x. ground (arith, on))
accept-on {m} (connection fd addr) g s v on =
    rw (accept-connection m fd addr g s on)
      (admit-IsValid v fd addr g s, λ x. ground (arith, on, admit-owned v fd addr g s x))

-- `SilogRemoteAccept` keeps the table valid on every branch: its length is the maximum, the client
-- count is the number of active slots, and exactly the active slots have a descriptor. The descriptor
-- of a connection is then owned once more or closed, and all others are owned as before.
pub accept-IsValid :
    {m : Manager} (answer : Accepted) (g s : Bool)
    → IsValid m
    → IsValid (accept m answer g s).1
      × ((x : ℕ)
          → times x (owned (accept m answer g s).1) + times x (accept m answer g s).2
            ≡ times x (owned m) + (if m.is_init then times x (opened_by answer) else 0))
accept-IsValid {m} answer g s v = elim (Bool-cases m.is_init) [
  | inr off ↦ rw (accept-off m answer g s off) (v, λ x. ground (arith, off))
  | inl on ↦ accept-on answer g s v on
]
