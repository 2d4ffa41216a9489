-- ===== src/Remote/Server/Service.antt =====
-- `SilogRemoteInit` and `SilogRemoteDeinit` of silog_comm/src/silog_remote.c: what they open and close.
use si_log.Base.{
  ℕ, zero, suc, ◌+◌, ◌-◌, ◌≤◌, ◌≡◌, ◌≢◌, ◌⊎◌, ◌∙◌, refl, ap, sym, true, false, Option, none, some,
  List, [], ◌∷◌, ◌++◌, ◌&&◌, ltb, if◌then◌else◌, length, replicate, length-replicate, length-append,
  arith, Bool-cases, Option-cases, inl, inr,
}
use mathlib.Core.List.{append_assoc}
use si_log.Errors.{ErrorCode, ok, net_file_error, net_file_create, net_file_open, out_of_memory}
use si_log.Remote.Server.{
  Client, Manager, Config, InitCalls, vacant, fd_list, closed_by, close_client, apply_config,
  open_service, init, close_from, deinit,
}
use si_log.Remote.Server.Table.{
  held, AllSlots-replicate, count_active-replicate, held-replicate, close_client-middle,
}
use si_log.Remote.Server.Inv.{IsValid, owned}

-- The loop of a deinitialisation vacates every slot from `i` on and closes its descriptor.
close_from-middle :
    (k i : ℕ) (m : Manager) (pre cs : List Client)
    → m.clients ≡ pre ++ cs
    → i ≡ length pre
    → length cs ≡ k
    → i + k ≤ m.max_clients
    → ((close_from k i m).0.clients ≡ pre ++ replicate k vacant)
      × ((close_from k i m).0.listen_fd ≡ m.listen_fd)
      × ((close_from k i m).1 ≡ held cs)
unfolding close_from
close_from-middle zero i m pre [] e at l b = (e, refl, refl)
close_from-middle zero i m pre (c ∷ cs) e at l b = absurd (omega arith)
close_from-middle (suc k) i m pre [] e at l b = absurd (omega arith)
close_from-middle (suc k) i m pre (c ∷ cs) e at l b =
    let count = if c.active && ltb 0 m.client_count then m.client_count - 1 else m.client_count in
    let m' : Manager = record m { clients = pre ++ vacant ∷ cs; client_count = count } in
    let step : close_client m i ≡ (m', closed_by c) =
      ap (close_client m) at ∙ close_client-middle m pre c cs e (omega (arith, at)) in
    let (shape, listen, closed) =
      close_from-middle k (i + 1) m' (pre ++ vacant ∷ []) cs
        (sym (append_assoc pre (vacant ∷ []) cs))
        (omega (arith, at, length-append pre (vacant ∷ []))) (omega arith) (omega arith) in
    rw step (
      shape ∙ append_assoc pre (vacant ∷ []) (replicate k vacant),
      listen,
      ap (λ l. closed_by c ++ l) closed,
    )

-- `SilogRemoteDeinit` of a valid initialised table closes exactly the descriptors that the manager
-- owns, each once, and leaves it uninitialised, owning none.
pub deinit-owned :
    {m : Manager}
    → IsValid m
    → m.is_init ≡ true
    → ((deinit m).1 ≡ owned m)
      × ((deinit m).0.is_init ≡ false)
      × (owned (deinit m).0 ≡ [])
      × ((deinit m).0.client_count ≡ 0)
unfolding deinit
deinit-owned {m} v on =
    let (shape, listen, closed) =
      close_from-middle m.max_clients 0 m [] m.clients refl refl v.whole (omega arith) in
    ground (arith, on, listen, closed)

-- What `SilogRemoteInit` does for a socket that it has opened.
open_service-cases :
    (m : Manager) (fd : ℕ) (os : InitCalls)
    → (open_service m fd os ≡ (ok, record m { listen_fd = some fd; is_init = true }, []))
      ⊎ ((code : ErrorCode) × (code ≢ ok)
          × (open_service m fd os ≡ (code, record m { listen_fd = none; clients = [] }, fd ∷ [])))
unfolding open_service
open_service-cases m fd os = elim (Bool-cases os.bind_ok) [
  | inr bad ↦ inr (net_file_open, (λ e. cc), rw bad)
  | inl bound ↦ elim (Bool-cases os.listen_ok) [
    | inr bad ↦ inr (net_file_error, (λ e. cc), rw (bound, bad))
    | inl listening ↦ elim (Bool-cases (os.get_flags_ok && os.set_flags_ok)) [
      | inr bad ↦ inr (net_file_error, (λ e. cc), rw (bound, listening, bad))
      | inl good ↦ inl (rw (bound, listening, good))
    ]
  ]
]

-- The table with which `SilogRemoteInit` goes on after the allocation.
abbrev empty_table : Manager → Option Config → Manager
empty_table m config = record (apply_config m config) {
  clients = replicate (apply_config m config).max_clients vacant;
  client_count = 0;
}

apply_config-kept :
    (m : Manager) (config : Option Config)
    → ((apply_config m config).is_init ≡ m.is_init)
      × ((apply_config m config).listen_fd ≡ m.listen_fd)
unfolding apply_config
apply_config-kept m none = (refl, refl)
apply_config-kept m (some config) = (refl, refl)

init-no_memory :
    (m : Manager) (config : Option Config) (os : InitCalls)
    → m.is_init ≡ false
    → os.malloc_ok ≡ false
    → init m config os ≡ (out_of_memory, record (apply_config m config) { clients = [] }, [])
unfolding init
init-no_memory m config os off poor = ground arith

init-no_socket :
    (m : Manager) (config : Option Config) (os : InitCalls)
    → m.is_init ≡ false
    → os.malloc_ok ≡ true
    → os.socket ≡ none
    → init m config os
      ≡ (net_file_create, record (empty_table m config) { listen_fd = none; clients = [] }, [])
unfolding init
init-no_socket m config os off rich bad = ground arith

init-opens :
    (m : Manager) (config : Option Config) (os : InitCalls) (fd : ℕ)
    → m.is_init ≡ false
    → os.malloc_ok ≡ true
    → os.socket ≡ some fd
    → init m config os ≡ open_service (empty_table m config) fd os
unfolding init
init-opens m config os fd off rich good = ground arith

-- What the caller of `SilogRemoteInit` has afterwards: a running service that owns its listening
-- socket, or an error, nothing owned and the socket that was opened closed again.
pub record Started (config : Option Config) (os : InitCalls) (m m' : Manager) (closed : List ℕ)
    : Type 0 where
  pub fd : ℕ
  pub socket : os.socket ≡ some fd
  pub kept : closed ≡ []
  pub running : m'.is_init ≡ true
  pub valid : IsValid m'
  pub idle : m'.client_count ≡ 0
  pub maximum : m'.max_clients ≡ (apply_config m config).max_clients
  pub owns : owned m' ≡ fd ∷ []

pub record Refused (os : InitCalls) (m' : Manager) (closed : List ℕ) : Type 0 where
  pub stopped : m'.is_init ≡ false
  pub owns : owned m' ≡ []
  pub undone : closed ≡ (if os.malloc_ok then fd_list os.socket else [])

-- From an uninitialised manager without a socket, `SilogRemoteInit` either answers `SILOG_OK` and
-- leaves an empty valid table with the configured maximum that owns the listening socket and nothing
-- else, or answers an error, leaves the manager uninitialised and owning nothing, and has closed
-- exactly the socket that it opened.
pub init-IsValid :
    (m : Manager) (config : Option Config) (os : InitCalls)
    → m.is_init ≡ false
    → m.listen_fd ≡ none
    → (((init m config os).0 ≡ ok) × Started config os m (init m config os).1 (init m config os).2)
      ⊎ (((init m config os).0 ≢ ok) × Refused os (init m config os).1 (init m config os).2)
init-IsValid m config os off bare =
    let (still, free) = apply_config-kept m config in
    elim (Bool-cases os.malloc_ok) [
      | inr poor ↦ rw (init-no_memory m config os off poor) (
          inr (
            (λ e. cc),
            record {
              stopped = still ∙ off;
              owns = ap fd_list (free ∙ bare);
              undone = ground (arith, poor);
            },
          ))
      | inl rich ↦ elim (Option-cases os.socket) [
        | inl bad ↦ rw (init-no_socket m config os off rich bad) (
            inr (
              (λ e. cc),
              record { stopped = still ∙ off; owns = refl; undone = ground (arith, rich, bad) },
            ))
        | inr (fd, good) ↦ elim (open_service-cases (empty_table m config) fd os) [
          | inl e ↦
              rw (init-opens m config os fd off rich good, e)
                (inl (
                  refl,
                  record {
                    fd = fd;
                    socket = good;
                    kept = refl;
                    running = refl;
                    valid = record {
                      whole = length-replicate (apply_config m config).max_clients vacant;
                      counted = sym (count_active-replicate (apply_config m config).max_clients);
                      slots = AllSlots-replicate (apply_config m config).max_clients;
                    };
                    idle = refl;
                    maximum = refl;
                    owns =
                        ap (λ l. l ++ fd ∷ []) (held-replicate (apply_config m config).max_clients);
                  },
                ))
          | inr (code, bad, e) ↦
              rw (init-opens m config os fd off rich good, e)
                (inr (
                  bad,
                  record {
                    stopped = still ∙ off;
                    owns = refl;
                    undone = ground (arith, rich, good);
                  },
                ))
        ]
      ]
    ]
