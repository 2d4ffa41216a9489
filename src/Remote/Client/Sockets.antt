-- ===== src/Remote/Client/Sockets.antt =====
-- The descriptors of the client in silog_comm/src/silog_remote.c.
use si_log.Base.{
  ◌⊎◌, ℕ, ◌+◌, ◌≡◌, refl, ap, Bool, true, false, ◌&&◌, Option, none, some, List, [], ◌∷◌, ◌++◌,
  ◌==◌, if◌then◌else◌, arith,
}
use si_log.Errors.{ok, net_timeout, is_ok}
use si_log.Remote.Client.{
  ClientConfig, ClientCtx, Received, interrupted, select_failed, no_data, would_block, recv_failed,
  closed, bytes, fd_list, client_init, client_deinit, disconnect, connect, is_connected, receive,
  take_frame,
}

-- How often a descriptor stands in a list.
abbrev pub often : ℕ → List ℕ → ℕ
often x [] = 0
often x (fd ∷ fds) = (if x == fd then 1 else 0) + often x fds

pub often-append : (x : ℕ) (fds gds : List ℕ) → often x (fds ++ gds) ≡ often x fds + often x gds
often-append x [] gds = omega arith
often-append x (fd ∷ fds) gds = omega (arith, often-append x fds gds)

-- A client that is initialised, and has no descriptor while it is not connected.
abbrev pub IsLink : ClientCtx → Type 0
IsLink m = (m.is_init ≡ true) × (m.is_connected ≡ false → m.socket_fd ≡ none)

-- What a call does to the descriptors, if it makes some.
pub record Kept (m : ClientCtx) (made : List ℕ) (m' : ClientCtx) (fds : List ℕ) : Type 0 where
  pub link : IsLink m'
  pub same :
      (x : ℕ)
      → often x (fd_list m.socket_fd) + often x made ≡ often x (fd_list m'.socket_fd) + often x fds

pub nothing-Kept : (m : ClientCtx) → IsLink m → Kept m [] m []
nothing-Kept m h = record { link = h; same = λ x. refl }

pub Kept-trans :
    (m m' m'' : ClientCtx) (made fds more gds : List ℕ)
    → Kept m made m' fds
    → Kept m' more m'' gds
    → Kept m (made ++ more) m'' (fds ++ gds)
Kept-trans m m' m'' made fds more gds p q = record {
  link = q.link;
  same = λ x. omega (arith, p.same x, q.same x, often-append x made more, often-append x fds gds);
}

disconnect-Kept : (m : ClientCtx) → IsLink m → Kept m [] (disconnect m).0 (disconnect m).1
unfolding disconnect
disconnect-Kept m (on, free) = record {
  link = (ground (arith, on), λ e. ground (arith, on));
  same = λ x. ground (arith, on);
}

pub client_deinit-same :
    (m : ClientCtx) (x : ℕ) → IsLink m → often x (client_deinit m).1 ≡ often x (fd_list m.socket_fd)
unfolding client_deinit disconnect
client_deinit-same m x (on, free) = ground (arith, on)

take_frame-Kept :
    (m : ClientCtx) (buf : List ℕ) → IsLink m → Kept m [] (take_frame m buf).1 (take_frame m buf).3
unfolding take_frame
take_frame-Kept m buf (on, free) = record {
  link = (ground (arith, on), λ e. ground (arith, on, free));
  same = λ x. ground arith;
}

pub receive-Kept :
    (m : ClientCtx) (answer : Received)
    → IsLink m
    → m.is_connected ≡ true
    → Kept m [] (receive m true answer).1 (receive m true answer).3
unfolding receive
receive-Kept m interrupted h up = simp (h.0, up) (nothing-Kept m h)
receive-Kept m no_data h up = simp (h.0, up) (nothing-Kept m h)
receive-Kept m would_block h up = simp (h.0, up) (nothing-Kept m h)
receive-Kept m select_failed h up = simp (h.0, up) (disconnect-Kept m h)
receive-Kept m recv_failed h up = simp (h.0, up) (disconnect-Kept m h)
receive-Kept m closed h up = simp (h.0, up) (disconnect-Kept m h)
receive-Kept m (bytes chunk) h up = simp (h.0, up) (take_frame-Kept m (m.received ++ chunk) h)

pub connect-Kept :
    (m : ClientCtx) (socket : Option ℕ) (addr_ok connect_ok : Bool)
    → IsLink m
    → m.is_connected ≡ false
    → Kept m
        (fd_list socket)
        (connect m socket addr_ok connect_ok).1
        (connect m socket addr_ok connect_ok).2
unfolding connect
connect-Kept m none addr_ok connect_ok (on, free) down = record {
  link = (ground (arith, on, down), λ e. ground (arith, on, down));
  same = λ x. ground (arith, on, down, free down);
}
connect-Kept m (some fd) addr_ok connect_ok (on, free) down = record {
  link = (ground (arith, on, down), λ e. ground (arith, on, down, e));
  same = λ x. ground (arith, on, down, free down);
}

-- A connection that answers `ok` is one.
pub connect-up :
    (m : ClientCtx) (socket : Option ℕ) (addr_ok connect_ok : Bool)
    → is_ok (connect m socket addr_ok connect_ok).0 ≡ true
    → (connect m socket addr_ok connect_ok).1.is_connected ≡ true
unfolding connect
connect-up m socket addr_ok connect_ok h = ground (arith, h)

pub is_connected-IsLink : (m : ClientCtx) → IsLink m → is_connected m ≡ m.is_connected
unfolding is_connected
is_connected-IsLink m (on, free) = ap (λ b. b && m.is_connected) on

pub client_init-IsLink :
    (addr : List ℕ) (port reconnect : ℕ) (m : ClientCtx) (config : Option ClientConfig)
    → m.is_init ≡ false
    → IsLink (client_init addr port reconnect m config).1
      × ((client_init addr port reconnect m config).1.socket_fd ≡ none)
      × ((client_init addr port reconnect m config).0 ≡ ok)
unfolding client_init
client_init-IsLink addr port reconnect m config off =
    ((ground (arith, off), λ e. ground (arith, off)), ground (arith, off), ground (arith, off))

pub is_connected-down : (m : ClientCtx) → m.is_connected ≡ false → is_connected m ≡ false
unfolding is_connected
is_connected-down m down = ground (arith, down)

-- A connection that succeeds.
pub connect-accepted :
    (m : ClientCtx) (fd : ℕ)
    → m.is_init ≡ true
    → m.is_connected ≡ false
    → connect m (some fd) true true
      ≡ (ok, record m { socket_fd = some fd; is_connected = true; received = [] }, [])
unfolding connect
connect-accepted m fd on down = ground (arith, on, down)

-- A call in which nothing arrives.
pub receive-quiet :
    (m : ClientCtx)
    → m.is_init ≡ true
    → m.is_connected ≡ true
    → receive m true no_data ≡ (net_timeout, m, [], [])
unfolding receive
receive-quiet m on up = ground (arith, on, up)

pub client_init-fresh :
    (addr : List ℕ) (port reconnect : ℕ) (m : ClientCtx) (config : Option ClientConfig)
    → m.is_init ≡ false
    → ((client_init addr port reconnect m config).1.is_init ≡ true)
      × ((client_init addr port reconnect m config).1.is_connected ≡ false)
unfolding client_init
client_init-fresh addr port reconnect m config off = (ground (arith, off), ground (arith, off))

-- The answers after which `SilogRemoteClientReceive` closes the connection.
abbrev pub IsEnd : Received → Type 0
IsEnd select_failed = Unit
IsEnd recv_failed = Unit
IsEnd closed = Unit
IsEnd other = ⊥

-- A client that is initialised and not connected.
abbrev pub IsDown : ClientCtx → Type 0
IsDown m = (m.is_init ≡ true) × (m.is_connected ≡ false)

pub receive-ended :
    (m : ClientCtx) (answer : Received)
    → IsEnd answer
    → m.is_init ≡ true
    → m.is_connected ≡ true
    → ((receive m true answer).2 ≡ []) × IsDown (receive m true answer).1
unfolding receive disconnect
receive-ended m interrupted h on up = absurd h
receive-ended m no_data h on up = absurd h
receive-ended m would_block h on up = absurd h
receive-ended m (bytes chunk) h on up = absurd h
receive-ended m select_failed h on up =
    (ground (arith, on, up), (ground (arith, on, up), ground (arith, on, up)))
receive-ended m recv_failed h on up =
    (ground (arith, on, up), (ground (arith, on, up), ground (arith, on, up)))
receive-ended m closed h on up =
    (ground (arith, on, up), (ground (arith, on, up), ground (arith, on, up)))

-- A connection that fails.
pub connect-refused :
    (m : ClientCtx) (socket : Option ℕ) (addr_ok connect_ok : Bool)
    → IsDown m
    → (socket ≡ none) ⊎ ((addr_ok && connect_ok) ≡ false)
    → (is_ok (connect m socket addr_ok connect_ok).0 ≡ false)
      × IsDown (connect m socket addr_ok connect_ok).1
unfolding connect
connect-refused m none addr_ok connect_ok (on, down) h =
    (ground (arith, on, down), (ground (arith, on, down), ground (arith, on, down)))
connect-refused m (some fd) addr_ok connect_ok (on, down) h =
    (ground (arith, on, down, h), (ground (arith, on, down, h), ground (arith, on, down, h)))
