-- ===== src/Cat/Loop/Sessions.antt =====
-- A whole run of silog_cat/src/silog_cat.c: connections that fail, that bring the frames of entries, and that end.
use si_log.Base.{
  arith, length-append, ℕ, ◌<◌, ◌≡◌, ◌∙◌, refl, sym, ap, subst, Bool, true, false, not, some, List,
  [], ◌∷◌, ◌++◌, if◌then◌else◌, length,
}
use mathlib.Core.List.{append-nil, append_assoc}
use si_log.Base.Int.{ℤ}
use si_log.Errors.{ErrorCode, ok}
use si_log.Entry.{LogEntry}
use si_log.Time.{Tm}
use si_log.Prelog.{PrelogManager}
use si_log.Remote.Wire.Roundtrip.{read_back}
use si_log.Remote.Client.{Received, ClientCtx, no_data, connect}
use si_log.Remote.Client.Receive.{receive-part}
use si_log.Remote.Client.Sockets.{
  IsDown, IsEnd, receive-ended, connect-refused, is_connected-down, connect-accepted, receive-quiet,
  client_init-IsLink, client_init-fresh,
}
use si_log.Cat.{CatConfig, initial_config, parsed, parse_args}
use si_log.Cat.Print.{Printed}
use si_log.Cat.Loop.{
  CatState, RoundCalls, shown, after_connect, receive_shown, round, rounds, remote_client_config,
  start_client, show, show_parsed, main,
}
use si_log.Cat.Loop.Frames.{brings, IsUp, rounds_for, round-up}
use si_log.Cat.Loop.Stream.{Arrival, IsArrival, rounds-arrival}
use si_log.Cat.Loop.Episodes.{
  connecting, stream, pieces_in, ending, Episode, refused, session, rounds_in, rounds_all,
  entries_read, entries_in, entries_all, AllArrivals, joined_all, IsEpisode, AllEpisodes,
}
use si_log.Cat.Loop.Yields.{Yields, Yields-append, Yields-nothing, Yields-quiet}

-- The client once it has connected.
abbrev linked : ClientCtx → ℕ → ClientCtx
linked m fd = record m { socket_fd = some fd; is_connected = true; received = [] }

round-connecting :
    (c : CatConfig) (localtime : ℕ → Tm) (st : CatState) (fd : ℕ)
    → IsDown st.client
    → round c localtime st (connecting fd)
      ≡ (record { client = linked st.client fd; was_connected = true }, [], [])
unfolding round after_connect receive_shown shown
round-connecting c localtime st fd (on, down) =
    let m = st.client in
    ap
      (λ b.
        if not b
        then after_connect c localtime (connect m (some fd) true true) no_data
        else receive_shown c localtime m st.was_connected no_data)
      (is_connected-down m down)
    ∙ (ap (λ r. after_connect c localtime r no_data) (connect-accepted m fd on down)
        ∙ ap
            (λ (r : ErrorCode × ClientCtx × List LogEntry × List ℕ).
              let left : CatState = record { client = r.1; was_connected = true } in
              (left, shown c localtime r.2, r.3))
            (receive-quiet (linked m fd) on refl))

-- A client that is connected and between two frames.
abbrev IsReady : ClientCtx → Type 0
IsReady m = IsUp m × (m.received ≡ [])

module _ (c : CatConfig) (localtime : ℕ → Tm) where
  connecting-Yields :
      (st : CatState) (fd : ℕ)
      → IsDown st.client
      → Yields c localtime st (connecting fd ∷ []) [] IsReady
  connecting-Yields st fd h =
      let e = round-connecting c localtime st fd h in
      Yields-quiet c localtime st (connecting fd) IsReady
        (ap (λ (r : CatState × List Printed × List ℕ). r.1) e)
        (subst (λ (r : CatState × List Printed × List ℕ). IsReady r.0.client) (sym e)
          ((h.0, refl), refl))

  arrival-Yields :
      (st : CatState) (a : Arrival)
      → IsReady st.client
      → IsArrival a
      → Yields c localtime st (rounds_for a.chunks a.last) (read_back a.entry ∷ []) IsReady
  arrival-Yields st a (up, empty) h =
      let (left, printed) = rounds-arrival c localtime st a up empty h in
      record {
        printed = printed;
        left = subst (λ (s : CatState). IsReady s.client) (sym left) (up, refl);
      }

  stream-Yields :
      (st : CatState) (arrivals : List Arrival)
      → IsReady st.client
      → AllArrivals arrivals
      → Yields c localtime st (stream arrivals) (entries_read arrivals) IsReady
  stream-Yields st [] ready h = Yields-nothing c localtime st IsReady ready
  stream-Yields st (a ∷ rest) ready h =
      Yields-append c localtime st (rounds_for a.chunks a.last) (stream rest)
        (read_back a.entry ∷ []) (entries_read rest) IsReady IsReady (arrival-Yields st a ready h.0)
        (λ st' ready'. stream-Yields st' rest ready' h.1)

  -- A client that is connected, with room for some pieces before the frame is whole.
  abbrev HasRoom : List (List ℕ) → ClientCtx → Type 0
  HasRoom pieces m = IsUp m × (length (m.received ++ joined_all pieces) < 377)

  piece-Yields :
      (st : CatState) (chunk : List ℕ) (rest : List (List ℕ))
      → HasRoom (chunk ∷ rest) st.client
      → Yields c localtime st (brings chunk ∷ []) [] (HasRoom rest)
  unfolding receive_shown shown
  piece-Yields st chunk rest (up, short) =
      let m = st.client in
      let all : m.received ++ (chunk ++ joined_all rest)
          ≡ (m.received ++ chunk) ++ joined_all rest =
        sym (append_assoc m.received chunk (joined_all rest)) in
      let fits : length ((m.received ++ chunk) ++ joined_all rest) < 377 =
        subst (λ t. length t < 377) all short in
      let e =
        round-up c localtime st (brings chunk) up
        ∙ ap
            (λ (r : ErrorCode × ClientCtx × List LogEntry × List ℕ).
              let left : CatState = record { client = r.1; was_connected = st.was_connected } in
              (left, shown c localtime r.2, r.3))
            (receive-part m chunk up.0 up.1
              (omega (arith, fits, length-append (m.received ++ chunk) (joined_all rest)))) in
      Yields-quiet c localtime st (brings chunk) (HasRoom rest)
        (ap (λ (r : CatState × List Printed × List ℕ). r.1) e)
        (subst (λ (r : CatState × List Printed × List ℕ). HasRoom rest r.0.client) (sym e)
          (up, fits))

  pieces-Yields :
      (st : CatState) (pieces : List (List ℕ))
      → HasRoom pieces st.client
      → Yields c localtime st (pieces_in pieces) [] IsUp
  pieces-Yields st [] h = Yields-nothing c localtime st IsUp h.0
  pieces-Yields st (chunk ∷ rest) h =
      Yields-append c localtime st (brings chunk ∷ []) (pieces_in rest) [] [] (HasRoom rest) IsUp
        (piece-Yields st chunk rest h) (λ st' h'. pieces-Yields st' rest h')

  ending-Yields :
      (st : CatState) (answer : Received)
      → IsEnd answer
      → IsUp st.client
      → Yields c localtime st (ending answer ∷ []) [] IsDown
  unfolding receive_shown shown
  ending-Yields st answer h up =
      let e = round-up c localtime st (ending answer) up in
      let (silent, down) = receive-ended st.client answer h up.0 up.1 in
      Yields-quiet c localtime st (ending answer) IsDown
        (ap (λ (r : CatState × List Printed × List ℕ). r.1) e ∙ ap (shown c localtime) silent)
        (subst (λ (r : CatState × List Printed × List ℕ). IsDown r.0.client) (sym e) down)

  refused-Yields :
      (st : CatState) (os : RoundCalls)
      → IsEpisode (refused os)
      → IsDown st.client
      → Yields c localtime st (os ∷ []) [] IsDown
  unfolding round after_connect
  refused-Yields st os h down =
      let m = st.client in
      let r = connect m os.socket os.addr_ok os.connect_ok in
      let (fails, down') = connect-refused m os.socket os.addr_ok os.connect_ok down h in
      let t = receive_shown c localtime r.1 true os.answer in
      let e =
        ap
          (λ b.
            if not b
            then after_connect c localtime r os.answer
            else receive_shown c localtime m st.was_connected os.answer)
          (is_connected-down m down.1)
        ∙ ap
            (λ b.
              let left : CatState = record { client = r.1; was_connected = false } in
              if b then (t.0, t.1, r.2 ++ t.2) else (left, [], r.2))
            fails in
      Yields-quiet c localtime st os IsDown (ap (λ (r : CatState × List Printed × List ℕ). r.1) e)
        (subst (λ (r : CatState × List Printed × List ℕ). IsDown r.0.client) (sym e) down')

  episode-Yields :
      (st : CatState) (e : Episode)
      → IsDown st.client
      → IsEpisode e
      → Yields c localtime st (rounds_in e) (entries_in e) IsDown
  episode-Yields st (refused os) down h = refused-Yields st os h down
  episode-Yields st (session fd arrivals pieces answer) down h =
      let last = ending answer ∷ [] in
      Yields-append c localtime st (connecting fd ∷ [])
        (stream arrivals ++ (pieces_in pieces ++ last)) [] (entries_read arrivals) IsReady IsDown
        (connecting-Yields st fd down)
        (λ st1 ready.
          subst
            (λ es. Yields c localtime st1 (stream arrivals ++ (pieces_in pieces ++ last)) es IsDown)
            (append-nil (entries_read arrivals))
            (Yields-append c localtime st1 (stream arrivals) (pieces_in pieces ++ last)
              (entries_read arrivals) [] IsReady IsDown (stream-Yields st1 arrivals ready h.0)
              (λ st2 ready2.
                Yields-append c localtime st2 (pieces_in pieces) last [] [] IsUp IsDown
                  (pieces-Yields st2 pieces (
                    ready2.0,
                    subst (λ t. length (t ++ joined_all pieces) < 377) (sym ready2.1) h.1,
                  ))
                  (λ st3 up. ending-Yields st3 answer h.2 up))))

  episodes-Yields :
      (st : CatState) (episodes : List Episode)
      → IsDown st.client
      → AllEpisodes episodes
      → Yields c localtime st (rounds_all episodes) (entries_all episodes) IsDown
  episodes-Yields st [] down h = Yields-nothing c localtime st IsDown down
  episodes-Yields st (e ∷ rest) down h =
      Yields-append c localtime st (rounds_in e) (rounds_all rest) (entries_in e) (entries_all rest)
        IsDown IsDown (episode-Yields st e down h.0)
        (λ st' down'. episodes-Yields st' rest down' h.1)

show-prints :
    (c : CatConfig) (localtime : ℕ → Tm) (code : ErrorCode) (m : ClientCtx)
    (calls : List RoundCalls)
    → code ≡ ok
    → ((show c localtime (code, m) calls).0 ≡ 0)
      × ((show c localtime (code, m) calls).1
          ≡ (rounds c localtime (record { client = m; was_connected = false }) calls).1)
unfolding show
show-prints c localtime code m calls e =
    let r = rounds c localtime (record { client = m; was_connected = false }) calls in
    subst (λ k. ((show c localtime (k, m) calls).0 ≡ 0) × ((show c localtime (k, m) calls).1 ≡ r.1))
      (sym e) (refl, refl)

-- `main` with arguments that set the configuration `c`, from a client that is not initialised, over any number of
-- episodes: tries to connect that fail, and connections that each bring the frames of some entries, in pieces of which
-- a frame's last is not empty, perhaps the beginning of one more frame, and then end. When a signal ends the loop, the
-- program has exited with 0 and printed, in order, exactly what the callback prints for the entries whose frames
-- arrived whole, each as it is read back: a frame that was cut off spoils no later one. The numbers of these entries
-- fit their words, and their arrays are whole and ended.
pub main-prints :
    (atoi : List ℕ → ℤ) (localtime : ℕ → Tm) (prelog : PrelogManager) (opens : List ℕ → Bool)
    (m : ClientCtx) (args : List (List ℕ)) (c : CatConfig) (episodes : List Episode)
    → m.is_init ≡ false
    → parse_args atoi initial_config args ≡ parsed c
    → AllEpisodes episodes
    → (let r = main atoi localtime prelog opens m args (rounds_all episodes) in
        (r.1 ≡ 0) × (r.2 ≡ shown c localtime (entries_all episodes)))
unfolding main show_parsed show start_client
main-prints atoi localtime prelog opens m args c episodes off said h =
    let s = start_client m c in
    let addr = initial_config.server_addr in
    let config = some (remote_client_config c) in
    let init = client_init-IsLink addr 9090 5000 m config off in
    let down = client_init-fresh addr 9090 5000 m config off in
    let calls = rounds_all episodes in
    let shows = show-prints c localtime s.0 s.1 calls init.2 in
    let st : CatState = record { client = s.1; was_connected = false } in
    let all = episodes-Yields c localtime st episodes down h in
    subst
      (λ p.
        ((show_parsed p localtime m calls).0 ≡ 0)
        × ((show_parsed p localtime m calls).1 ≡ shown c localtime (entries_all episodes)))
      (sym said) (shows.0, shows.1 ∙ all.printed)
