-- ===== src/Cat/Loop/Sockets.antt =====
-- The descriptors of a run of silog_cat/src/silog_cat.c.
use si_log.Base.{
  ℕ, ◌≡◌, ◌∙◌, refl, sym, ap, subst, Bool, true, false, not, none, some, List, [], ◌∷◌, ◌++◌,
  if◌then◌else◌, arith, Bool-cases, inl, inr, if_holds,
}
use mathlib.Core.List.{append-nil}
use si_log.Base.Int.{ℤ}
use si_log.Errors.{ErrorCode, ok, is_ok}
use si_log.Time.{Tm}
use si_log.Prelog.{PrelogManager}
use si_log.Remote.Client.{ClientCtx, Received, client_deinit, connect, is_connected, fd_list}
use si_log.Remote.Client.Sockets.{
  often, often-append, IsLink, Kept, nothing-Kept, Kept-trans, client_deinit-same, receive-Kept,
  connect-Kept, connect-up, is_connected-IsLink, client_init-IsLink,
}
use si_log.Cat.{CatConfig, initial_config, Parsed, parsed, failed, exits, parse_args}
use si_log.Cat.Print.{Printed}
use si_log.Cat.Loop.{
  CatState, RoundCalls, receive_shown, after_connect, round, rounds, remote_client_config,
  start_client, show, show_parsed, main,
}

-- The sockets that the system makes in a round: one if the client connects.
abbrev pub made_in : CatState → RoundCalls → List ℕ
made_in st os = if is_connected st.client then [] else fd_list os.socket

abbrev pub made_all : CatConfig → (ℕ → Tm) → CatState → List RoundCalls → List ℕ
made_all c localtime st [] = []
made_all c localtime st (os ∷ calls) =
    made_in st os ++ made_all c localtime (round c localtime st os).0 calls

-- What a call of the loop does to the client's descriptors.
abbrev KeptBy : ClientCtx → List ℕ → CatState × List Printed × List ℕ → Type 0
KeptBy m made (st, lines, fds) = Kept m made st.client fds

after_connect-KeptBy :
    (c : CatConfig) (localtime : ℕ → Tm) (m : ClientCtx) (made : List ℕ)
    (r : ErrorCode × ClientCtx × List ℕ) (answer : Received)
    → Kept m made r.1 r.2
    → (is_ok r.0 ≡ true → r.1.is_connected ≡ true)
    → KeptBy m made (after_connect c localtime r answer)
unfolding after_connect receive_shown
after_connect-KeptBy c localtime m made (code, m', closed) answer k up =
    let t = receive_shown c localtime m' true answer in
    if_holds (KeptBy m made) (is_ok code) (t.0, t.1, closed ++ t.2)
      (record { client = m'; was_connected = false }, [], closed)
      (λ e.
        subst (λ fds. Kept m fds t.0.client (closed ++ t.2)) (append-nil made)
          (Kept-trans m m' t.0.client made closed [] t.2 k (receive-Kept m' answer k.link (up e))))
      (λ e. k)

round-KeptBy :
    (c : CatConfig) (localtime : ℕ → Tm) (st : CatState) (os : RoundCalls)
    → IsLink st.client
    → KeptBy st.client (made_in st os) (round c localtime st os)
unfolding round receive_shown
round-KeptBy c localtime st os h =
    let m = st.client in
    let r = connect m os.socket os.addr_ok os.connect_ok in
    let same = is_connected-IsLink m h in
    elim (Bool-cases (is_connected m)) [
      | inl e ↦
          subst
            (λ b. KeptBy m (if b then [] else fd_list os.socket) (
              if not b
              then after_connect c localtime r os.answer
              else receive_shown c localtime m st.was_connected os.answer))
            (sym e) (receive-Kept m os.answer h (sym same ∙ e))
      | inr e ↦
          subst
            (λ b. KeptBy m (if b then [] else fd_list os.socket) (
              if not b
              then after_connect c localtime r os.answer
              else receive_shown c localtime m st.was_connected os.answer))
            (sym e)
            (after_connect-KeptBy c localtime m (fd_list os.socket) r os.answer
              (connect-Kept m os.socket os.addr_ok os.connect_ok h (sym same ∙ e))
              (connect-up m os.socket os.addr_ok os.connect_ok))
    ]

rounds-KeptBy :
    (c : CatConfig) (localtime : ℕ → Tm) (st : CatState) (calls : List RoundCalls)
    → IsLink st.client
    → KeptBy st.client (made_all c localtime st calls) (rounds c localtime st calls)
unfolding rounds
rounds-KeptBy c localtime st [] h = nothing-Kept st.client h
rounds-KeptBy c localtime st (os ∷ calls) h =
    let r = round c localtime st os in
    let k = round-KeptBy c localtime st os h in
    let l = rounds c localtime r.0 calls in
    Kept-trans st.client r.0.client l.0.client (made_in st os) r.2 (made_all c localtime r.0 calls)
      l.2 k (rounds-KeptBy c localtime r.0 calls k.link)

-- The sockets made in a run, which depends on what the arguments say.
abbrev pub made_by : Parsed → (ℕ → Tm) → ClientCtx → List RoundCalls → List ℕ
made_by (parsed c) localtime m calls =
    made_all c localtime (record { client = (start_client m c).1; was_connected = false }) calls
made_by other localtime m calls = []

show-closes :
    (c : CatConfig) (localtime : ℕ → Tm) (code : ErrorCode) (m : ClientCtx)
    (calls : List RoundCalls) (x : ℕ)
    → IsLink m
    → m.socket_fd ≡ none
    → code ≡ ok
    → often x (made_all c localtime (record { client = m; was_connected = false }) calls)
      ≡ often x (show c localtime (code, m) calls).2
unfolding show
show-closes c localtime code m calls x h free e =
    let st : CatState = record { client = m; was_connected = false } in
    let r = rounds c localtime st calls in
    let k = rounds-KeptBy c localtime st calls h in
    let ended = client_deinit-same r.0.client x k.link in
    let same : often x (made_all c localtime st calls)
        ≡ often x (r.2 ++ (client_deinit r.0.client).1) =
      omega (
        arith,
        k.same x,
        ap (λ o. often x (fd_list o)) free,
        often-append x r.2 (client_deinit r.0.client).1,
        ended,
      ) in
    subst (λ b. often x (made_all c localtime st calls) ≡ often x (show c localtime (b, m) calls).2)
      (sym e) same

show_parsed-closes :
    (p : Parsed) (localtime : ℕ → Tm) (m : ClientCtx) (calls : List RoundCalls) (x : ℕ)
    → m.is_init ≡ false
    → often x (made_by p localtime m calls) ≡ often x (show_parsed p localtime m calls).2
unfolding show_parsed start_client
show_parsed-closes exits localtime m calls x off = refl
show_parsed-closes failed localtime m calls x off = refl
show_parsed-closes (parsed c) localtime m calls x off =
    let s = start_client m c in
    let h =
      client_init-IsLink initial_config.server_addr 9090 5000 m (some (remote_client_config c))
        off in
    show-closes c localtime s.0 s.1 calls x h.0 h.1 h.2

-- From a client that is not initialised, whatever the arguments say and the system answers: each descriptor is
-- closed as often as the system made it for a socket, over all rounds until the program ends.
pub main-closes :
    (atoi : List ℕ → ℤ) (localtime : ℕ → Tm) (prelog : PrelogManager) (opens : List ℕ → Bool)
    (m : ClientCtx) (args : List (List ℕ)) (calls : List RoundCalls) (x : ℕ)
    → m.is_init ≡ false
    → often x (made_by (parse_args atoi initial_config args) localtime m calls)
      ≡ often x (main atoi localtime prelog opens m args calls).3
unfolding main
main-closes atoi localtime prelog opens m args calls x off =
    show_parsed-closes (parse_args atoi initial_config args) localtime m calls x off
