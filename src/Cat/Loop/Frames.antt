-- ===== src/Cat/Loop/Frames.antt =====
-- The loop of silog_cat/src/silog_cat.c over rounds in which a frame arrives in pieces.
use si_log.Base.{ℕ, ◌≡◌, ◌∙◌, refl, sym, ap, true, false, Option, none, some, List, [], ◌∷◌, ◌++◌}
use mathlib.Core.List.{append-nil}
use si_log.Entry.{LogEntry}
use si_log.Time.{Tm}
use si_log.Remote.Client.{ClientCtx, bytes, receive}
use si_log.Remote.Client.Receive.{receive_all, receive-kept, is_connected_lem}
use si_log.Cat.{CatConfig}
use si_log.Cat.Print.{Printed, print_log}
use si_log.Cat.Loop.{CatState, RoundCalls, after_line, shown, receive_shown, round, rounds}

-- A client that is connected.
abbrev pub IsUp : ClientCtx → Type 0
IsUp m = (m.is_init ≡ true) × (m.is_connected ≡ true)

-- The round in which `recv` answers some bytes.
abbrev pub brings : List ℕ → RoundCalls
brings chunk = record { socket = none; addr_ok = false; connect_ok = false; answer = bytes chunk }

abbrev pub rounds_for : List (List ℕ) → List ℕ → List RoundCalls
rounds_for [] last = brings last ∷ []
rounds_for (c ∷ chunks) last = brings c ∷ rounds_for chunks last

after_line-append :
    (o : Option Printed) (xs ys : List Printed) → after_line o (xs ++ ys) ≡ after_line o xs ++ ys
after_line-append none xs ys = refl
after_line-append (some line) xs ys = refl

pub shown-append :
    (c : CatConfig) (localtime : ℕ → Tm) (es fs : List LogEntry)
    → shown c localtime (es ++ fs) ≡ shown c localtime es ++ shown c localtime fs
unfolding shown
shown-append c localtime [] fs = refl
shown-append c localtime (e ∷ es) fs =
    let first = print_log c localtime e in
    ap (after_line first) (shown-append c localtime es fs)
    ∙ after_line-append first (shown c localtime es) (shown c localtime fs)

-- A round of a client that is connected.
pub round-up :
    (c : CatConfig) (localtime : ℕ → Tm) (st : CatState) (os : RoundCalls)
    → IsUp st.client
    → round c localtime st os ≡ receive_shown c localtime st.client st.was_connected os.answer
unfolding round
round-up c localtime st os (on, up) = rw (is_connected_lem st.client on up) refl

-- The lines printed are those for the entries that the client passes on.
pub rounds-receive_all :
    (c : CatConfig) (localtime : ℕ → Tm) (st : CatState) (chunks : List (List ℕ)) (last : List ℕ)
    → IsUp st.client
    → (rounds c localtime st (rounds_for chunks last)).1
      ≡ shown c localtime (receive_all st.client chunks last).1
unfolding rounds receive_shown
rounds-receive_all c localtime st [] last up =
    ap (λ (r : CatState × List Printed × List ℕ). r.1 ++ [])
      (round-up c localtime st (brings last) up)
    ∙ append-nil (shown c localtime (receive st.client true (bytes last)).2)
rounds-receive_all c localtime st (chunk ∷ chunks) last up =
    let r = receive st.client true (bytes chunk) in
    let st' : CatState = record { client = r.1; was_connected = st.was_connected } in
    let rest = receive_all r.1 chunks last in
    ap
      (λ (r : CatState × List Printed × List ℕ).
        r.1 ++ (rounds c localtime r.0 (rounds_for chunks last)).1)
      (round-up c localtime st (brings chunk) up)
    ∙ (ap (λ t. shown c localtime r.2 ++ t)
          (rounds-receive_all c localtime st' chunks last (receive-kept st.client chunk up.0 up.1))
        ∙ sym (shown-append c localtime r.2 rest.1))
