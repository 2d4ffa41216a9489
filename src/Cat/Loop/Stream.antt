-- ===== src/Cat/Loop/Stream.antt =====
-- The loop of silog_cat/src/silog_cat.c over the rounds in which the frame of an entry arrives.
use si_log.Base.{ℕ, ◌<◌, ◌≡◌, ◌∙◌, refl, sym, ap, true, List, [], ◌∷◌, ◌++◌, length}
use mathlib.Core.List.{append_assoc}
use si_log.Entry.{LogEntry}
use si_log.Time.{Tm}
use si_log.Remote.Wire.Roundtrip.{IsEntry, read_back, wire}
use si_log.Remote.Client.{ClientCtx, bytes, receive}
use si_log.Remote.Client.Receive.{joined, receive_all, receive_all-wire, receive-kept}
use si_log.Cat.{CatConfig}
use si_log.Cat.Print.{Printed}
use si_log.Cat.Loop.{CatState, RoundCalls, shown, receive_shown, round, rounds}
use si_log.Cat.Loop.Frames.{brings, IsUp, rounds_for, round-up, rounds-receive_all}

-- An entry with the pieces in which its frame arrives.
pub record Arrival : Type 0 where
  pub entry : LogEntry
  pub chunks : List (List ℕ)
  pub last : List ℕ

-- The pieces make up the frame, and the last one is not empty.
pub record IsArrival (a : Arrival) : Type 0 where
  pub fits : IsEntry a.entry
  pub last_some : 0 < length a.last
  pub whole : joined a.chunks a.last ≡ wire a.entry

pub rounds-append :
    (c : CatConfig) (localtime : ℕ → Tm) (st : CatState) (xs ys : List RoundCalls)
    → (rounds c localtime st (xs ++ ys)).1
      ≡ (rounds c localtime st xs).1 ++ (rounds c localtime (rounds c localtime st xs).0 ys).1
unfolding rounds
rounds-append c localtime st [] ys = refl
rounds-append c localtime st (os ∷ xs) ys =
    let r = round c localtime st os in
    ap (λ t. r.1 ++ t) (rounds-append c localtime r.0 xs ys)
    ∙ sym (
        append_assoc r.1 (rounds c localtime r.0 xs).1
          (rounds c localtime (rounds c localtime r.0 xs).0 ys).1)

pub rounds-left :
    (c : CatConfig) (localtime : ℕ → Tm) (st : CatState) (xs ys : List RoundCalls)
    → (rounds c localtime st (xs ++ ys)).0 ≡ (rounds c localtime (rounds c localtime st xs).0 ys).0
unfolding rounds
rounds-left c localtime st [] ys = refl
rounds-left c localtime st (os ∷ xs) ys = rounds-left c localtime (round c localtime st os).0 xs ys

rounds-client :
    (c : CatConfig) (localtime : ℕ → Tm) (st : CatState) (chunks : List (List ℕ)) (last : List ℕ)
    → IsUp st.client
    → (rounds c localtime st (rounds_for chunks last)).0
      ≡ record { client = (receive_all st.client chunks last).0; was_connected = st.was_connected }
unfolding rounds receive_shown
rounds-client c localtime st [] last up =
    ap (λ (r : CatState × List Printed × List ℕ). r.0) (round-up c localtime st (brings last) up)
rounds-client c localtime st (chunk ∷ chunks) last up =
    let r = receive st.client true (bytes chunk) in
    ap
      (λ (r : CatState × List Printed × List ℕ).
        (rounds c localtime r.0 (rounds_for chunks last)).0)
      (round-up c localtime st (brings chunk) up)
    ∙ rounds-client c localtime (record { client = r.1; was_connected = st.was_connected }) chunks
        last (receive-kept st.client chunk up.0 up.1)

-- What the frame of one entry prints, and the state that it leaves.
pub rounds-arrival :
    (c : CatConfig) (localtime : ℕ → Tm) (st : CatState) (a : Arrival)
    → IsUp st.client
    → st.client.received ≡ []
    → IsArrival a
    → ((rounds c localtime st (rounds_for a.chunks a.last)).0
        ≡ record st { client = record st.client { received = [] } })
      × ((rounds c localtime st (rounds_for a.chunks a.last)).1
          ≡ shown c localtime (read_back a.entry ∷ []))
rounds-arrival c localtime st a up empty h =
    let all =
      receive_all-wire st.client a.chunks a.last a.entry up.0 up.1 h.fits h.last_some
        (ap (λ t. t ++ joined a.chunks a.last) empty ∙ h.whole) in
    (
      rounds-client c localtime st a.chunks a.last up
          ∙ ap
              (λ (r : ClientCtx × List LogEntry).
                let left : CatState = record { client = r.0; was_connected = st.was_connected } in
                left)
              all,
      rounds-receive_all c localtime st a.chunks a.last up
          ∙ ap (λ (r : ClientCtx × List LogEntry). shown c localtime r.1) all,
    )
