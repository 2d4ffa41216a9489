-- ===== src/Cat/Loop/Episodes.antt =====
-- What may happen to silog_cat/src/silog_cat.c while it runs: tries to connect that fail, and connections that bring the
-- frames of entries and end.
use si_log.Base.{none, ◌⊎◌, ◌&&◌, ℕ, ◌<◌, ◌≡◌, true, false, some, List, [], ◌∷◌, ◌++◌, length}
use si_log.Entry.{LogEntry}
use si_log.Remote.Wire.Roundtrip.{read_back}
use si_log.Remote.Client.{Received, no_data}
use si_log.Remote.Client.Sockets.{IsEnd}
use si_log.Cat.Loop.{RoundCalls}
use si_log.Cat.Loop.Frames.{brings, rounds_for}
use si_log.Cat.Loop.Stream.{Arrival, IsArrival}

-- The round in which the client connects, and nothing has arrived yet.
abbrev pub connecting : ℕ → RoundCalls
connecting fd = record { socket = some fd; addr_ok = true; connect_ok = true; answer = no_data }

-- What follows the connection: the frames of some entries, some pieces of one more, and an answer that ends it.
abbrev pub stream : List Arrival → List RoundCalls
stream [] = []
stream (a ∷ rest) = rounds_for a.chunks a.last ++ stream rest

abbrev pub pieces_in : List (List ℕ) → List RoundCalls
pieces_in [] = []
pieces_in (chunk ∷ rest) = brings chunk ∷ pieces_in rest

abbrev pub ending : Received → RoundCalls
ending answer = record { socket = none; addr_ok = false; connect_ok = false; answer = answer }

-- A try to connect that fails, or a connection.
pub data Episode : Type 0 where
  refused : RoundCalls → Episode
  session : ℕ → List Arrival → List (List ℕ) → Received → Episode

abbrev pub rounds_in : Episode → List RoundCalls
rounds_in (refused os) = os ∷ []
rounds_in (session fd arrivals pieces answer) =
    connecting fd ∷ (stream arrivals ++ (pieces_in pieces ++ ending answer ∷ []))

abbrev pub rounds_all : List Episode → List RoundCalls
rounds_all [] = []
rounds_all (e ∷ episodes) = rounds_in e ++ rounds_all episodes

-- The entries whose frames arrive whole, as they are read.
abbrev pub entries_read : List Arrival → List LogEntry
entries_read [] = []
entries_read (a ∷ rest) = read_back a.entry ∷ entries_read rest

abbrev pub entries_in : Episode → List LogEntry
entries_in (refused os) = []
entries_in (session fd arrivals pieces answer) = entries_read arrivals

abbrev pub entries_all : List Episode → List LogEntry
entries_all [] = []
entries_all (e ∷ episodes) = entries_in e ++ entries_all episodes

abbrev pub AllArrivals : List Arrival → Type 0
AllArrivals [] = Unit
AllArrivals (a ∷ rest) = IsArrival a × AllArrivals rest

abbrev pub joined_all : List (List ℕ) → List ℕ
joined_all [] = []
joined_all (chunk ∷ rest) = chunk ++ joined_all rest

-- A try fails at `socket`, at the address or at `connect`. The pieces at a connection's end are shorter than a frame.
abbrev pub IsEpisode : Episode → Type 0
IsEpisode (refused os) = (os.socket ≡ none) ⊎ ((os.addr_ok && os.connect_ok) ≡ false)
IsEpisode (session fd arrivals pieces answer) =
    AllArrivals arrivals × (length (joined_all pieces) < 377) × IsEnd answer

abbrev pub AllEpisodes : List Episode → Type 0
AllEpisodes [] = Unit
AllEpisodes (e ∷ episodes) = IsEpisode e × AllEpisodes episodes
