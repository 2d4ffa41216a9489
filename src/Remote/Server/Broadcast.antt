-- ===== src/Remote/Server/Broadcast.antt =====
-- `SilogRemoteBroadcast` of silog_comm/src/silog_remote.c, client by client.
use si_log.Base.{ℕ, ◌≡◌, List, [], map}
use si_log.Remote.Server.{Client, Sent}
use si_log.Remote.Server.Fate.{after, served_in, dropped_in}

-- A broadcast to a table without active slots would do nothing.
module _ (answers : ℕ → ℕ → ℕ → Sent) (len : ℕ) where
  abbrev Idle : List Client → Type 0
  Idle cs =
      (map (after answers len) cs ≡ cs)
      × (served_in answers len cs ≡ 0)
      × (dropped_in answers len cs ≡ [])
