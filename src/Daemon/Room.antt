-- ===== src/Daemon/Room.antt =====
-- A round of the writing thread of silog_dae/src/silog_daemon.c while the log file has room.
use si_log.Base.{
  ℕ, suc, ◌+◌, ◌*◌, ◌^◌, ◌≤◌, ◌<◌, ◌≡◌, ◌∙◌, ap, true, none, some, List, length, if◌then◌else◌,
  arith,
}
use si_log.Errors.{ok}
use si_log.Entry.{LogEntry}
use si_log.File.{FileManager, FileConfig, RotateCalls, Call, write_raw, write_data}
use si_log.File.Write.{written_in, write_raw-early, write_data-kept, write_data-same}
use si_log.Securec.Format.{snprintf_s}
use si_log.Daemon.{
  Daemon, Platform, WriteCalls, line_of, or_empty, share, after_write, write_line, write_entry,
}
use si_log.Daemon.Line.{
  IsTerminated, PrintsNumbers, time_of, time_of-ends, line_of-pos, line_of-IsPiece, logbuf-line,
}

-- The file is open and takes the lines of `k` more rounds without a rotation.
pub record IsRoomy (m : FileManager) (k : ℕ) : Type 0 where
  pub on : m.initialized ≡ true
  pub opened : m.is_open ≡ true
  pub room : m.current_size + 442 * k < m.config.max_file_size
  pub small : m.config.max_file_size ≤ 2 ^ 31

write_raw-IsRoomy :
    (m : FileManager) (k : ℕ) (text : List ℕ) (os : RotateCalls) (now : ℕ)
    → IsRoomy m (suc k)
    → 0 < length text
    → length text ≤ 442
    → (m' : FileManager) × (calls : List Call) × (write_raw m (some text) os (length text) now
        ≡ some (ok, m', calls))
      × (written_in calls ≡ text)
      × IsRoomy m' k
write_raw-IsRoomy m k text os now h some_text short =
    let (fine, size, wrote, flushed) = write_data-kept m text now in
    let (config, on, opened) = write_data-same m text (length text) now in
    let r = write_data m text (length text) now in
    let maximum = ap (λ (c : FileConfig). c.max_file_size) config in
    (
      r.1,
      r.2,
      write_raw-early m text os (length text) now h.on h.opened some_text
            (omega (arith, h.room, h.small))
          ∙ ap (λ c. some (c, r.1, r.2)) fine,
      wrote,
      record {
        on = on ∙ h.on;
        opened = opened ∙ h.opened;
        room = omega (arith, size, maximum, h.room, h.small);
        small = omega (arith, maximum, h.small);
      },
    )

-- What the system answers in a good round: the line can be formatted, the buffers have their sizes, and the file
-- takes all bytes.
pub record IsGood (c : WriteCalls) : Type 0 where
  pub prints : c.print_ok ≡ true
  pub timebuf : length c.timebuf ≡ 32
  pub logbuf : length c.logbuf ≡ 512
  pub takes : (n : ℕ) → c.written n ≡ n

-- An entry with terminated arrays reaches the file as its line.
pub write_entry-IsRoomy :
    (p : Platform) (d : Daemon) (e : LogEntry) (c : WriteCalls) (k : ℕ)
    → PrintsNumbers p
    → IsTerminated e
    → IsGood c
    → IsRoomy d.file (suc k)
    → (file : FileManager) × (calls : List Call) × (write_entry p d e c
        ≡ some (share c.answers (record d { file = file }) e calls))
      × (written_in calls ≡ line_of p (time_of p e c.timebuf) e)
      × IsRoomy file k
unfolding write_entry write_line after_write or_empty
write_entry-IsRoomy p d e c k nums t good room =
    let time = time_of p e c.timebuf in
    let line = line_of p time e in
    let ends = time_of-ends p e c.timebuf good.timebuf in
    let piece = line_of-IsPiece p time e nums ends t in
    let (left, printed, bytes) = logbuf-line p time c.logbuf e nums ends good.logbuf t in
    let (file, calls, wrote, all, later) =
      write_raw-IsRoomy d.file k line c.rotation c.now room (line_of-pos p time e) piece.short in
    (
      file,
      calls,
      ap
            (λ t.
              write_line d e c
                (snprintf_s (some c.logbuf) 512 511 true (if t then some line else none)))
            good.prints
          ∙ (ap (write_line d e c) printed
              ∙ (ap
                    (λ b.
                      after_write d e c
                        (write_raw d.file (some b) c.rotation (c.written (length b)) c.now))
                    bytes
                  ∙ (ap (λ n. after_write d e c (write_raw d.file (some line) c.rotation n c.now))
                        (good.takes (length line))
                      ∙ ap (after_write d e c) wrote))),
      all,
      later,
    )
