-- ===== src/Prelog/Line.antt =====
-- The line that silog_comm/src/silog_prelog.c puts out for a message.
use si_log.Base.{
  ℕ, ◌+◌, ◌-◌, ◌≤◌, ◌<◌, ◌≡◌, ◌∙◌, refl, ap, sym, subst, take-append_of_le, Bool, true, false, not,
  Option, none, some, List, [], ◌∷◌, ◌++◌, leb, ltb, if◌then◌else◌, length, length-append,
  length-take, take, Bool-cases, le→leb, le→ltb-false, ==_ne, lt→leb-false, ltb→lt, ltb-false→le,
  inl, inr, arith,
}
use si_log.Errors.{ErrorCode, ok, trans_not_init}
use si_log.Securec.{eok, erange}
use si_log.Securec.Text.{write_at, strncat_s}
use si_log.Securec.Text.Arrays.{
  text, prefix, NoZero, take-NoZero, take_all, take-length-text, prefix-text, text-write_at,
  length-write_at,
}
use si_log.Securec.Text.Concat.{Appends, strncat_s-Appends}
use si_log.Securec.Format.{snprintf_s, snprintf_s-text, length-snprintf_s}
use si_log.Prelog.{
  PrelogConfig, PrelogManager, settings, init, prefix_of, PrintCalls, Output, to_file, to_stdout,
  start_line, print_behind, finish, buffer_left, end_line, put_out, write_message, write_v,
}

abbrev line_feed : List ℕ
line_feed = b'\n' ∷ []

-- A prefix and a message with the line feed, or their first 1023 bytes if they leave no room for it.
pub message_line : List ℕ → List ℕ → List ℕ
message_line prefix message =
    if ltb (length (prefix ++ message)) 1023
    then (prefix ++ message) ++ line_feed
    else take 1023 (prefix ++ message)

-- A buffer of 1024 bytes that holds a terminated text.
record HoldsText (buf s : List ℕ) : Type 0 where
  whole : length buf ≡ 1024
  reads : text buf ≡ s

end_line-append :
    (buf s : List ℕ)
    → HoldsText buf s
    → Appends buf 1024 line_feed (strncat_s (some buf) 1024 (some (b'\n' ∷ 0 ∷ [])) 1)
end_line-append buf s h =
    strncat_s-Appends buf (b'\n' ∷ 0 ∷ []) 1024 1 (omega arith) (omega (arith, h.whole))

length-both :
    (buf s : List ℕ) → HoldsText buf s → length (prefix buf 1024 ++ line_feed) ≡ length s + 1
length-both buf s h =
    ap (λ t. length (t ++ line_feed)) (ap (prefix buf) (sym h.whole) ∙ (prefix-text buf ∙ h.reads))
    ∙ length-append s line_feed

end_line-long : (buf s : List ℕ) → HoldsText buf s → 1023 ≤ length s → text (end_line buf) ≡ s
unfolding end_line buffer_left
end_line-long buf s h long =
    let a = end_line-append buf s h in
    let full : leb 1024 (length (prefix buf 1024 ++ line_feed)) ≡ true =
      le→leb 1024 (length (prefix buf 1024 ++ line_feed)) (omega (arith, length-both buf s h)) in
    ap text (
      ap (buffer_left buf)
        (a.result ∙ ap (λ t. if t then (erange, some buf) else (eok, some a.left)) full))
    ∙ h.reads

end_line-short :
    (buf s : List ℕ) → HoldsText buf s → length s < 1023 → text (end_line buf) ≡ s ++ line_feed
unfolding end_line buffer_left
end_line-short buf s h short =
    let a = end_line-append buf s h in
    let fits : leb 1024 (length (prefix buf 1024 ++ line_feed)) ≡ false =
      lt→leb-false 1024 (length (prefix buf 1024 ++ line_feed))
        (omega (arith, length-both buf s h)) in
    ap text (
      ap (buffer_left buf)
        (a.result ∙ ap (λ t. if t then (erange, some buf) else (eok, some a.left)) fits))
    ∙ (a.reads fits
        ∙ ap (λ t. t ++ line_feed) (ap (prefix buf) (sym h.whole) ∙ (prefix-text buf ∙ h.reads)))

-- The buffer with both texts, before the line feed.
end_line-message_line :
    (p message buf : List ℕ)
    → HoldsText buf (take 1023 (p ++ message))
    → text (end_line buf) ≡ message_line p message
unfolding message_line
end_line-message_line p message buf h = elim (Bool-cases (ltb (length (p ++ message)) 1023)) [
  | inl short ↦
      let fits = ltb→lt (length (p ++ message)) 1023 short in
      let all = take_all 1023 (p ++ message) (omega arith) in
      rw short
        (end_line-short buf (p ++ message) (record { whole = h.whole; reads = h.reads ∙ all }) fits)
  | inr long ↦
      let many : 1023 ≤ length (p ++ message) = ltb-false→le (length (p ++ message)) 1023 long in
      rw long (
        end_line-long buf (take 1023 (p ++ message)) h
          (omega (arith, length-take 1023 (p ++ message))))
]

-- The message behind the prefix.
message-HoldsText :
    (left p message : List ℕ)
    → length left ≡ 1024
    → text left ≡ p
    → length p < 1024
    → NoZero p
    → NoZero message
    → HoldsText
        (write_at left (length p) (take (1024 - length p - 1) message ++ 0 ∷ []))
        (take 1023 (p ++ message))
message-HoldsText left p message whole reads fits no_p no_message =
    let n = length p in
    let shown = take (1024 - n - 1) message in
    let front : take n left ≡ p =
      ap (λ t. take (length t) left) (sym reads) ∙ (take-length-text left ∙ reads) in
    let room : n + length shown < length left =
      omega (arith, whole, fits, length-take (1024 - n - 1) message) in
    record {
      whole = length-write_at left n (shown ++ 0 ∷ []) ∙ whole;
      reads =
          text-write_at left n shown (subst NoZero (sym front) no_p)
            (take-NoZero (1024 - n - 1) message no_message) room
          ∙ (ap (λ t. t ++ shown) front
              ∙ (ap (λ k. p ++ take k message) (omega arith)
                  ∙ sym (take-append_of_le 1023 p message (omega arith))));
    }

-- The settings and the outputs of a message that passes: the file if it could be opened, and the standard output if
-- it is asked for or the file could not be opened.
abbrev pub outputs : PrelogConfig → Bool → List ℕ → List Output
outputs c opened line =
    (if opened then to_file line ∷ [] else [])
    ++ (if (if opened then c.enable_stdout else true) then to_stdout line ∷ [] else [])

print_behind_lem :
    (buf : List ℕ) (n : ℕ) (message : List ℕ)
    → n < 1024
    → print_behind buf n message ≡ some (write_at buf n (take (1024 - n - 1) message ++ 0 ∷ []))
unfolding print_behind
print_behind_lem buf n message fits = rw (le→ltb-false 1024 n (omega arith), ==_ne n 1024 fits) refl

write_message-message_line :
    (m : PrelogManager) (p message buf : List ℕ)
    → length buf ≡ 1024
    → length p < 1024
    → NoZero p
    → NoZero message
    → write_message m
        (some message)
        (start_line buf (snprintf_s (some buf) 1024 1023 true (some p)))
      ≡ some (ok, put_out m (message_line p message))
unfolding write_message start_line finish
write_message-message_line m p message buf whole fits no_p no_message =
    let (left, e, kept) =
      snprintf_s-text buf p 1024 1023 (omega arith) (omega (arith, whole)) no_p in
    let reads : text left ≡ p = kept ∙ take_all 1023 p (omega arith) in
    let same : length left ≡ 1024 = length-snprintf_s buf p 1024 1023 e ∙ whole in
    let held = message-HoldsText left p message same reads fits no_p no_message in
    ap (λ r. write_message m (some message) (start_line buf r)) e
    ∙ (ap (finish m) (print_behind_lem left (length p) message fits)
        ∙ ap (λ t. some (ok, put_out m t)) (end_line-message_line p message _ held))

-- An initialised manager.
write_v-message_line :
    (m : PrelogManager) (name message : List ℕ) (level : ℕ) (os : PrintCalls)
    → m.initialized ≡ true
    → m.config.min_level ≤ level
    → os.prefix_ok ≡ true
    → os.message ≡ some message
    → length os.buf ≡ 1024
    → length (prefix_of os.error name level) < 1024
    → NoZero (prefix_of os.error name level)
    → NoZero message
    → write_v m (some name) level true os
      ≡ some (ok, put_out m (message_line (prefix_of os.error name level) message))
unfolding write_v
write_v-message_line m name message level os on passes printed shown whole fits no_p no_message =
    let p = prefix_of os.error name level in
    let start = λ (t : Bool).
      start_line os.buf (snprintf_s (some os.buf) 1024 1023 true (if t then some p else none)) in
    let rest = write_message m os.message (start os.prefix_ok) in
    ap
      (λ t.
        if not t
        then some (trans_not_init, [])
        else (if ltb level m.config.min_level then some (ok, []) else rest))
      on
    ∙ (ap (λ t. if t then some (ok, []) else rest) (le→ltb-false level m.config.min_level passes)
        ∙ (ap (λ t. write_message m os.message (start t)) printed
            ∙ (ap (λ t. write_message m t (start true)) shown
                ∙ write_message-message_line m p message os.buf whole fits no_p no_message)))

-- What `SilogPrelogInit` leaves.
ready : PrelogConfig → Bool → PrelogManager
ready c opened = record {
  has_file = opened;
  config = if opened then c else record c { enable_stdout = true };
  initialized = true;
}

ready-min_level :
    (c : PrelogConfig) (opened : Bool) → (ready c opened).config.min_level ≡ c.min_level
unfolding ready
ready-min_level c true = refl
ready-min_level c false = refl

put_out-ready :
    (c : PrelogConfig) (opened : Bool) (line : List ℕ)
    → put_out (ready c opened) line ≡ outputs c opened line
unfolding put_out ready
put_out-ready c true line = refl
put_out-ready c false line = refl

-- Where `SilogPrelogInit` is called uninitialised with settings that let the level pass: for texts without 0 bytes that
-- can be formatted, and a prefix of less than 1024 bytes, `SilogPrelogWriteV` after it puts out the prefix and the message with a line feed, or, if they leave no room for it, their
-- first 1023 bytes without one; to the file if it could be opened, and to the standard output if that is asked for or
-- the file could not be opened.
pub init-write_v :
    (m : PrelogManager) (config : Option PrelogConfig) (opens : List ℕ → Bool)
    (name message : List ℕ) (level : ℕ) (os : PrintCalls)
    → m.initialized ≡ false
    → (settings config).min_level ≤ level
    → os.prefix_ok ≡ true
    → os.message ≡ some message
    → length os.buf ≡ 1024
    → length (prefix_of os.error name level) < 1024
    → NoZero (prefix_of os.error name level)
    → NoZero message
    → write_v (init m config opens).1 (some name) level true os
      ≡ some (
        ok,
        outputs
            (settings config)
            (opens (settings config).path)
            (message_line (prefix_of os.error name level) message),
      )
unfolding init ready
init-write_v m config opens name message level os off passes printed shown whole fits no_p
      no_message =
    let c = settings config in
    let opened = opens c.path in
    let begun : (init m config opens).1 ≡ ready c opened =
      ap (λ (r : ErrorCode × PrelogManager). r.1)
        (ap (λ t. if t then (ok, m) else (ok, ready c opened)) off) in
    ap (λ k. write_v k (some name) level true os) begun
    ∙ (write_v-message_line (ready c opened) name message level os refl
          (omega (arith, passes, ready-min_level c opened)) printed shown whole fits no_p no_message
        ∙ ap (λ l. some (ok, l))
            (put_out-ready c opened (message_line (prefix_of os.error name level) message)))
