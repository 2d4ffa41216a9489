-- ===== src/Prelog/Tests.antt =====
-- A message that is too long for the buffer, where the file cannot be opened.
use si_log.Base.{◌≡◌, refl, true, false, none, some, [], ◌∷◌, replicate, arith}
use si_log.Errors.{ok}
use si_log.Securec.Text.Arrays.{no_zero-NoZero}
use si_log.Prelog.{PrintCalls, settings, init, write_v, prefix_of, level_to_string}
use si_log.Prelog.Sample.{manager}
use si_log.Prelog.Line.{outputs, message_line, init-write_v}

abbrev calls : PrintCalls
calls = record {
  buf = replicate 1024 7;
  prefix_ok = true;
  error = b'e' ∷ [];
  message = some (replicate 2000 b'x');
}

-- The file cannot be opened, and the line is cut off.
init-write_v_example :
    write_v (init manager none (λ path. false)).1 (some (b'm' ∷ [])) 1 true calls
    ≡ some (
      ok,
      outputs
          (settings none)
          false
          (message_line (prefix_of (b'e' ∷ []) (b'm' ∷ []) 1) (replicate 2000 b'x')),
    )
unfolding prefix_of level_to_string settings
init-write_v_example =
    init-write_v manager none (λ path. false) (b'm' ∷ []) (replicate 2000 b'x') 1 calls refl
      (omega arith) refl refl refl (omega arith)
      (no_zero-NoZero (prefix_of (b'e' ∷ []) (b'm' ∷ []) 1) refl)
      (no_zero-NoZero (replicate 2000 b'x') refl)
