-- ===== src/Cat/Tests.antt =====
-- A command line, an entry that the filter tests, a frame in two pieces, and a run that loses its connection.
use si_log.Base.{
  inr, replicate, ℕ, ◌≡◌, ◌⊎◌, refl, true, false, none, some, List, [], ◌∷◌, ◌++◌, take, drop,
  length-drop, take-append-drop, arith,
}
use si_log.Base.Int.{ℤ, pos}
use si_log.Time.{Tm}
use si_log.Prelog.Sample.{manager}
use si_log.Remote.Wire.Roundtrip.{wire, length-wire}
use si_log.Remote.Client.{recv_failed, ClientCtx, closed, no_data}
use si_log.Remote.Client.Sample.{entry, entry-IsEntry, client}
use si_log.Remote.Client.Sockets.{often}
use si_log.Cat.{CatConfig, initial_config, parse_args, parsed}
use si_log.Cat.Args.{
  IsConfig, Given, given_tag, given_color, words_all, options_of, parse_args-options_of,
}
use si_log.Cat.Print.{print_log, line_for}
use si_log.Cat.Print.Filter.{IsShown, print_log-IsShown}
use si_log.Cat.Loop.{RoundCalls, main, shown}
use si_log.Cat.Loop.Episodes.{Episode, refused, session, rounds_all, entries_all}
use si_log.Cat.Loop.Sessions.{main-prints}
use si_log.Cat.Loop.Sockets.{made_by, main-closes}

abbrev config : CatConfig
config = record {
  server_addr = b'1' ∷ b'0' ∷ b'.' ∷ b'0' ∷ b'.' ∷ b'0' ∷ b'.' ∷ b'1' ∷ [];
  server_port = 9091;
  filter_tag = b'n' ∷ b'e' ∷ b't' ∷ [];
  min_level = 2;
  use_color = false;
}

abbrev atoi : List ℕ → ℤ
atoi digits = pos 9091

-- A tag that is given before is overridden, the colours stay on.
abbrev before : List Given
before = given_tag false (b'-' ∷ b'h' ∷ []) ∷ given_color true ∷ []

config-IsConfig : IsConfig config
config-IsConfig = record {
  addr = omega arith;
  port_fits = omega arith;
  tag_fits = omega arith;
  level_known = omega arith;
}

parse_args-options_of_example :
    parse_args atoi initial_config (words_all before ++ words_all (options_of config (b'9' ∷ [])))
    ≡ parsed (record config { use_color = true })
parse_args-options_of_example =
    parse_args-options_of atoi before config (b'9' ∷ []) config-IsConfig refl

abbrev local : ℕ → Tm
local t = record { year = 126; month = 1; day = 2; hour = 3; minute = 4; second = 5 }

print_log-IsShown_example :
    ((print_log config local entry ≡ none) × ¬ IsShown config entry)
    ⊎ ((print_log config local entry ≡ some (line_for config local entry)) × IsShown config entry)
print_log-IsShown_example = print_log-IsShown config local entry

-- The server closes the first connection, the second try fails, and the third connection lasts to the end.
abbrev calls : List RoundCalls
calls =
    record { socket = some 4; addr_ok = true; connect_ok = true; answer = closed }
    ∷ record { socket = some 5; addr_ok = true; connect_ok = false; answer = closed }
    ∷ record { socket = some 4; addr_ok = true; connect_ok = true; answer = no_data }
    ∷ []

abbrev fresh : ClientCtx
fresh = record client { is_init = false; is_connected = false; socket_fd = none }

main-closes_example :
    often 4 (made_by (parse_args atoi initial_config (words_all before)) local fresh calls)
    ≡ often 4 (main atoi local manager (λ path. true) fresh (words_all before) calls).3
main-closes_example =
    main-closes atoi local manager (λ path. true) fresh (words_all before) calls 4 refl

-- The entry arrives in two pieces and then cut off; a try to connect fails; then it arrives as a whole.
abbrev episodes : List Episode
episodes =
    session 4
      (record { entry = entry; chunks = take 20 (wire entry) ∷ []; last = drop 20 (wire entry) }
        ∷ [])
      (replicate 100 7 ∷ []) recv_failed
    ∷ refused (record { socket = some 5; addr_ok = true; connect_ok = false; answer = closed })
    ∷ session 4 (record { entry = entry; chunks = []; last = wire entry } ∷ []) [] closed
    ∷ []

main-prints_example :
    (let r =
        main atoi local manager
          (λ path. true)
          fresh
          (words_all (options_of config (b'9' ∷ [])))
          (rounds_all episodes) in
      (r.1 ≡ 0) × (r.2 ≡ shown config local (entries_all episodes)))
main-prints_example =
    main-prints atoi local manager (λ path. true) fresh (words_all (options_of config (b'9' ∷ [])))
      config episodes refl (parse_args-options_of atoi [] config (b'9' ∷ []) config-IsConfig refl)
      (
        (
          (
            record {
              fits = entry-IsEntry;
              last_some =
                  omega (arith, length-drop 20 (wire entry), length-wire entry entry-IsEntry);
              whole = take-append-drop 20 (wire entry);
            },
            tt,
          ),
          omega arith,
          tt,
        ),
        (
          inr refl,
          (
            (
              (
                record {
                  fits = entry-IsEntry;
                  last_some = omega (arith, length-wire entry entry-IsEntry);
                  whole = refl;
                },
                tt,
              ),
              omega arith,
              tt,
            ),
            tt,
          ),
        ),
      )
