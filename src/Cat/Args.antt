-- ===== src/Cat/Args.antt =====
-- `SilogCatParseArgs` of silog_cat/src/silog_cat.c: command lines that are written for a configuration.
use si_log.Base.{
  ℕ, suc, zero, ◌%◌, ◌^◌, ◌≤◌, ◌<◌, ◌≡◌, ◌∙◌, refl, sym, ap, Bool, true, false, ◌||◌, List, [], ◌∷◌,
  ◌++◌, length, take, if◌then◌else◌, arith,
}
use mathlib.Core.List.{append_assoc, append-nil}
use si_log.Base.Int.{ℤ, pos}
use si_log.Securec.Text.Arrays.{take_all}
use si_log.Cat.{
  CatConfig, initial_config, server, port, tag, level, color, option_text, is_option, option_of,
  parse_level, debug_name, info_name, warn_name, error_name, fatal_name, u16_of, parsed, parse_args,
}

-- An option as it is written, with its value; `true` stands for the long form.
pub data Given : Type 0 where
  given_server given_port given_tag given_level : Bool → List ℕ → Given
  given_color : Bool → Given

abbrev pub words : Given → List (List ℕ)
words (given_server long value) = option_text server long ∷ value ∷ []
words (given_port long value) = option_text port long ∷ value ∷ []
words (given_tag long value) = option_text tag long ∷ value ∷ []
words (given_level long value) = option_text level long ∷ value ∷ []
words (given_color long) = option_text color long ∷ []

abbrev pub words_all : List Given → List (List ℕ)
words_all [] = []
words_all (g ∷ gs) = words g ++ words_all gs

-- What an option sets.
abbrev pub apply : (List ℕ → ℤ) → CatConfig → Given → CatConfig
apply atoi c (given_server long value) = record c { server_addr = take 63 value }
apply atoi c (given_port long value) = record c { server_port = u16_of (atoi value) }
apply atoi c (given_tag long value) = record c { filter_tag = take 31 value }
apply atoi c (given_level long value) = record c { min_level = parse_level value }
apply atoi c (given_color long) = record c { use_color = true }

abbrev pub apply_all : (List ℕ → ℤ) → CatConfig → List Given → CatConfig
apply_all atoi c [] = c
apply_all atoi c (g ∷ gs) = apply_all atoi (apply atoi c g) gs

parse_args-color :
    (atoi : List ℕ → ℤ) (c : CatConfig) (long : Bool) (rest : List (List ℕ))
    → parse_args atoi c (option_text color long ∷ rest)
      ≡ parse_args atoi (record c { use_color = true }) rest
unfolding parse_args option_of is_option option_text
parse_args-color atoi c true [] = refl
parse_args-color atoi c true (value ∷ rest) = refl
parse_args-color atoi c false [] = refl
parse_args-color atoi c false (value ∷ rest) = refl

parse_args-apply :
    (atoi : List ℕ → ℤ) (c : CatConfig) (g : Given) (rest : List (List ℕ))
    → parse_args atoi c (words g ++ rest) ≡ parse_args atoi (apply atoi c g) rest
unfolding parse_args option_of is_option option_text
parse_args-apply atoi c (given_server true value) rest = refl
parse_args-apply atoi c (given_server false value) rest = refl
parse_args-apply atoi c (given_port true value) rest = refl
parse_args-apply atoi c (given_port false value) rest = refl
parse_args-apply atoi c (given_tag true value) rest = refl
parse_args-apply atoi c (given_tag false value) rest = refl
parse_args-apply atoi c (given_level true value) rest = refl
parse_args-apply atoi c (given_level false value) rest = refl
parse_args-apply atoi c (given_color long) rest = parse_args-color atoi c long rest

-- Options are applied in the order in which they are written, whatever follows them.
pub parse_args-words :
    (atoi : List ℕ → ℤ) (c : CatConfig) (gs : List Given) (rest : List (List ℕ))
    → parse_args atoi c (words_all gs ++ rest) ≡ parse_args atoi (apply_all atoi c gs) rest
parse_args-words atoi c [] rest = refl
parse_args-words atoi c (g ∷ gs) rest =
    ap (parse_args atoi c) (append_assoc (words g) (words_all gs) rest)
    ∙ (parse_args-apply atoi c g (words_all gs ++ rest)
        ∙ parse_args-words atoi (apply atoi c g) gs rest)

parse_args-all :
    (atoi : List ℕ → ℤ) (c : CatConfig) (gs : List Given)
    → parse_args atoi c (words_all gs) ≡ parsed (apply_all atoi c gs)
unfolding parse_args
parse_args-all atoi c gs =
    ap (parse_args atoi c) (sym (append-nil (words_all gs))) ∙ parse_args-words atoi c gs []

-- The name of a level.
abbrev pub level_name : ℕ → List ℕ
level_name zero = debug_name
level_name (suc zero) = info_name
level_name (suc (suc zero)) = warn_name
level_name (suc (suc (suc zero))) = error_name
level_name other = fatal_name

pub parse_level-level_name : (level : ℕ) → level < 5 → parse_level (level_name level) ≡ level
unfolding parse_level
parse_level-level_name zero h = refl
parse_level-level_name (suc zero) h = refl
parse_level-level_name (suc (suc zero)) h = refl
parse_level-level_name (suc (suc (suc zero))) h = refl
parse_level-level_name (suc (suc (suc (suc zero)))) h = refl
parse_level-level_name (suc (suc (suc (suc (suc n))))) h = absurd (omega (arith, h))

-- The options that set a configuration, `digits` being the text of its port.
abbrev pub options_of : CatConfig → List ℕ → List Given
options_of k digits =
    given_server false k.server_addr
    ∷ given_port true digits
    ∷ given_tag false k.filter_tag
    ∷ given_level true (level_name k.min_level)
    ∷ (if k.use_color then given_color true ∷ [] else [])

-- The configurations that the fields' sizes hold.
pub record IsConfig (k : CatConfig) : Type 0 where
  pub addr : length k.server_addr ≤ 63
  pub port_fits : k.server_port < 2 ^ 16
  pub tag_fits : length k.filter_tag ≤ 31
  pub level_known : k.min_level < 5

apply_all-color :
    (atoi : List ℕ → ℤ) (c : CatConfig) (b : Bool)
    → apply_all atoi c (if b then given_color true ∷ [] else [])
      ≡ record c { use_color = b || c.use_color }
apply_all-color atoi c true = refl
apply_all-color atoi c false = refl

apply_all-options_of :
    (atoi : List ℕ → ℤ) (c k : CatConfig) (digits : List ℕ)
    → IsConfig k
    → atoi digits ≡ pos k.server_port
    → apply_all atoi c (options_of k digits) ≡ record k { use_color = k.use_color || c.use_color }
apply_all-options_of atoi c k digits h e =
    let port_kept : k.server_port % 2 ^ 16 ≡ k.server_port = omega (arith, h.port_fits) in
    rw
      (
        apply_all-color atoi
            (record {
              server_addr = take 63 k.server_addr;
              server_port = u16_of (atoi digits);
              filter_tag = take 31 k.filter_tag;
              min_level = parse_level (level_name k.min_level);
              use_color = c.use_color;
            })
            k.use_color,
        take_all 63 k.server_addr h.addr,
        take_all 31 k.filter_tag h.tag_fits,
        e,
        port_kept,
        parse_level-level_name k.min_level h.level_known,
      )
      refl

-- A command line that ends in the options for a configuration which the fields hold, with a text that the C library
-- reads as its port, sets exactly that configuration, whatever valid options stand before; only colours, which no
-- option turns off, stay on if an earlier option turned them on.
pub parse_args-options_of :
    (atoi : List ℕ → ℤ) (gs : List Given) (k : CatConfig) (digits : List ℕ)
    → IsConfig k
    → atoi digits ≡ pos k.server_port
    → parse_args atoi initial_config (words_all gs ++ words_all (options_of k digits))
      ≡ parsed
          (record k { use_color = k.use_color || (apply_all atoi initial_config gs).use_color })
parse_args-options_of atoi gs k digits h e =
    let c = apply_all atoi initial_config gs in
    parse_args-words atoi initial_config gs (words_all (options_of k digits))
    ∙ (parse_args-all atoi c (options_of k digits)
        ∙ ap parsed (apply_all-options_of atoi c k digits h e))
