-- ===== src/Cat.antt =====
-- silog_cat/src/silog_cat.c: the program that shows the entries of a remote daemon; its configuration and its command line.
-- A char array that holds a text is the text, its bytes up to the terminating 0.
pub mod Args
pub mod Print
pub mod Loop
mod Tests
use si_log.Base.{
  ℕ, ◌+◌, ◌-◌, ◌%◌, ◌^◌, Bool, true, false, ◌&&◌, ◌||◌, List, [], ◌∷◌, if◌then◌else◌, map, take,
  leb, same_text,
}
use si_log.Base.Int.{ℤ, pos, negsuc}

-- `SilogCatConfig`
pub record CatConfig : Type 0 where
  pub server_addr : List ℕ
  pub server_port : ℕ
  pub filter_tag : List ℕ
  pub min_level : ℕ
  pub use_color : Bool

-- The initial value of `g_silogCatConfig`.
abbrev pub initial_config : CatConfig
initial_config = record {
  server_addr = b'1' ∷ b'2' ∷ b'7' ∷ b'.' ∷ b'0' ∷ b'.' ∷ b'0' ∷ b'.' ∷ b'1' ∷ [];
  server_port = 9090;
  filter_tag = [];
  min_level = 0;
  use_color = false;
}

-- A character as `strcasecmp` compares it.
abbrev pub lower : ℕ → ℕ
lower c = if leb b'A' c && leb c b'Z' then c + 32 else c

-- `strcasecmp(a, b) == 0`
abbrev pub same_name : List ℕ → List ℕ → Bool
same_name a b = same_text (map lower a) (map lower b)

-- The names of the levels.
abbrev pub debug_name : List ℕ
debug_name = b'D' ∷ b'E' ∷ b'B' ∷ b'U' ∷ b'G' ∷ []

abbrev pub info_name : List ℕ
info_name = b'I' ∷ b'N' ∷ b'F' ∷ b'O' ∷ []

abbrev pub warn_name : List ℕ
warn_name = b'W' ∷ b'A' ∷ b'R' ∷ b'N' ∷ []

abbrev pub error_name : List ℕ
error_name = b'E' ∷ b'R' ∷ b'R' ∷ b'O' ∷ b'R' ∷ []

abbrev pub fatal_name : List ℕ
fatal_name = b'F' ∷ b'A' ∷ b'T' ∷ b'A' ∷ b'L' ∷ []

-- `SilogCatParseLevel`
pub parse_level : List ℕ → ℕ
parse_level s =
    if same_name s debug_name || same_name s (b'D' ∷ [])
    then 0
    else (if same_name s info_name || same_name s (b'I' ∷ [])
        then 1
        else (if same_name s warn_name || same_name s (b'W' ∷ [])
            then 2
            else (if same_name s error_name || same_name s (b'E' ∷ [])
                then 3
                else (if same_name s fatal_name || same_name s (b'F' ∷ []) then 4 else 0))))

-- The options that `SilogCatParseArgs` tells apart.
pub data CatOption : Type 0 where
  help server port tag level color unknown : CatOption

-- An option's text, the short one or the long one.
pub option_text : CatOption → Bool → List ℕ
option_text help false = b'-' ∷ b'h' ∷ []
option_text help true = b'-' ∷ b'-' ∷ b'h' ∷ b'e' ∷ b'l' ∷ b'p' ∷ []
option_text server false = b'-' ∷ b's' ∷ []
option_text server true = b'-' ∷ b'-' ∷ b's' ∷ b'e' ∷ b'r' ∷ b'v' ∷ b'e' ∷ b'r' ∷ []
option_text port false = b'-' ∷ b'p' ∷ []
option_text port true = b'-' ∷ b'-' ∷ b'p' ∷ b'o' ∷ b'r' ∷ b't' ∷ []
option_text tag false = b'-' ∷ b't' ∷ []
option_text tag true = b'-' ∷ b'-' ∷ b't' ∷ b'a' ∷ b'g' ∷ []
option_text level false = b'-' ∷ b'l' ∷ []
option_text level true = b'-' ∷ b'-' ∷ b'l' ∷ b'e' ∷ b'v' ∷ b'e' ∷ b'l' ∷ []
option_text color false = b'-' ∷ b'c' ∷ []
option_text color true = b'-' ∷ b'-' ∷ b'c' ∷ b'o' ∷ b'l' ∷ b'o' ∷ b'r' ∷ []
option_text unknown long = []

-- Whether an argument is an option, in one of its two forms.
pub is_option : List ℕ → CatOption → Bool
is_option arg option =
    same_text arg (option_text option false) || same_text arg (option_text option true)

-- The tests on an argument, in their order.
pub option_of : List ℕ → CatOption
option_of arg =
    if is_option arg help
    then help
    else (if is_option arg server
        then server
        else (if is_option arg port
            then port
            else (if is_option arg tag
                then tag
                else (if is_option arg level
                    then level
                    else (if is_option arg color then color else unknown)))))

-- A number as a `uint16_t`.
abbrev pub u16_of : ℤ → ℕ
u16_of (pos n) = n % 2 ^ 16
u16_of (negsuc n) = 2 ^ 16 - 1 - n % 2 ^ 16

-- What parsing leads to: the loop's end, the code -1, or the end of the program.
pub data Parsed : Type 0 where
  parsed : CatConfig → Parsed
  failed : Parsed
  exits : Parsed

-- The loop of `SilogCatParseArgs` over the arguments behind the program's name; `atoi` is the C library's.
pub parse_args : (List ℕ → ℤ) → CatConfig → List (List ℕ) → Parsed
parse_args atoi c [] = parsed c
parse_args atoi c (arg ∷ []) = elim (option_of arg) [
  | help ↦ exits
  | color ↦ parsed (record c { use_color = true })
  | other ↦ failed
]
parse_args atoi c (arg ∷ value ∷ rest) = elim (option_of arg) [
  | help ↦ exits
  | server ↦ parse_args atoi (record c { server_addr = take 63 value }) rest
  | port ↦ parse_args atoi (record c { server_port = u16_of (atoi value) }) rest
  | tag ↦ parse_args atoi (record c { filter_tag = take 31 value }) rest
  | level ↦ parse_args atoi (record c { min_level = parse_level value }) rest
  | color ↦ parse_args atoi (record c { use_color = true }) (value ∷ rest)
  | unknown ↦ failed
]
