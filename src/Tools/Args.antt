-- ===== src/Tools/Args.antt =====
-- driver/tools: the loop of each `main` over its options. `getopt_long` is a parameter: what it makes of
-- the words of the command line is a list of options and, from `argv[optind]` on, the other words.
pub mod Selection
use gs_usb_user.Base.{ℕ, Option, none, some, List, [], ◌∷◌, ◌==◌, if◌then◌else◌}

-- the letter that `getopt_long` returns, `?` for an option that it does not know, and `optarg`
pub record Given : Type 0 where
  pub letter : ℕ
  pub optarg : List ℕ

-- the options, or the exit code behind the usage text
pub data Chosen (O : Type 0) : Type 0 where
  chosen : O → Chosen O
  usage : ℕ → Chosen O

-- `return c == 'h' ? 0 : 1`
abbrev pub usage_code : ℕ → ℕ
usage_code c = if c == b'h' then 0 else 1

-- The loop; `none` is the case `default` of its switch.
unfoldable pub choose : {O : Type 0} → (O → Given → Option O) → O → List Given → Chosen O
choose apply o [] = chosen o
choose apply o (g ∷ gs) = elim (apply o g) [
  | none ↦ usage (usage_code g.letter)
  | some o' ↦ choose apply o' gs
]

-- the options and the other words of a command line
abbrev pub GetoptLong : Type 0
GetoptLong = List (List ℕ) → List Given × List (List ℕ)
