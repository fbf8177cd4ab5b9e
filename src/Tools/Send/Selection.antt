-- ===== src/Tools/Send/Selection.antt =====
-- The options of gsusb_send.c: the last one given counts.
use gs_usb_user.Base.{ℕ, ◌≡◌, Bool, true, false, List, arith, ◌==◌, ◌||◌, inl, inr, Option-cases}
use gs_usb_user.Base.Int.{pos, negsuc}
use gs_usb_user.Tools.Text.Numbers.{atoi, atou, decimal_u32, hex_int}
use gs_usb_user.Tools.Args.{Given, chosen, choose}
use gs_usb_user.Tools.Args.Selection.{chosen_value, choose-chosen_value, Takes, Stops, choose-Stops}
use gs_usb_user.Tools.Send.{Options}
use gs_usb_user.Tools.Send.Main.{defaults, apply_option}

-- the options that the usage text lists
abbrev pub is_known : ℕ → Bool
is_known c =
    c == b'v'
    || c == b'p'
    || c == b'b'
    || c == b'a'
    || c == b'c'
    || c == b'r'
    || c == b'd'
    || c == b'f'
    || c == b'L'
    || c == b'R'
    || c == b'i'

-- Each variable of `main` has the value of the last option for it, or its default.
pub record IsSelected (gs : List Given) (o : Options) : Type 0 where
  pub vid : o.vid ≡ chosen_value b'v' hex_int (pos 0) gs
  pub pid : o.pid ≡ chosen_value b'p' hex_int (pos 0) gs
  pub bus : o.bus ≡ chosen_value b'b' atoi (negsuc 0) gs
  pub addr : o.addr ≡ chosen_value b'a' atoi (negsuc 0) gs
  pub channel : o.channel ≡ chosen_value b'c' atou 0 gs
  pub bitrate : o.bitrate ≡ chosen_value b'r' decimal_u32 500_000 gs
  pub data_bitrate : o.data_bitrate ≡ chosen_value b'd' decimal_u32 2_000_000 gs
  pub fd_mode : o.fd_mode ≡ chosen_value b'f' (λ s. true) false gs
  pub loopback : o.loopback ≡ chosen_value b'L' (λ s. true) false gs
  pub repeat : o.repeat ≡ chosen_value b'R' atou 1 gs
  pub interval_ms : o.interval_ms ≡ chosen_value b'i' atou 0 gs

apply_option-Takes : Takes apply_option is_known
unfolding apply_option
apply_option-Takes o g = elim (Option-cases (apply_option o g)) [
  | inl e ↦ inl (ground arith, e)
  | inr (o', e) ↦ inr (ground arith, o', e)
]

-- The loop over the options ends at the first that the tool does not know, with exit code 0 if that is
-- `h` and 1 else, and every option before it known; or all of them are known.
-- Each variable then has the value of the last option for it, or its default.
pub choose-IsSelected :
    (gs : List Given)
    → Stops is_known gs (choose apply_option defaults gs)
      × ((o : Options) → choose apply_option defaults gs ≡ chosen o → IsSelected gs o)
unfolding apply_option
choose-IsSelected gs = (
  choose-Stops apply_option is_known apply_option-Takes defaults gs,
  λ o e. record {
    vid =
        choose-chosen_value apply_option (λ x. x.vid) b'v' hex_int (λ x g y k. ground arith)
          defaults gs o e;
    pid =
        choose-chosen_value apply_option (λ x. x.pid) b'p' hex_int (λ x g y k. ground arith)
          defaults gs o e;
    bus =
        choose-chosen_value apply_option (λ x. x.bus) b'b' atoi (λ x g y k. ground arith) defaults
          gs o e;
    addr =
        choose-chosen_value apply_option (λ x. x.addr) b'a' atoi (λ x g y k. ground arith) defaults
          gs o e;
    channel =
        choose-chosen_value apply_option (λ x. x.channel) b'c' atou (λ x g y k. ground arith)
          defaults gs o e;
    bitrate =
        choose-chosen_value apply_option (λ x. x.bitrate) b'r' decimal_u32 (λ x g y k. ground arith)
          defaults gs o e;
    data_bitrate =
        choose-chosen_value apply_option (λ x. x.data_bitrate) b'd' decimal_u32
          (λ x g y k. ground arith) defaults gs o e;
    fd_mode =
        choose-chosen_value apply_option (λ x. x.fd_mode) b'f' (λ s. true) (λ x g y k. ground arith)
          defaults gs o e;
    loopback =
        choose-chosen_value apply_option (λ x. x.loopback) b'L' (λ s. true)
          (λ x g y k. ground arith) defaults gs o e;
    repeat =
        choose-chosen_value apply_option (λ x. x.repeat) b'R' atou (λ x g y k. ground arith)
          defaults gs o e;
    interval_ms =
        choose-chosen_value apply_option (λ x. x.interval_ms) b'i' atou (λ x g y k. ground arith)
          defaults gs o e;
  },
)
