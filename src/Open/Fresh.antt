-- ===== src/Open/Fresh.antt =====
-- The channels and the device that `gsusb_open` makes.
use gs_usb_user.Base.{
  ℕ, zero, suc, ◌+◌, ◌≤◌, ◌≡◌, refl, sym, subst, false, some, List, [], ◌∷◌, arith, ltb, length,
  get_elem?, if◌then◌else◌,
}
use gs_usb_user.Device.{DeviceConfig, Channel, Dev}
use gs_usb_user.Rxq.Invariant.{IsValid as IsQueue}
use gs_usb_user.Lifecycle.Started.{IsQuiescent, count_started}
use gs_usb_user.Open.{packet_size, largest}

-- A channel as it is opened.
pub record IsFresh (i : ℕ) (ch : Channel) : Type 0 where
  pub numbered : ch.index ≡ i
  pub queued : IsQueue ch.queue
  pub at_rest : ch.started ≡ false
  pub nothing_queued : ch.queue.len ≡ 0

-- The channels from `i` on.
pub data AllFresh : ℕ → List Channel → Type 0 where
  end : {i : ℕ} → AllFresh i []
  next :
      {i : ℕ} {ch : Channel} {chs : List Channel}
      → IsFresh i ch
      → AllFresh (i + 1) chs
      → AllFresh i (ch ∷ chs)

AllFresh-at :
    (i : ℕ) (chs : List Channel) (k : ℕ) (ch : Channel)
    → AllFresh i chs
    → get_elem? chs k ≡ some ch
    → IsFresh (i + k) ch
AllFresh-at i (x ∷ xs) zero ch (next f fs) e =
    ground (arith, f.numbered, f.queued, f.nothing_queued)
AllFresh-at i (x ∷ xs) (suc k) ch (next f fs) e =
    subst (λ n. IsFresh n ch) (omega arith) (AllFresh-at (i + 1) xs k ch fs e)
AllFresh-at i [] k ch end e = ground arith

AllFresh-count_started : (i : ℕ) (chs : List Channel) → AllFresh i chs → count_started chs ≡ 0
unfolding count_started
AllFresh-count_started i [] end = refl
AllFresh-count_started i (x ∷ xs) (next f fs) =
    ground (arith, f.at_rest, AllFresh-count_started (i + 1) xs fs)

-- The buffer of the reader holds the largest packet of every channel.
largest-le : (size : ℕ) (chs : List Channel) → size ≤ largest size chs
unfolding largest
largest-le size [] = omega arith
largest-le size (ch ∷ chs) =
    ground (arith, largest-le (if ltb size (packet_size ch) then packet_size ch else size) chs)

largest-holds :
    (size : ℕ) (chs : List Channel) (k : ℕ) (ch : Channel)
    → get_elem? chs k ≡ some ch
    → packet_size ch ≤ largest size chs
unfolding largest
largest-holds size [] k ch e = ground arith
largest-holds size (x ∷ xs) zero ch e =
    ground (arith, largest-le (if ltb size (packet_size x) then packet_size x else size) xs)
largest-holds size (x ∷ xs) (suc k) ch e =
    largest-holds (if ltb size (packet_size x) then packet_size x else size) xs k ch e

-- A device as it is opened.
pub record IsOpened (dev : Dev) : Type 0 where
  pub quiescent : IsQuiescent dev
  pub none_active : dev.active_channels ≡ 0
  pub holds :
      (k : ℕ) (ch : Channel) → get_elem? dev.channels k ≡ some ch → packet_size ch ≤ dev.hf_size_rx
  pub nothing_queued :
      (k : ℕ) (ch : Channel) → get_elem? dev.channels k ≡ some ch → ch.queue.len ≡ 0

pub fields-IsOpened :
    (ep_in ep_out : ℕ) (devconf : DeviceConfig) (chs : List Channel)
    → devconf.channel_count ≤ 255
    → AllFresh 0 chs
    → length chs ≡ devconf.channel_count
    → IsOpened (record {
      interface_number = 0;
      ep_in = ep_in;
      ep_out = ep_out;
      devconf = devconf;
      channel_count = devconf.channel_count;
      channels = chs;
      hf_size_rx = largest 0 chs;
      active_channels = 0;
      reader_running = false;
      stop_flag = false;
    })
fields-IsOpened ep_in ep_out devconf chs le fresh len = record {
  quiescent = record {
    valid = record {
      counted = sym len;
      bounded = omega arith;
      indexed = λ k ch e. omega (arith, (AllFresh-at 0 chs k ch fresh e).numbered);
      queued = λ k ch e. (AllFresh-at 0 chs k ch fresh e).queued;
    };
    active = sym (AllFresh-count_started 0 chs fresh);
    idle = λ z. refl;
    reading = λ nz. absurd (nz refl);
    unstopped = λ nz. refl;
  };
  none_active = refl;
  holds = λ k ch e. largest-holds 0 chs k ch e;
  nothing_queued = λ k ch e. (AllFresh-at 0 chs k ch fresh e).nothing_queued;
}
