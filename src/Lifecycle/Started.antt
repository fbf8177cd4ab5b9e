-- ===== src/Lifecycle/Started.antt =====
-- The count of the started channels, which `active_channels` is meant to hold, and the invariant of
-- a device whose channels are started and stopped from one thread.
use gs_usb_user.Base.{
  ℕ, zero, suc, ◌+◌, ◌<◌, ◌≤◌, ◌≡◌, ◌≢◌, refl, ap, ◌∙◌, Bool, true, false, some, List, [], ◌∷◌,
  arith, length, get_elem?, set, if◌then◌else◌,
}
use gs_usb_user.Rxq.Invariant.{IsValid as IsQueue}
use gs_usb_user.Device.{Channel, Dev, put_channel}
use gs_usb_user.Device.Invariant.{IsValid, put_channel-IsValid}

abbrev pub digit : Bool → ℕ
digit b = if b then 1 else 0

unfoldable pub count_started : List Channel → ℕ
count_started [] = 0
count_started (ch ∷ chs) = digit ch.started + count_started chs

pub count_started-set :
    (chs : List Channel) (k : ℕ) (old ch : Channel)
    → get_elem? chs k ≡ some old
    → count_started (set chs k ch) + digit old.started ≡ count_started chs + digit ch.started
unfolding count_started
count_started-set [] k old ch e = ground arith
count_started-set (x ∷ xs) zero old ch e = ground arith
count_started-set (x ∷ xs) (suc k) old ch e = omega (arith, count_started-set xs k old ch e)

pub count_started-le : (chs : List Channel) → count_started chs ≤ length chs
unfolding count_started
count_started-le [] = omega arith
count_started-le (x ∷ xs) = ground (arith, count_started-le xs)

-- `active_channels` counts the started channels, and `reader_running` is set, with no request to stop,
-- exactly while one is started.
pub record IsQuiescent (dev : Dev) : Type 0 where
  pub valid : IsValid dev
  pub active : dev.active_channels ≡ count_started dev.channels
  pub idle : dev.active_channels ≡ 0 → dev.reader_running ≡ false
  pub reading : dev.active_channels ≢ 0 → dev.reader_running ≡ true
  pub unstopped : dev.active_channels ≢ 0 → dev.stop_flag ≡ false

pub active-le : (dev : Dev) → IsQuiescent dev → dev.active_channels ≤ 256
active-le dev q =
    omega (arith, q.active, count_started-le dev.channels, q.valid.counted, q.valid.bounded)

-- What starting or stopping channel `k` must do to keep the invariant: `c` takes the place of `ch`,
-- and the count, the reader and the request to stop follow.
pub record IsSwitch (dev : Dev) (ch c : Channel) (active : ℕ) (reader stop : Bool) : Type 0 where
  pub same_index : c.index ≡ ch.index
  pub same_queue : c.queue ≡ ch.queue
  pub counts : active + digit ch.started ≡ dev.active_channels + digit c.started
  pub none_left : active ≡ 0 → reader ≡ false
  pub some_left : active ≢ 0 → (reader ≡ true) × (stop ≡ false)

abbrev pub switched : Dev → ℕ → Channel → ℕ → Bool → Bool → Dev
switched dev k c active reader stop = record (put_channel dev k c) {
  active_channels = active;
  reader_running = reader;
  stop_flag = stop;
}

pub switched-IsQuiescent :
    {active : ℕ} {reader stop : Bool} (dev : Dev) (k : ℕ) (ch c : Channel)
    → IsQuiescent dev
    → get_elem? dev.channels k ≡ some ch
    → IsSwitch dev ch c active reader stop
    → IsQuiescent (switched dev k c active reader stop)
switched-IsQuiescent dev k ch c q at s =
    let v =
      put_channel-IsValid dev k c q.valid (s.same_index ∙ q.valid.indexed k ch at)
        (rw s.same_queue (q.valid.queued k ch at)) in
    record {
      valid = record {
        counted = v.counted;
        bounded = v.bounded;
        indexed = v.indexed;
        queued = v.queued;
      };
      active = omega (arith, s.counts, q.active, count_started-set dev.channels k ch c at);
      idle = s.none_left;
      reading = λ h. (s.some_left h).0;
      unstopped = λ h. (s.some_left h).1;
    }

-- A channel may change without being started or stopped.
pub put_channel-IsQuiescent :
    (dev : Dev) (k : ℕ) (ch c : Channel)
    → IsQuiescent dev
    → get_elem? dev.channels k ≡ some ch
    → c.index ≡ k
    → c.started ≡ ch.started
    → IsQueue c.queue
    → IsQuiescent (put_channel dev k c)
put_channel-IsQuiescent dev k ch c q at i s v = record {
  valid = put_channel-IsValid dev k c q.valid i v;
  active =
      let same : digit c.started ≡ digit ch.started = ap digit s in
      omega (arith, same, q.active, count_started-set dev.channels k ch c at);
  idle = q.idle;
  reading = q.reading;
  unstopped = q.unstopped;
}

pub set-set : {A : Type 0} (xs : List A) (k : ℕ) (a b : A) → set (set xs k a) k b ≡ set xs k b
set-set [] k a b = refl
set-set (x ∷ xs) zero a b = refl
set-set (x ∷ xs) (suc k) a b = ap (◌∷◌ x) (set-set xs k a b)

pub count_positive :
    (chs : List Channel) (k : ℕ) (ch : Channel)
    → get_elem? chs k ≡ some ch
    → ch.started ≡ true
    → 0 < count_started chs
unfolding count_started
count_positive [] k ch e s = ground arith
count_positive (x ∷ xs) zero ch e s = ground arith
count_positive (x ∷ xs) (suc k) ch e s = omega (arith, count_positive xs k ch e s)
