-- ===== src/Tools/Session/Outcome.antt =====
-- What the tools do before and behind their loops ends, whatever libusb and pthreads answer.
use gs_usb_user.Base.{
  ℕ, ◌≡◌, refl, Bool, true, false, Option, none, some, ◌>>=◌, has, not, ◌&&◌, get_elem?,
  get_elem?-set_self, lt-of-get_elem?, ◌⊎◌, Bool-cases, Option-cases, inl, inr, if◌then◌else◌, leb,
}
use gs_usb_user.Base.Int.{pos}
use gs_usb_user.Device.{Channel, Dev, channel_get, put_channel}
use gs_usb_user.Rxq.Invariant.{IsValid as IsQueue}
use gs_usb_user.Status.{Status, is_error}
use gs_usb_user.Usb.{Usb}
use gs_usb_user.Wire.Feature
use gs_usb_user.Timing.{Double, Answer, failed, solved}
use gs_usb_user.Timing.Halts.{HasRoom, calc_bittiming_total}
use gs_usb_user.Control.{
  bittiming_bytes, data_bt_const_of, send_bittiming, set_bittiming_raw, set_data_bittiming_raw,
  set_bitrate, set_data_bitrate,
}
use gs_usb_user.Wire.{put_le32}
use gs_usb_user.Lifecycle.Started.{IsQuiescent, put_channel-IsQuiescent}
use gs_usb_user.Lifecycle.Start.{Started, unchanged, running, unread, start-Started}
use gs_usb_user.Lifecycle.Stop.{Stopped, stop-Stopped, already, stopped}
use gs_usb_user.Close.{gsusb_close}
use gs_usb_user.Close.Resets.{close_cases}
use gs_usb_user.Open.Device.{Libusb}
use gs_usb_user.Open.Limits.{HasLimits, AllLimits, AllLimits-at}
use gs_usb_user.Tools.Common.{gsusb_exit}
use gs_usb_user.Tools.Session.{
  Ready, ready, give_up, set_fd_bitrate, start_channel, set_up, bring_up, shut_down, finish_tool,
}

-- A call that returns, with a value of which `P` is known.
abbrev pub Returns : {A : Type 0} → (A → Type 0) → Option A → Type 0
Returns {A} P r = (a : A) × (r ≡ some a) × P a

pub mapped_total :
    {A B : Type 0} (m : Option A) (a : A) (f : A → B)
    → m ≡ some a
    → (b : B) × ((do x ← m; some (f x)) ≡ some b)
mapped_total m a f e = (f a, rw e refl)

-- the device as a tool starts it, with the channel started and its queue as it was; or nothing
pub data IsReady {W : Type 0} (before : Dev) (channel : ℕ) : Ready W → Type 0 where
  with_channel :
      (dev : Dev) (w : W) (old ch : Channel)
      → IsQuiescent dev
      → get_elem? before.channels channel ≡ some old
      → get_elem? dev.channels channel ≡ some ch
      → (ch.started ≡ true) × (ch.queue ≡ old.queue)
      → IsReady before channel (ready dev w)
  without : (w : W) → IsReady before channel (give_up w)

channel_get-cases :
    (dev : Dev) (channel : ℕ)
    → (channel_get dev channel ≡ none)
      ⊎ ((ch : Channel) × (channel_get dev channel ≡ some ch)
          × (get_elem? dev.channels channel ≡ some ch))
unfolding channel_get
channel_get-cases dev channel = elim (Bool-cases (leb dev.channel_count channel)) [
  | inl out ↦ inl (rw out refl)
  | inr inside ↦ elim (Option-cases (get_elem? dev.channels channel)) [
    | inl e ↦ inl (rw (inside, e) refl)
    | inr (ch, e) ↦ inr (ch, rw (inside, e) refl, e)
  ]
]

module _ {W F : Type 0} (usb : Usb W) (d : Double F) (fuel : ℕ) where
  set_bitrate_total :
      (ch : Channel) (bitrate : ℕ) (sample_point : F) (w : W)
      → HasLimits (HasRoom fuel) ch
      → (r : Status × W) × (set_bitrate usb d fuel ch bitrate sample_point w ≡ some r)
  unfolding set_bitrate send_bittiming bittiming_bytes put_le32
  set_bitrate_total ch bitrate sample_point w l =
      let btc = ch.bt_const in
      let (a, e) = calc_bittiming_total d fuel btc.fclk_can bitrate sample_point btc l.nominal in
      rw e (sent a)
    where
      sent :
          (a : Answer)
          → (r : Status × W) × (elim a as (λ x. Option (Status × W)) [
            | failed rc ↦ some (rc, w)
            | solved regs ↦ set_bittiming_raw usb ch regs w
          ]
              ≡ some r)
      sent (failed rc) = ((rc, w), refl)
      sent (solved regs) = (_, refl)

  set_fd_bitrate_total :
      (fd_mode : Bool) (ch : Channel) (bitrate : ℕ) (w : W)
      → HasLimits (HasRoom fuel) ch
      → (r : Status × W) × (set_fd_bitrate usb d fuel fd_mode ch bitrate w ≡ some r)
  unfolding set_fd_bitrate set_data_bitrate send_bittiming bittiming_bytes put_le32
  set_fd_bitrate_total false ch bitrate w l = (_, refl)
  set_fd_bitrate_total true ch bitrate w l =
      let btc = data_bt_const_of ch in
      let (a, e) = calc_bittiming_total d fuel btc.fclk_can bitrate (d.of_int (pos 0)) btc l.fast in
      rw e (sent a)
    where
      sent :
          (a : Answer)
          → (r : Status × W) × (elim a as (λ x. Option (Status × W)) [
            | failed rc ↦ some (rc, w)
            | solved regs ↦ set_data_bittiming_raw usb ch regs w
          ]
              ≡ some r)
      sent (failed rc) = ((rc, w), refl)
      sent (solved regs) = (_, refl)

  start_channel-IsReady :
      (dev : Dev) (channel : ℕ) (ch : Channel) (mode : ℕ) (w : W)
      → IsQuiescent dev
      → get_elem? dev.channels channel ≡ some ch
      → Returns (IsReady dev channel) (start_channel usb d fuel dev channel mode w)
  unfolding start_channel
  start_channel-IsReady dev channel ch mode w q at =
      let (r, w', e, s) = start-Started usb dev channel ch mode w q at in rw e (after r w' s)
    where
      after :
          (r : Status × Dev) (w' : W)
          → Started dev channel ch r
          → Returns
              (IsReady dev channel)
              (if is_error r.0 then some (give_up w') else some (ready r.1 w'))
      after r w' (unchanged s x) = (give_up w', rw x refl, without w')
      after r w' (running d' q' at' a r') =
          (ready d' w', refl, with_channel d' w' ch _ q' at at' (refl, refl))
      after r w' (unread d' q' at' a r') = (give_up w', refl, without w')

  set_up-IsReady :
      (dev : Dev) (channel : ℕ) (ch : Channel) (fd_mode : Bool) (bitrate data_bitrate mode : ℕ)
      (w : W)
      → IsQuiescent dev
      → HasLimits (HasRoom fuel) ch
      → get_elem? dev.channels channel ≡ some ch
      → Returns
          (IsReady dev channel)
          (set_up usb d fuel dev channel ch fd_mode bitrate data_bitrate mode w)
  unfolding set_up
  set_up-IsReady dev channel ch fd_mode bitrate data_bitrate mode w q l at =
      let ((rc, w1), e) = set_bitrate_total ch bitrate (d.of_int (pos 0)) w l in
      let ((rc', w2), e') = set_fd_bitrate_total fd_mode ch data_bitrate w1 l in
      elim (Bool-cases (is_error rc)) [
        | inl x ↦ (give_up w1, rw (e, x) refl, without w1)
        | inr x ↦ elim (Bool-cases (is_error rc')) [
          | inl y ↦ (give_up w2, rw (e, x, e', y) refl, without w2)
          | inr y ↦ rw (e, x, e', y) (start_channel-IsReady dev channel ch mode w2 q at)
        ]
      ]

  -- From a device at rest, whose limits leave room under the fuel, the tools come to a started channel
  -- or give up.
  pub bring_up-IsReady :
      (dev : Dev) (channel : ℕ) (fd_mode : Bool) (bitrate data_bitrate mode : ℕ) (w : W)
      → IsQuiescent dev
      → AllLimits (HasRoom fuel) dev.channels
      → Returns
          (IsReady dev channel)
          (bring_up usb d fuel dev channel fd_mode bitrate data_bitrate mode w)
  unfolding bring_up
  bring_up-IsReady dev channel fd_mode bitrate data_bitrate mode w q l =
      elim (channel_get-cases dev channel) [
        | inl e ↦ (give_up w, rw (e, bring_up) refl, without w)
        | inr (ch, e, at) ↦ elim (Bool-cases (fd_mode && not (has ch.feature Feature.fd))) [
          | inl x ↦ (give_up w, rw (e, x, bring_up) refl, without w)
          | inr x ↦
              rw (e, x, bring_up)
                (set_up-IsReady dev channel ch fd_mode bitrate data_bitrate mode w q
                  (AllLimits-at (HasRoom fuel) dev.channels channel ch l at) at)
        ]
      ]

pub gsusb_close_total :
    {W : Type 0} (usb : Usb W) (lib : Libusb W) (dev : Dev) (w : W)
    → IsQuiescent dev
    → (w' : W) × (gsusb_close usb lib dev w ≡ some w')
gsusb_close_total usb lib dev w q = elim (close_cases usb lib dev w q) [
  | inl (z, e) ↦ (_, e)
  | inr (nz, e) ↦ (_, e)
]

-- What follows the loops ends.
pub shut_down_total :
    {W : Type 0} (usb : Usb W) (lib : Libusb W) (dev : Dev) (channel : ℕ) (ch : Channel) (w : W)
    → IsQuiescent dev
    → get_elem? dev.channels channel ≡ some ch
    → (w' : W) × (shut_down usb lib dev channel w ≡ some w')
unfolding shut_down
shut_down_total usb lib dev channel ch w q at =
    let (d, w1, e, s) = stop-Stopped usb dev channel ch w q at in
    let (w2, f) = gsusb_close_total usb lib d w1 (at_rest d s) in
    (gsusb_exit lib w2, rw (e, f) refl)
  where
    at_rest : (d : Dev) → Stopped dev channel ch d → IsQuiescent d
    at_rest d (already s same) = rw same q
    at_rest d (stopped q' s at' n) = q'

-- What follows the loops ends, whatever happened to the queue of the channel.
pub finish_tool_total :
    {W : Type 0} (usb : Usb W) (lib : Libusb W) (dev : Dev) (channel : ℕ) (old ch : Channel) (w : W)
    → IsQuiescent dev
    → get_elem? dev.channels channel ≡ some old
    → ch.index ≡ channel
    → ch.started ≡ old.started
    → IsQueue ch.queue
    → (w' : W) × (finish_tool usb lib dev channel ch w ≡ some w')
unfolding finish_tool
finish_tool_total usb lib dev channel old ch w q at i s v =
    shut_down_total usb lib (put_channel dev channel ch) channel ch w
      (put_channel-IsQuiescent dev channel old ch q at i s v)
      (get_elem?-set_self dev.channels channel ch (lt-of-get_elem? dev.channels channel at))
