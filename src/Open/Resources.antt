-- ===== src/Open/Resources.antt =====
-- What `gsusb_open` holds when it returns, and which device it picks.
use gs_usb_user.Base.{
  ℕ, ◌≡◌, refl, true, Option, some, none, List, ◌==◌, ◌||◌, length, Bool-cases, inl, inr,
}
use gs_usb_user.Base.Int.{ℤ}
use gs_usb_user.Device.{Dev}
use gs_usb_user.Usb.{Usb, Setup}
use gs_usb_user.Open.{Probe}
use gs_usb_user.Open.Outcome.{configure-Ends}
use gs_usb_user.Open.Fresh.{IsOpened}
use gs_usb_user.Open.Ends.{Ends, well, refusal, memory}
use gs_usb_user.Open.Keeps.{Keeps, configure-Keeps}
use gs_usb_user.Open.Find.{UsbDevice, Interface, find_device, find_endpoints}
use gs_usb_user.Open.Device.{
  Libusb, Opened, opened, null, is_success, Memory, give_up, settle, open_configured, open_claimed,
  open_handled, open_match, open_device,
}
use gs_usb_user.Open.Ledger.{
  Ledger, nothing_held, device_held, tracked_usb, tracked, took_list, took_config, is_given,
}

-- How `gsusb_open` returns, by the ledger.
pub data OpenReturn {W : Type 0} : Opened (W × Ledger) → Type 0 where
  with_device : (dev : Dev) (w : W) → IsOpened dev → OpenReturn (opened dev (w, device_held))
  with_nothing : (w : W) → OpenReturn (null (w, nothing_held))

-- the ledger of an open device
abbrev IsHeld : {W : Type 0} → W × Ledger → Type 0
IsHeld w = w.1 ≡ device_held

module _ {W : Type 0} (usb : Usb W) (lib : Libusb W) (mem : Memory)
    (full : (s : Setup) (n : ℕ) (w : W) → length (usb.control_in s n w).1 ≡ n) where
  abbrev tusb : Usb (W × Ledger)
  tusb = tracked_usb usb

  abbrev tlib : Libusb (W × Ledger)
  tlib = tracked lib

  give_up-OpenReturn : (w : W × Ledger) → IsHeld w → OpenReturn (give_up tusb tlib mem w)
  unfolding give_up
  give_up-OpenReturn (w, l) h = rw h (with_nothing _)

  settle-OpenReturn :
      (p : Probe (W × Ledger) Dev)
      → Ends IsOpened p
      → Keeps IsHeld p
      → OpenReturn (settle tusb tlib mem p)
  unfolding settle
  settle-OpenReturn p (well dev (w, l) v) (Keeps.well a x h) = rw h (with_device dev w v)
  settle-OpenReturn p (refusal rc w e) (Keeps.refusal r x h) = give_up-OpenReturn w h
  settle-OpenReturn p (memory w) (Keeps.memory x h) = give_up-OpenReturn w h

  open_configured-OpenReturn :
      (eps : ℕ × ℕ) (w : W) → OpenReturn (open_configured tusb tlib mem eps (w, device_held))
  unfolding open_configured
  open_configured-OpenReturn eps w = elim (Bool-cases (eps.0 == 0 || eps.1 == 0)) [
    | inl e ↦ rw e (give_up-OpenReturn (w, device_held) refl)
    | inr e ↦ rw e (
        settle-OpenReturn _
          (configure-Ends tusb (λ s n w'. full s n w'.0) mem.dev_allocated mem.channels_allocated
            mem.queue_allocated eps.0 eps.1 (w, device_held))
          (configure-Keeps IsHeld tusb (λ s n w' h. rw h refl) (λ s b w' h. rw h refl)
            mem.dev_allocated mem.channels_allocated mem.queue_allocated eps.0 eps.1
            (w, device_held) refl))
  ]

  open_claimed-OpenReturn : (w : W) → OpenReturn (open_claimed tusb tlib mem (w, device_held))
  unfolding open_claimed
  open_claimed-OpenReturn w = answered (lib.get_active_config w).0 (lib.get_active_config w).1
    where
      answered :
          (config : Option (List Interface)) (w1 : W)
          → OpenReturn (
              let l = took_config (is_given config) device_held in
              elim config as (λ x. Opened (W × Ledger)) [
                | none ↦ give_up tusb tlib mem (w1, l)
                | some interfaces ↦
                    open_configured tusb tlib mem
                      (find_endpoints interfaces (0, 0))
                      (tlib.free_config (w1, l))
              ])
      answered none w1 = give_up-OpenReturn (w1, device_held) refl
      answered (some interfaces) w1 =
          open_configured-OpenReturn (find_endpoints interfaces (0, 0)) (lib.free_config w1)

  open_match-OpenReturn :
      (d : UsbDevice) (w : W)
      → OpenReturn (open_match tusb tlib mem d (w, record nothing_held { device_list = true }))
  unfolding open_match open_handled
  open_match-OpenReturn d w = elim (Bool-cases (is_success (lib.open_handle d w).0)) [
    | inr e ↦ rw e (with_nothing _)
    | inl e ↦
        let w1 = lib.set_auto_detach (lib.free_device_list (lib.open_handle d w).1) in
        elim (Bool-cases (is_success (lib.claim_interface w1).0)) [
          | inr f ↦ rw (e, f) (with_nothing _)
          | inl f ↦ rw (e, f) (open_claimed-OpenReturn (lib.claim_interface w1).1)
        ]
  ]

  -- When libusb fills the buffers it is asked to fill, `gsusb_open`, called with a context and nothing
  -- else, ends without an access out of bounds and without a call of libusb that misses what it needs
  -- or gives back what is not held. It gives a device whose state is well-formed, with the handle open
  -- and the interface claimed, or NULL with neither, at whichever of its steps it fails; and on every
  -- path the device list and the configuration descriptor are given back.
  pub open_device-OpenReturn :
      (vid pid : ℕ) (bus addr : ℤ) (w : W)
      → OpenReturn (open_device tusb tlib mem vid pid bus addr (w, nothing_held))
  unfolding open_device
  open_device-OpenReturn vid pid bus addr w =
      listed (lib.get_device_list w).0 (lib.get_device_list w).1
    where
      picked :
          (d : Option UsbDevice) (w1 : W)
          → OpenReturn (
              let w2 : W × Ledger = (w1, record nothing_held { device_list = true }) in
              elim d as (λ x. Opened (W × Ledger)) [
                | none ↦ null (tlib.free_device_list w2)
                | some d ↦ open_match tusb tlib mem d w2
              ])
      picked none w1 = with_nothing _
      picked (some d) w1 = open_match-OpenReturn d w1

      listed :
          (devices : Option (List UsbDevice)) (w1 : W)
          → OpenReturn (
              let w2 : W × Ledger = (w1, took_list (is_given devices) nothing_held) in
              elim devices as (λ x. Opened (W × Ledger)) [
                | none ↦ null w2
                | some list ↦
                    elim (find_device vid pid bus addr list) as (λ x. Opened (W × Ledger)) [
                      | none ↦ null (tlib.free_device_list w2)
                      | some d ↦ open_match tusb tlib mem d w2
                    ]
              ])
      listed none w1 = with_nothing w1
      listed (some list) w1 = picked (find_device vid pid bus addr list) w1
