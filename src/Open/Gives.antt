-- ===== src/Open/Gives.antt =====
-- What is known of every device that the requests of `gsusb_open` give is known of what it returns.
use gs_usb_user.Base.{ℕ, Bool-cases, Option-cases, inl, inr, ◌==◌, ◌||◌}
use gs_usb_user.Base.Int.{ℤ}
use gs_usb_user.Device.{Dev}
use gs_usb_user.Usb.{Usb}
use gs_usb_user.Open.{Probe, configure}
use gs_usb_user.Open.Ends.{Ends, well, refusal, memory}
use gs_usb_user.Open.Find.{UsbDevice, find_device, find_endpoints}
use gs_usb_user.Open.Device.{
  Libusb, Opened, opened, null, fault, is_success, Memory, give_up, settle, open_configured,
  open_claimed, open_handled, open_match, open_device,
}

-- A device with `P`, or NULL; never an access out of bounds.
abbrev pub Gives : {W : Type 0} → (Dev → Type 0) → Opened W → Type 0
Gives P (opened dev w) = P dev
Gives P (null w) = Unit
Gives P fault = ⊥

pub both-Gives :
    {W : Type 0} (P Q : Dev → Type 0) (r : Opened W)
    → Gives P r
    → Gives Q r
    → Gives (λ dev. P dev × Q dev) r
both-Gives P Q (opened dev w) p q = (p, q)
both-Gives P Q (null w) p q = tt
both-Gives P Q fault p q = p

module _ {W : Type 0} (usb : Usb W) (lib : Libusb W) (mem : Memory) (P : Dev → Type 0)
    (known : (ep_in ep_out : ℕ) (w : W)
      → Ends P (
          configure usb mem.dev_allocated mem.channels_allocated mem.queue_allocated ep_in ep_out
            w)) where
  settle-Gives : (p : Probe W Dev) → Ends P p → Gives P (settle usb lib mem p)
  unfolding settle give_up
  settle-Gives p (well dev w v) = v
  settle-Gives p (refusal rc w e) = tt
  settle-Gives p (memory w) = tt

  open_configured-Gives : (eps : ℕ × ℕ) (w : W) → Gives P (open_configured usb lib mem eps w)
  unfolding open_configured give_up
  open_configured-Gives eps w = elim (Bool-cases (eps.0 == 0 || eps.1 == 0)) [
    | inl e ↦ rw e tt
    | inr e ↦ rw e (settle-Gives _ (known eps.0 eps.1 w))
  ]

  open_claimed-Gives : (w : W) → Gives P (open_claimed usb lib mem w)
  unfolding open_claimed give_up
  open_claimed-Gives w = elim (Option-cases (lib.get_active_config w).0) [
    | inl e ↦ rw (e, open_claimed) tt
    | inr (is, e) ↦ rw (e, open_claimed) (open_configured-Gives (find_endpoints is (0, 0)) _)
  ]

  open_match-Gives : (d : UsbDevice) (w : W) → Gives P (open_match usb lib mem d w)
  unfolding open_match open_handled
  open_match-Gives d w = elim (Bool-cases (is_success (lib.open_handle d w).0)) [
    | inr e ↦ rw e tt
    | inl e ↦
        let w1 = lib.set_auto_detach (lib.free_device_list (lib.open_handle d w).1) in
        elim (Bool-cases (is_success (lib.claim_interface w1).0)) [
          | inr f ↦ rw (e, f) tt
          | inl f ↦ rw (e, f) (open_claimed-Gives (lib.claim_interface w1).1)
        ]
  ]

  pub open_device-Gives :
      (vid pid : ℕ) (bus addr : ℤ) (w : W) → Gives P (open_device usb lib mem vid pid bus addr w)
  unfolding open_device
  open_device-Gives vid pid bus addr w = elim (Option-cases (lib.get_device_list w).0) [
    | inl e ↦ rw (e, open_device) tt
    | inr (list, e) ↦ elim (Option-cases (find_device vid pid bus addr list)) [
      | inl f ↦ rw (e, f, open_device) tt
      | inr (d, f) ↦ rw (e, f, open_device) (open_match-Gives d (lib.get_device_list w).1)
    ]
  ]
