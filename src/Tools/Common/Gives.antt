-- ===== src/Tools/Common/Gives.antt =====
-- What is known of every device that `gsusb_open` gives is known of what `gsusb_tool_open` gives.
use gs_usb_user.Base.{ℕ, List, [], ◌∷◌, ◌&&◌, Bool-cases, inl, inr}
use gs_usb_user.Base.Int.{ℤ, pos, ltb_ℤ}
use gs_usb_user.Device.{Dev}
use gs_usb_user.Usb.{Usb}
use gs_usb_user.Open.Device.{Libusb, Memory, Opened, opened, null, fault, open_device}
use gs_usb_user.Open.Outcome.{configure-Ends}
use gs_usb_user.Open.Fresh.{IsOpened}
use gs_usb_user.Open.Limits.{Reports, AllLimits, configure-limits}
use gs_usb_user.Open.Gives.{Gives, both-Gives, open_device-Gives}
use gs_usb_user.Tools.Common.{known_ids, as_u16, try_known, tool_open}

module _ {W : Type 0} (usb : Usb W) (lib : Libusb W) (mem : Memory) (P : Dev → Type 0)
    (known : (vid pid : ℕ) (bus addr : ℤ) (w : W)
      → Gives P (open_device usb lib mem vid pid bus addr w)) where
  -- one turn of the loop, by what `gsusb_open` returned
  turn-Gives :
      (r : Opened W) (next : W → Opened W)
      → Gives P r
      → ((w : W) → Gives P (next w))
      → Gives P (elim r as (λ x. Opened W) [
        | opened dev w' ↦ opened dev w'
        | null w' ↦ next w'
        | fault ↦ fault
      ])
  turn-Gives (opened dev w) next g k = g
  turn-Gives (null w) next g k = k w
  turn-Gives fault next g k = g

  try_known-Gives :
      (ids : List (ℕ × ℕ)) (bus addr : ℤ) (w : W) → Gives P (try_known usb lib mem ids bus addr w)
  unfolding try_known
  try_known-Gives [] bus addr w = tt
  try_known-Gives ((vid, pid) ∷ ids) bus addr w =
      turn-Gives (open_device usb lib mem vid pid bus addr w)
        (λ w'. try_known usb lib mem ids bus addr w') (known vid pid bus addr w)
        (λ w'. try_known-Gives ids bus addr w')

  pub tool_open-Gives :
      (vid pid bus addr : ℤ) (w : W) → Gives P (tool_open usb lib mem vid pid bus addr w)
  unfolding tool_open
  tool_open-Gives vid pid bus addr w = elim (Bool-cases (ltb_ℤ (pos 0) vid && ltb_ℤ (pos 0) pid)) [
    | inl e ↦ rw e (known (as_u16 vid) (as_u16 pid) bus addr w)
    | inr e ↦ rw e (try_known-Gives known_ids bus addr w)
  ]

-- A device that a tool opens is at rest, and what is known of the answers is known of its limits.
pub tool_open-AtRest :
    {W : Type 0} (usb : Usb W) (lib : Libusb W) (mem : Memory) (R : ℕ → ℕ → Type 0)
    (reports : Reports usb R) (vid pid bus addr : ℤ) (w : W)
    → Gives
        (λ dev. IsOpened dev × AllLimits R dev.channels)
        (tool_open usb lib mem vid pid bus addr w)
tool_open-AtRest usb lib mem R reports vid pid bus addr w =
    both-Gives IsOpened (λ dev. AllLimits R dev.channels) (tool_open usb lib mem vid pid bus addr w)
      (tool_open-Gives usb lib mem IsOpened
        (open_device-Gives usb lib mem IsOpened (
          configure-Ends usb reports.full mem.dev_allocated mem.channels_allocated
            mem.queue_allocated))
        vid pid bus addr w)
      (tool_open-Gives usb lib mem (λ dev. AllLimits R dev.channels)
        (open_device-Gives usb lib mem (λ dev. AllLimits R dev.channels)
          (configure-limits R usb reports mem.dev_allocated mem.channels_allocated
            mem.queue_allocated))
        vid pid bus addr w)
