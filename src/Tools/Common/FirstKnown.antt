-- ===== src/Tools/Common/FirstKnown.antt =====
-- Which device `gsusb_tool_open` opens.
use gs_usb_user.Base.{
  ℕ, ◌≡◌, refl, List, [], ◌∷◌, ◌++◌, ◌&&◌, length, Bool-cases, inl, inr, if◌then◌else◌,
}
use gs_usb_user.Base.Int.{ℤ, pos, ltb_ℤ}
use gs_usb_user.Device.{Dev}
use gs_usb_user.Usb.{Usb, Setup}
use gs_usb_user.Open.Fresh.{IsOpened}
use gs_usb_user.Open.Device.{Libusb, Memory, Opened, opened, null, fault, open_device}
use gs_usb_user.Open.Ledger.{Ledger, nothing_held, device_held, tracked_usb, tracked}
use gs_usb_user.Open.Resources.{OpenReturn, with_device, with_nothing, open_device-OpenReturn}
use gs_usb_user.Tools.Common.{known_ids, as_u16, try_known, tool_open}

module _ {W : Type 0} (usb : Usb W) (lib : Libusb W) (mem : Memory) (bus addr : ℤ) where
  abbrev tusb : Usb (W × Ledger)
  tusb = tracked_usb usb

  abbrev tlib : Libusb (W × Ledger)
  tlib = tracked lib

  -- Every id of a list is tried in turn and gives no device.
  pub data AllFail : List (ℕ × ℕ) → W → W → Type 0 where
    end : (w : W) → AllFail [] w w
    next :
        (vid pid : ℕ) (ids : List (ℕ × ℕ)) (w w1 w2 : W)
        → open_device tusb tlib mem vid pid bus addr (w, nothing_held) ≡ null (w1, nothing_held)
        → AllFail ids w1 w2
        → AllFail ((vid, pid) ∷ ids) w w2

  -- A device from the first id that gives one, or no device from any.
  pub data FirstOf (ids : List (ℕ × ℕ)) (w : W) : Opened (W × Ledger) → Type 0 where
    first :
        (before after : List (ℕ × ℕ)) (vid pid : ℕ) (w1 w2 : W) (dev : Dev)
        → ids ≡ before ++ ((vid, pid) ∷ after)
        → AllFail before w w1
        → open_device tusb tlib mem vid pid bus addr (w1, nothing_held)
          ≡ opened dev (w2, device_held)
        → IsOpened dev
        → FirstOf ids w (opened dev (w2, device_held))
    none_opens : (w1 : W) → AllFail ids w w1 → FirstOf ids w (null (w1, nothing_held))

  skip_failed :
      (vid pid : ℕ) (ids : List (ℕ × ℕ)) (w w1 : W) (r : Opened (W × Ledger))
      → open_device tusb tlib mem vid pid bus addr (w, nothing_held) ≡ null (w1, nothing_held)
      → FirstOf ids w1 r
      → FirstOf ((vid, pid) ∷ ids) w r
  skip_failed vid pid ids w w1 r e (first before after v p w2 w3 dev is failed opens good) =
      first ((vid, pid) ∷ before) after v p w2 w3 dev (rw is refl)
        (next vid pid before w w1 w2 e failed) opens good
  skip_failed vid pid ids w w1 r e (none_opens w2 failed) =
      none_opens w2 (next vid pid ids w w1 w2 e failed)

  alone :
      (vid pid : ℕ) (w : W) (r : Opened (W × Ledger))
      → open_device tusb tlib mem vid pid bus addr (w, nothing_held) ≡ r
      → OpenReturn r
      → FirstOf ((vid, pid) ∷ []) w r
  alone vid pid w r e (with_device dev w1 good) = first [] [] vid pid w w1 dev refl (end w) e good
  alone vid pid w r e (with_nothing w1) = none_opens w1 (next vid pid [] w w1 w1 e (end w1))

  module _ (full : (s : Setup) (n : ℕ) (w : W) → length (usb.control_in s n w).1 ≡ n) where
    try_known-FirstOf :
        (ids : List (ℕ × ℕ)) (w : W)
        → FirstOf ids w (try_known tusb tlib mem ids bus addr (w, nothing_held))
    unfolding try_known
    try_known-FirstOf [] w = none_opens w (end w)
    try_known-FirstOf ((vid, pid) ∷ ids) w =
        step (open_device tusb tlib mem vid pid bus addr (w, nothing_held)) refl
          (open_device-OpenReturn usb lib mem full vid pid bus addr w)
          (λ w1. try_known-FirstOf ids w1)
      where
        step :
            (r : Opened (W × Ledger))
            → open_device tusb tlib mem vid pid bus addr (w, nothing_held) ≡ r
            → OpenReturn r
            → ((w1 : W) → FirstOf ids w1 (try_known tusb tlib mem ids bus addr (w1, nothing_held)))
            → FirstOf ((vid, pid) ∷ ids) w (elim r [
              | opened dev w' ↦ opened dev w'
              | null w' ↦ try_known tusb tlib mem ids bus addr w'
              | fault ↦ fault
            ])
        step r e (with_device dev w1 good) rest = first [] ids vid pid w w1 dev refl (end w) e good
        step r e (with_nothing w1) rest = skip_failed vid pid ids w w1 _ e (rest w1)

    -- When libusb fills the buffers it is asked to fill, `gsusb_tool_open`, called with a context and
    -- nothing else, tries the ids that it is given, if both are positive, and else the known ids in
    -- their order. It ends with a well-formed device from the first id that gives one, its handle open
    -- and its interface claimed, every id before it having been tried and having given none; or it
    -- gives up after each id was tried once, with what was acquired for each of them given back.
    pub tool_open-FirstOf :
        (vid pid : ℤ) (w : W)
        → FirstOf
            (if ltb_ℤ (pos 0) vid && ltb_ℤ (pos 0) pid
              then (as_u16 vid, as_u16 pid) ∷ []
              else known_ids)
            w
            (tool_open tusb tlib mem vid pid bus addr (w, nothing_held))
    unfolding tool_open
    tool_open-FirstOf vid pid w = elim (Bool-cases (ltb_ℤ (pos 0) vid && ltb_ℤ (pos 0) pid)) [
      | inl e ↦ rw e (
          alone (as_u16 vid) (as_u16 pid) w _ refl
            (open_device-OpenReturn usb lib mem full (as_u16 vid) (as_u16 pid) bus addr w))
      | inr e ↦ rw e (try_known-FirstOf known_ids w)
    ]
