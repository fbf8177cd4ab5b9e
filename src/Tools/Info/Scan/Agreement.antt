-- ===== src/Tools/Info/Scan/Agreement.antt =====
-- `gsusb_info --scan` lists the devices that the tools open with the same options.
use gs_usb_user.Base.{
  ℕ, ◌^◌, ◌<◌, ◌≡◌, ◌↔◌, refl, sym, ◌∙◌, Bool, true, false, Option, none, some, List, [], ◌∷◌, map,
  arith, ◌==◌, ◌&&◌, ◌||◌, Option-cases, Bool-cases, inl, inr, if◌then◌else◌,
}
use gs_usb_user.Base.Int.{ℤ, pos, negsuc, pos_part, ltb_ℤ}
use gs_usb_user.Open.Find.{UsbDevice, is_at, is_match, find_device}
use gs_usb_user.Open.Device.{Libusb}
use gs_usb_user.Tools.Common.{KnownId, gsusb_known_ids, known_ids, as_u16}
use gs_usb_user.Tools.Info.Scan.{Strings, is_int, known_name, name_of, listing, scan_list}

-- the ids that `gsusb_tool_open` tries
abbrev pub tried : ℤ → ℤ → List (ℕ × ℕ)
tried vid pid =
    if ltb_ℤ (pos 0) vid && ltb_ℤ (pos 0) pid then (as_u16 vid, as_u16 pid) ∷ [] else known_ids

-- Opening any of the ids finds no device of the list.
abbrev pub AllNone : List (ℕ × ℕ) → ℤ → ℤ → List UsbDevice → Type 0
AllNone [] bus addr list = Unit
AllNone ((v, p) ∷ ids) bus addr list =
    (find_device v p bus addr list ≡ none) × AllNone ids bus addr list

-- whether the device matches one of the ids
abbrev matched : List (ℕ × ℕ) → ℤ → ℤ → UsbDevice → Bool
matched [] bus addr d = false
matched ((v, p) ∷ ids) bus addr d = is_match v p bus addr d || matched ids bus addr d

abbrev is_some : {A : Type 0} → Option A → Bool
is_some none = false
is_some (some a) = true

AllNone-nil : (ids : List (ℕ × ℕ)) (bus addr : ℤ) → AllNone ids bus addr []
unfolding find_device
AllNone-nil [] bus addr = tt
AllNone-nil (x ∷ ids) bus addr = (refl, AllNone-nil ids bus addr)

AllNone-step :
    (ids : List (ℕ × ℕ)) (bus addr : ℤ) (d : UsbDevice) (ds : List UsbDevice)
    → AllNone ids bus addr (d ∷ ds) ↔ ((matched ids bus addr d ≡ false) × AllNone ids bus addr ds)
unfolding find_device
AllNone-step [] bus addr d ds = (λ h. (refl, tt), λ h. tt)
AllNone-step ((v, p) ∷ ids) bus addr d ds =
    let rest = AllNone-step ids bus addr d ds in
    elim (Bool-cases (is_match v p bus addr d)) [
      | inl e ↦ (λ h. ground (arith, h.0), λ h. ground (arith, h.0))
      | inr e ↦
          rw e (λ h. let (a, b) = rest.0 h.1 in (a, (h.0, b)), λ h. (h.1.0, rest.1 (h.0, h.1.1)))
    ]

is_match-of_ids :
    (a b : ℕ) (bus addr : ℤ) (d : UsbDevice) (v p : ℕ)
    → d.ids ≡ some (v, p)
    → is_match a b bus addr d ≡ (v == a && p == b && is_at bus d.bus && is_at addr d.address)
unfolding is_match
is_match-of_ids a b bus addr d v p e = elim (Bool-cases (is_at bus d.bus)) [
  | inl x ↦ elim (Bool-cases (v == a)) [ inl y ↦ ground arith | inr y ↦ ground arith ]
  | inr x ↦ elim (Bool-cases (v == a)) [ inl y ↦ ground arith | inr y ↦ ground arith ]
]

known_name-matched :
    (ks : List KnownId) (bus addr : ℤ) (d : UsbDevice) (v p : ℕ)
    → d.ids ≡ some (v, p)
    → matched (map (λ k. (k.vid, k.pid)) ks) bus addr d
      ≡ (is_some (known_name ks v p) && is_at bus d.bus && is_at addr d.address)
unfolding known_name
known_name-matched [] bus addr d v p e = refl
known_name-matched (k ∷ ks) bus addr d v p e =
    let rest = known_name-matched ks bus addr d v p e in
    let first = is_match-of_ids k.vid k.pid bus addr d v p e in
    elim (Bool-cases (v == k.vid && p == k.pid)) [ inl x ↦ ground arith | inr x ↦ ground arith ]

matched-no_ids :
    (ids : List (ℕ × ℕ)) (bus addr : ℤ) (d : UsbDevice)
    → d.ids ≡ none
    → matched ids bus addr d ≡ false
unfolding is_match
matched-no_ids [] bus addr d e = refl
matched-no_ids ((v, p) ∷ ids) bus addr d e = ground (arith, matched-no_ids ids bus addr d e)

listing-name_of :
    (vid pid bus addr : ℤ) (d : UsbDevice) (v p : ℕ)
    → d.ids ≡ some (v, p)
    → is_some (listing vid pid bus addr d)
      ≡ (is_some (name_of vid pid v p) && is_at bus d.bus && is_at addr d.address)
unfolding listing
listing-name_of vid pid bus addr d v p e = elim (Option-cases (name_of vid pid v p)) [
  | inl n ↦ ground arith
  | inr (name, n) ↦ elim (Bool-cases (is_at bus d.bus)) [
    | inl x ↦ elim (Bool-cases (is_at addr d.address)) [
      | inl y ↦ ground arith
      | inr y ↦ ground arith
    ]
    | inr x ↦ ground arith
  ]
]

is_int-as_u16 :
    (v : ℕ) (i : ℤ) → ltb_ℤ (pos 0) i ≡ true → pos_part i < 2 ^ 16 → is_int v i ≡ (v == as_u16 i)
is_int-as_u16 v (pos n) p h = ground arith
is_int-as_u16 v (negsuc n) p h = ground arith

name_of-matched :
    (vid pid bus addr : ℤ) (d : UsbDevice) (v p : ℕ)
    → pos_part vid < 2 ^ 16
    → pos_part pid < 2 ^ 16
    → d.ids ≡ some (v, p)
    → matched (tried vid pid) bus addr d
      ≡ (is_some (name_of vid pid v p) && is_at bus d.bus && is_at addr d.address)
unfolding name_of
name_of-matched vid pid bus addr d v p hv hp e =
    elim (Bool-cases (ltb_ℤ (pos 0) vid && ltb_ℤ (pos 0) pid)) [
      | inr x ↦ rw x (known_name-matched gsusb_known_ids bus addr d v p e)
      | inl x ↦
          let first = is_match-of_ids (as_u16 vid) (as_u16 pid) bus addr d v p e in
          let same = is_int-as_u16 v vid (ground arith) hv in
          let same' = is_int-as_u16 p pid (ground arith) hp in
          elim (Bool-cases (is_int v vid)) [
            | inl y ↦ elim (Bool-cases (is_int p pid)) [
              | inl z ↦ ground arith
              | inr z ↦ ground arith
            ]
            | inr y ↦ ground arith
          ]
    ]

listing-matched :
    (vid pid bus addr : ℤ) (d : UsbDevice)
    → pos_part vid < 2 ^ 16
    → pos_part pid < 2 ^ 16
    → is_some (listing vid pid bus addr d) ≡ matched (tried vid pid) bus addr d
unfolding listing
listing-matched vid pid bus addr d hv hp = elim (Option-cases d.ids) [
  | inl e ↦ simp (e, listing) (sym (matched-no_ids (tried vid pid) bus addr d e))
  | inr ((v, p), e) ↦
      listing-name_of vid pid bus addr d v p e
      ∙ sym (name_of-matched vid pid bus addr d v p hv hp e)
]

module _ {W : Type 0} (lib : Libusb W) (strings : Strings W) where
  -- For ids that are 16-bit numbers, the scan finds nothing in the list of devices exactly if opening any
  -- of the ids that the tools try with the same options finds nothing there.
  pub scan_list-AllNone :
      (vid pid bus addr : ℤ) (list : List UsbDevice) (w : W)
      → pos_part vid < 2 ^ 16
      → pos_part pid < 2 ^ 16
      → ((scan_list lib strings vid pid bus addr list w).0 ≡ 0)
        ↔ AllNone (tried vid pid) bus addr list
  unfolding scan_list
  scan_list-AllNone vid pid bus addr [] w hv hp =
      (λ z. AllNone-nil (tried vid pid) bus addr, λ a. refl)
  scan_list-AllNone vid pid bus addr (d ∷ ds) w hv hp =
      let step = AllNone-step (tried vid pid) bus addr d ds in
      let m = listing-matched vid pid bus addr d hv hp in
      elim (Option-cases (listing vid pid bus addr d)) [
        | inl e ↦
            let rest = scan_list-AllNone vid pid bus addr ds w hv hp in
            rw (e, scan_list) (λ z. step.1 (ground arith, rest.0 z), λ a. rest.1 (step.0 a).1)
        | inr (ids, e) ↦
            rw (e, scan_list) (λ z. absurd (ground arith), λ a. ground (arith, (step.0 a).0))
      ]
