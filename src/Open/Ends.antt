-- ===== src/Open/Ends.antt =====
-- How the parts of `gsusb_open` end, its requests among them.
use gs_usb_user.Base.{
  ℕ, ◌+◌, ◌≤◌, ◌≡◌, refl, subst, Bool, true, false, Option, some, List, arith, u8, length,
  get_elem?_total, Bool-cases, inl, inr, if◌then◌else◌,
}
use gs_usb_user.Device.{BittimingConst, DeviceConfig, parse_bt_const, parse_bt_const_ext_data_phase}
use gs_usb_user.Rx.Safety.{get_le32_total}
use gs_usb_user.Status.{Status, is_error}
use gs_usb_user.Usb.{Usb, ctrl_in, ctrl_out}
use gs_usb_user.Wire.{Breq, get_le32}
use gs_usb_user.Open.{
  Probe, got, refused, no_memory, and_then, checked, device_config, request, send_host_format,
}

-- A part of `gsusb_open` that ends well, in a value with `P`, or with an error; never out of bounds.
pub data Ends {W A : Type 0} (P : A → Type 0) : Probe W A → Type 0 where
  well : (a : A) (w : W) → P a → Ends P (got a w)
  refusal : (rc : Status) (w : W) → is_error rc ≡ true → Ends P (refused rc w)
  memory : (w : W) → Ends P (no_memory w)

pub and_then-Ends :
    {W A B : Type 0} {P : A → Type 0} {Q : B → Type 0} {m : Probe W A} (f : A → W → Probe W B)
    → Ends P m
    → ((a : A) (w : W) → P a → Ends Q (f a w))
    → Ends Q (and_then m f)
and_then-Ends f (well a w p) k = k a w p
and_then-Ends f (refusal rc w e) k = refusal rc w e
and_then-Ends f (memory w) k = memory w

pub checked-Ends :
    {W A : Type 0} {P : A → Type 0} (o : Option A) (w : W)
    → (a : A) × (o ≡ some a) × P a
    → Ends P (checked o w)
checked-Ends o w (a, e, p) = rw e (well a w p)

pub if-Ends :
    {W A : Type 0} {P : A → Type 0} (b : Bool) {m n : Probe W A}
    → Ends P m
    → Ends P n
    → Ends P (if b then m else n)
if-Ends true g h = g
if-Ends false g h = h

abbrev pub Any : {A : Type 0} → A → Type 0
Any a = Unit {0}

-- The largest prescaler and its step stand at an offset.
abbrev pub ReadsAt : List ℕ → ℕ → BittimingConst → Type 0
ReadsAt p off b = (get_le32 p off ≡ some b.brp_max) × (get_le32 p (off + 4) ≡ some b.brp_inc)

pub parse_bt_const_total :
    (p : List ℕ)
    → length p ≡ 40
    → (b : BittimingConst) × (parse_bt_const p ≡ some b) × ReadsAt p 32 b
unfolding parse_bt_const
parse_bt_const_total p l =
    let (a, ea) = get_le32_total p 0 (omega arith) in
    let (b, eb) = get_le32_total p 4 (omega arith) in
    let (c, ec) = get_le32_total p 8 (omega arith) in
    let (d, ed) = get_le32_total p 12 (omega arith) in
    let (e, ee) = get_le32_total p 16 (omega arith) in
    let (f, ef) = get_le32_total p 20 (omega arith) in
    let (g, eg) = get_le32_total p 24 (omega arith) in
    let (h, eh) = get_le32_total p 28 (omega arith) in
    let (i, ei) = get_le32_total p 32 (omega arith) in
    let (j, ej) = get_le32_total p 36 (omega arith) in
    (
      record {
        feature = a;
        fclk_can = b;
        tseg1_min = c;
        tseg1_max = d;
        tseg2_min = e;
        tseg2_max = f;
        sjw_max = g;
        brp_min = h;
        brp_max = i;
        brp_inc = j;
      },
      rw (ea, eb, ec, ed, ee, ef, eg, eh, ei, ej) refl,
      (ei, ej),
    )

pub parse_ext_total :
    (p : List ℕ) (feature fclk_can : ℕ)
    → length p ≡ 72
    → (b : BittimingConst) × (parse_bt_const_ext_data_phase p feature fclk_can ≡ some b)
      × ReadsAt p 64 b
unfolding parse_bt_const_ext_data_phase
parse_ext_total p feature fclk_can l =
    let (c, ec) = get_le32_total p 40 (omega arith) in
    let (d, ed) = get_le32_total p 44 (omega arith) in
    let (e, ee) = get_le32_total p 48 (omega arith) in
    let (f, ef) = get_le32_total p 52 (omega arith) in
    let (g, eg) = get_le32_total p 56 (omega arith) in
    let (h, eh) = get_le32_total p 60 (omega arith) in
    let (i, ei) = get_le32_total p 64 (omega arith) in
    let (j, ej) = get_le32_total p 68 (omega arith) in
    (
      record {
        feature = feature;
        fclk_can = fclk_can;
        tseg1_min = c;
        tseg1_max = d;
        tseg2_min = e;
        tseg2_max = f;
        sjw_max = g;
        brp_min = h;
        brp_max = i;
        brp_inc = j;
      },
      rw (ec, ed, ee, ef, eg, eh, ei, ej) refl,
      (ei, ej),
    )

pub device_config_total :
    (p : List ℕ)
    → length p ≡ 12
    → (c : DeviceConfig) × (device_config p ≡ some c) × (c.channel_count ≤ 255)
unfolding device_config
device_config_total p l =
    let (a, ea) = get_elem?_total p 3 (omega arith) in
    let (b, eb) = get_le32_total p 4 (omega arith) in
    let (c, ec) = get_le32_total p 8 (omega arith) in
    (
      record { sw_version = b; hw_version = c; channel_count = u8 (a + 1) },
      rw (ea, eb, ec) refl,
      omega arith,
    )

-- What is known of every answer to a request is known of what the request gives.
pub request-Ends :
    {W : Type 0} (usb : Usb W) (P : List ℕ → Type 0) (breq : Breq) (value index len : ℕ) (w : W)
    → ((w' : W)
        → P (usb.control_in (record { request = breq; value = value; index = index }) len w').1)
    → Ends P (request usb breq value index len w)
unfolding request ctrl_in
request-Ends usb P breq value index len w known =
    let (rc, raw, w') = ctrl_in usb breq value index len w in
    elim (Bool-cases (is_error rc)) [
      | inl e ↦ subst (Ends P) (ground (arith, e)) (refusal rc w' e)
      | inr e ↦ subst (Ends P) (ground (arith, e)) (well raw w' (known w))
    ]

pub send_host_format-Ends :
    {W : Type 0} (usb : Usb W) (hostcfg : List ℕ) (w : W)
    → Ends Any (send_host_format usb hostcfg w)
unfolding send_host_format
send_host_format-Ends usb hostcfg w =
    let (rc, w') = ctrl_out usb Breq.host_format 1 0 hostcfg w in
    elim (Bool-cases (is_error rc)) [
      | inl e ↦ subst (Ends Any) (ground (arith, e)) (refusal rc w' e)
      | inr e ↦ subst (Ends Any) (ground (arith, e)) (well rc w' tt)
    ]
