-- ===== src/Wire/RoundTrip.antt =====
-- The little-endian helpers: what a read gives, and that it undoes a write.
use gs_usb_user.Base.{
  ℕ, ◌+◌, ◌*◌, ◌/◌, ◌^◌, ◌≤◌, ◌<◌, ◌≡◌, some, List, [], ◌∷◌, ◌++◌, suc, arith, ap, ◌∙◌, ◌⊎◌, u8,
  length, get_elem?, set, store, length-set, get_elem?-set_self, get_elem?-set_ne, lt→ltb,
}
use gs_usb_user.Base.Bits.{bit_or_fields}
use gs_usb_user.Wire.{put_le32, get_le32}

-- The number that four bytes stand for.
abbrev pub le32 : ℕ → ℕ → ℕ → ℕ → ℕ
le32 b0 b1 b2 b3 = b0 + b1 * 2 ^ 8 + b2 * 2 ^ 16 + b3 * 2 ^ 24

-- the four bytes of a number, the lowest first
abbrev pub le32_bytes : ℕ → List ℕ
le32_bytes v = u8 v ∷ u8 (v / 2 ^ 8) ∷ u8 (v / 2 ^ 16) ∷ u8 (v / 2 ^ 24) ∷ []

pub get_le32-eq :
    (p : List ℕ) (at : ℕ) {b0 b1 b2 b3 : ℕ}
    → get_elem? p at ≡ some b0
    → get_elem? p (at + 1) ≡ some b1
    → get_elem? p (at + 2) ≡ some b2
    → get_elem? p (at + 3) ≡ some b3
    → b0 < 256
    → b1 < 256
    → b2 < 256
    → b3 < 256
    → get_le32 p at ≡ some (le32 b0 b1 b2 b3)
unfolding get_le32
get_le32-eq p at {b0} {b1} {b2} {b3} e0 e1 e2 e3 h0 h1 h2 h3 = ground (
  arith,
  bit_or_fields 8 b0 b1 h0,
  bit_or_fields 16 (b0 + b1 * 2 ^ 8) b2 (omega arith),
  bit_or_fields 24 (b0 + b1 * 2 ^ 8 + b2 * 2 ^ 16) b3 (omega arith),
)

-- The buffer after a write of four bytes in bounds.
abbrev pub with_le32 : List ℕ → ℕ → ℕ → List ℕ
with_le32 p at v =
    set (set (set (set p at (u8 v)) (at + 1) (u8 (v / 2 ^ 8))) (at + 2) (u8 (v / 2 ^ 16))) (at + 3)
      (u8 (v / 2 ^ 24))

store-eq : (p : List ℕ) (i v : ℕ) → i < length p → store p i v ≡ some (set p i v)
store-eq p i v h = ground (arith, lt→ltb i (length p) h)

pub put_le32-eq :
    (p : List ℕ) (at v : ℕ) → at + 4 ≤ length p → put_le32 p at v ≡ some (with_le32 p at v)
unfolding put_le32
put_le32-eq p at v h = ground (
  arith,
  store-eq p at (u8 v),
  length-set p at (u8 v),
  length-set (set p at (u8 v)) (at + 1) (u8 (v / 2 ^ 8)),
  length-set (set (set p at (u8 v)) (at + 1) (u8 (v / 2 ^ 8))) (at + 2) (u8 (v / 2 ^ 16)),
)

pub length-with_le32 : (p : List ℕ) (at v : ℕ) → length (with_le32 p at v) ≡ length p
length-with_le32 p at v = simp length-set

-- A byte outside the four keeps its value.
with_le32_outside :
    (p : List ℕ) (at v j : ℕ)
    → (j < at) ⊎ (at + 4 ≤ j)
    → get_elem? (with_le32 p at v) j ≡ get_elem? p j
with_le32_outside p at v j h =
    get_elem?-set_ne _ (at + 3) j _ (omega arith)
    ∙ get_elem?-set_ne _ (at + 2) j _ (omega arith)
    ∙ get_elem?-set_ne _ (at + 1) j _ (omega arith)
    ∙ get_elem?-set_ne p at j _ (omega arith)

module _ (p : List ℕ) (at v : ℕ) (h : at + 4 ≤ length p) where
  byte_0 : get_elem? (with_le32 p at v) at ≡ some (u8 v)
  byte_0 =
      get_elem?-set_ne _ (at + 3) at _ (omega arith)
      ∙ get_elem?-set_ne _ (at + 2) at _ (omega arith)
      ∙ get_elem?-set_ne _ (at + 1) at _ (omega arith)
      ∙ get_elem?-set_self p at _ (omega arith)

  byte_1 : get_elem? (with_le32 p at v) (at + 1) ≡ some (u8 (v / 2 ^ 8))
  byte_1 =
      get_elem?-set_ne _ (at + 3) (at + 1) _ (omega arith)
      ∙ get_elem?-set_ne _ (at + 2) (at + 1) _ (omega arith)
      ∙ get_elem?-set_self (set p at (u8 v)) (at + 1) _ (omega (arith, length-set p at (u8 v)))

  byte_2 : get_elem? (with_le32 p at v) (at + 2) ≡ some (u8 (v / 2 ^ 16))
  byte_2 =
      get_elem?-set_ne _ (at + 3) (at + 2) _ (omega arith)
      ∙ get_elem?-set_self _ (at + 2) _ (simp length-set (omega arith))

  byte_3 : get_elem? (with_le32 p at v) (at + 3) ≡ some (u8 (v / 2 ^ 24))
  byte_3 = get_elem?-set_self _ (at + 3) _ (simp length-set (omega arith))

  -- What was written is read back.
  get_le32-with_le32 : v < 2 ^ 32 → get_le32 (with_le32 p at v) at ≡ some v
  get_le32-with_le32 fits =
      get_le32-eq (with_le32 p at v) at byte_0 byte_1 byte_2 byte_3 (omega arith) (omega arith)
        (omega arith) (omega arith)
      ∙ ap some (omega arith)

-- Writing a 32-bit number inside a buffer succeeds, keeps the buffer's length and every byte outside
-- the four written, and reading at the same place gives the number back.
get_le32-put_le32 :
    (p : List ℕ) (at v : ℕ)
    → at + 4 ≤ length p
    → v < 2 ^ 32
    → (q : List ℕ) × (put_le32 p at v ≡ some q)
      × (get_le32 q at ≡ some v)
      × (length q ≡ length p)
      × ((j : ℕ) → (j < at) ⊎ (at + 4 ≤ j) → get_elem? q j ≡ get_elem? p j)
get_le32-put_le32 p at v h fits = (
  with_le32 p at v,
  put_le32-eq p at v h,
  get_le32-with_le32 p at v h fits,
  length-with_le32 p at v,
  with_le32_outside p at v,
)

get_elem?-append_right : (p q : List ℕ) (j : ℕ) → get_elem? (p ++ q) (length p + j) ≡ get_elem? q j
get_elem?-append_right [] q j = ap (get_elem? q) (omega arith)
get_elem?-append_right (x ∷ p) q j =
    let step : suc (length p) + j ≡ suc (length p + j) = omega arith in
    ap (get_elem? (x ∷ (p ++ q))) step ∙ get_elem?-append_right p q j

-- The number behind a prefix is read back.
pub get_le32-append :
    (p : List ℕ) (v : ℕ) → v < 2 ^ 32 → get_le32 (p ++ le32_bytes v) (length p) ≡ some v
get_le32-append p v h =
    get_le32-eq (p ++ le32_bytes v) (length p)
      (ap (get_elem? (p ++ le32_bytes v)) (omega arith) ∙ get_elem?-append_right p (le32_bytes v) 0)
      (get_elem?-append_right p (le32_bytes v) 1) (get_elem?-append_right p (le32_bytes v) 2)
      (get_elem?-append_right p (le32_bytes v) 3) (omega arith) (omega arith) (omega arith)
      (omega arith)
    ∙ ap some (omega arith)
