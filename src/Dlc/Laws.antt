-- ===== src/Dlc/Laws.antt =====
-- The two FD maps are adjoint: the code of a length is the least code that holds it.
use gs_usb_user.Base.{
  ℕ, ◌≤◌, ◌<◌, ◌≡◌, refl, ◌↔◌, Bool, true, ◌&&◌, some, arith, ltb, leb, ◌==◌, get_elem?,
  get_elem?-eq-get_or, dec_lt, if◌then◌else◌,
}
use gs_usb_user.Base.Bits.{all_below, all_below_sound}
use gs_usb_user.Dlc.{fd_dlc2len_tbl, dlc2len_fd, len2dlc_fd}

dlc2len_fd_clamp : (d : ℕ) → 15 ≤ d → dlc2len_fd d ≡ 64
unfolding dlc2len_fd
dlc2len_fd_clamp d h = ground arith

abbrev adjoint_at : ℕ → ℕ → Bool
adjoint_at len d = if leb (len2dlc_fd len) d then leb len (dlc2len_fd d) else ltb (dlc2len_fd d) len

adjoint_table : all_below 65 (λ len. all_below 16 (adjoint_at len)) ≡ true
unfolding len2dlc_fd dlc2len_fd
adjoint_table = refl

adjoint_small : (len d : ℕ) → len ≤ 64 → d < 16 → adjoint_at len d ≡ true
adjoint_small len d h k =
    all_below_sound 16 (adjoint_at len) d
      (all_below_sound 65 (λ len. all_below 16 (adjoint_at len)) len adjoint_table (omega arith)) k

len2dlc_fd-le : (len : ℕ) → len2dlc_fd len ≤ 15
unfolding len2dlc_fd
len2dlc_fd-le len = ground arith

-- A length of at most 64 bytes fits in what a code stands for exactly when its own code is no
-- larger: `len2dlc_fd` picks the least code whose payload holds the length.
len2dlc_fd-dlc2len_fd_iff : (len d : ℕ) → len ≤ 64 → (len2dlc_fd len ≤ d) ↔ (len ≤ dlc2len_fd d)
len2dlc_fd-dlc2len_fd_iff len d h = elim (dec_lt d 16) [
  | yes k ↦ ground (arith, adjoint_small len d h k)
  | no k ↦ ground (arith, len2dlc_fd-le len, dlc2len_fd_clamp d)
]

abbrev own : ℕ → Bool
own d = (len2dlc_fd (dlc2len_fd d) == d) && leb (dlc2len_fd d) 64

own_table : all_below 16 own ≡ true
unfolding len2dlc_fd dlc2len_fd
own_table = refl

own_at : (d : ℕ) → d < 16 → own d ≡ true
own_at d h = all_below_sound 16 own d own_table h

-- Every FD code from 0 to 15 is the code of its own payload length.
len2dlc_fd-dlc2len_fd : (d : ℕ) → d ≤ 15 → len2dlc_fd (dlc2len_fd d) ≡ d
len2dlc_fd-dlc2len_fd d h = ground (arith, own_at d)

dlc2len_fd-le : (d : ℕ) → dlc2len_fd d ≤ 64
dlc2len_fd-le d = elim (dec_lt d 16) [
  | yes k ↦ ground (arith, own_at d k)
  | no k ↦ ground (arith, dlc2len_fd_clamp d)
]

-- The clamped index lies in the table, so the table is never read out of bounds.
pub fd_index_in_table :
    (d : ℕ) → get_elem? fd_dlc2len_tbl (if ltb 15 d then 15 else d) ≡ some (dlc2len_fd d)
unfolding dlc2len_fd
fd_index_in_table d =
    get_elem?-eq-get_or fd_dlc2len_tbl (if ltb 15 d then 15 else d) 0 (ground arith)
