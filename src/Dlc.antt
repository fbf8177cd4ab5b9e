-- ===== src/Dlc.antt =====
-- driver/src/gsusb.c: data length codes, classic and FD. A length or a code is a `uint8_t`.
pub mod Laws
use gs_usb_user.Base.{ℕ, List, [], ◌∷◌, ltb, leb, get_or, if◌then◌else◌}

unfoldable pub len2dlc_cc : ℕ → ℕ
len2dlc_cc len = if ltb 8 len then 8 else len

unfoldable pub dlc2len_cc : ℕ → ℕ
dlc2len_cc dlc = if ltb 8 dlc then 8 else dlc

abbrev pub fd_dlc2len_tbl : List ℕ
fd_dlc2len_tbl = 0 ∷ 1 ∷ 2 ∷ 3 ∷ 4 ∷ 5 ∷ 6 ∷ 7 ∷ 8 ∷ 12 ∷ 16 ∷ 20 ∷ 24 ∷ 32 ∷ 48 ∷ 64 ∷ []

-- The index is at most 15, so the default is never read (`Laws.fd_index_in_table`).
unfoldable pub dlc2len_fd : ℕ → ℕ
dlc2len_fd dlc = get_or fd_dlc2len_tbl (if ltb 15 dlc then 15 else dlc) 0

unfoldable pub len2dlc_fd : ℕ → ℕ
len2dlc_fd len =
    if leb len 8
    then len
    else if leb len 12
    then 9
    else if leb len 16
    then 10
    else if leb len 20
    then 11
    else if leb len 24
    then 12
    else if leb len 32
    then 13
    else if leb len 48
    then 14
    else 15
