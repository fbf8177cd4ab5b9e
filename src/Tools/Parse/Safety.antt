-- ===== src/Tools/Parse/Safety.antt =====
-- `parse_frame` on any text.
use gs_usb_user.Base.{
  ℕ, zero, suc, ◌+◌, ◌/◌, ◌%◌, ◌<◌, ◌≤◌, ◌≡◌, refl, ap, subst, ◌∙◌, Bool, true, false, ◌||◌, List,
  [], ◌∷◌, arith, ltb, ◌==◌, u8, has, or_if, bit_or, length, length-set, get_or, get_or-set_ne,
  get_or-replicate_default, set, drop, replicate, Bool-cases, Option-cases, inl, inr, dec_lt,
  ℕ_discrete, if◌then◌else◌,
}
use gs_usb_user.Frame.{Frame, zero_frame, frame_fd, rtr_flag}
use gs_usb_user.Rx.Effect.{IsWellFormed}
use gs_usb_user.Tools.Text.{hex_value, scan_2x}
use gs_usb_user.Tools.Parse.{
  Parsed, parsed, refused, overrun, split_hash, parse_id, scan_data, parse_data, fd_flags,
  parse_flexible, parse_classic, parse_body, parse_frame,
}

-- A refusal, or a full array with zeros from `n` on.
data Scanned (n : ℕ) : Parsed (List ℕ) → Type 0 where
  bad : Scanned n refused
  good :
      (payload : List ℕ)
      → length payload ≡ 64
      → ((j : ℕ) → n ≤ j → get_or payload j 0 ≡ 0)
      → Scanned n (parsed payload)

scan_data-Scanned :
    (n i : ℕ) (rest payload : List ℕ) (m : ℕ)
    → m ≡ i + n
    → m ≤ 64
    → length payload ≡ 64
    → ((j : ℕ) → i ≤ j → get_or payload j 0 ≡ 0)
    → Scanned m (scan_data n i rest payload)
unfolding scan_data
scan_data-Scanned zero i rest payload m e small l z = good payload l (λ j h. z j (omega arith))
scan_data-Scanned (suc n) i rest payload m e small l z = elim (Option-cases (scan_2x rest)) [
  | inl none_read ↦ rw (none_read, scan_data) bad
  | inr (byte, read) ↦
      let inside : ltb i (length payload) ≡ true = ground arith in
      let after = set payload i (u8 byte) in
      let kept : (j : ℕ) → i + 1 ≤ j → get_or after j 0 ≡ 0 =
        λ j h. get_or-set_ne payload (u8 byte) 0 (λ s. absurd (omega arith)) ∙ z j (omega arith) in
      rw (read, inside, scan_data)
        (scan_data-Scanned n (i + 1) (drop 2 rest) after m (omega arith) small
          (length-set payload i (u8 byte) ∙ l) kept)
]

-- What `parse_frame` may give: -1, or a frame as the library takes it.
pub data ParseOutcome : Parsed Frame → Type 0 where
  rejects : ParseOutcome refused
  accepts :
      (f : Frame) → IsWellFormed f → f.flags < 8 → f.timestamp_us ≡ 0 → ParseOutcome (parsed f)

-- a frame of which nothing but the id and the flags is set
record IsBlank (f : Frame) (max : ℕ) : Type 0 where
  no_data : f.payload ≡ replicate 64 0
  flags_in : f.flags < 8
  no_stamp : f.timestamp_us ≡ 0
  bound : max ≡ (if has f.flags frame_fd then 64 else 8)

-- the end of `parse_data`
abbrev with_data : ℕ → Frame → Parsed (List ℕ) → Parsed Frame
with_data n f refused = refused
with_data n f overrun = overrun
with_data n f (parsed payload) = parsed (record f { payload = payload; len = u8 n })

with_data-ParseOutcome :
    (max n : ℕ) (f : Frame) (r : Parsed (List ℕ))
    → IsBlank f max
    → n ≤ max
    → Scanned n r
    → ParseOutcome (with_data n f r)
with_data-ParseOutcome max n f r b le bad = rejects
with_data-ParseOutcome max n f r b le (good payload l z) =
    let most : max ≤ 64 = ground (arith, b.bound) in
    accepts (record f { payload = payload; len = u8 n })
      (record { array = l; at_most = omega (arith, b.bound); zeros = λ j h. z j (omega arith) })
      b.flags_in b.no_stamp

parse_data-ParseOutcome :
    (max : ℕ) (f : Frame) (rest : List ℕ) → IsBlank f max → ParseOutcome (parse_data max f rest)
unfolding parse_data
parse_data-ParseOutcome max f rest b =
    let n = length rest / 2 in
    let most : max ≤ 64 = ground (arith, b.bound) in
    elim (ℕ_discrete (length rest % 2) 0) [
      | no odd ↦ subst ParseOutcome (ground arith) rejects
      | yes even ↦ elim (dec_lt max n) [
        | yes long ↦ subst ParseOutcome (ground arith) rejects
        | no fits ↦
            let blank : (j : ℕ) → 0 ≤ j → get_or f.payload j 0 ≡ 0 =
              λ j h. ap (λ xs. get_or xs j 0) b.no_data ∙ get_or-replicate_default 64 j 0 in
            let scanned =
              scan_data-Scanned n 0 rest f.payload n (omega arith) (omega arith)
                (ap length b.no_data) blank in
            subst ParseOutcome (ground arith) (
              with_data-ParseOutcome max n f (scan_data n 0 rest f.payload) b (omega arith) scanned)
      ]
    ]

id-IsBlank : (id : ℕ) → IsBlank (record zero_frame { can_id = id }) 8
id-IsBlank id = record { no_data = refl; flags_in = omega arith; no_stamp = refl; bound = refl }

fd-IsBlank : (id v : ℕ) → IsBlank (record zero_frame { can_id = id; flags = fd_flags v }) 64
fd-IsBlank id v = from (has v 1) (has v 2)
  where
    from :
        (b e : Bool)
        → IsBlank (record zero_frame { can_id = id; flags = or_if e 4 (or_if b 2 1) }) 64
    from true true = record {
      no_data = refl;
      flags_in = omega arith;
      no_stamp = refl;
      bound = refl;
    }
    from true false = record {
      no_data = refl;
      flags_in = omega arith;
      no_stamp = refl;
      bound = refl;
    }
    from false true = record {
      no_data = refl;
      flags_in = omega arith;
      no_stamp = refl;
      bound = refl;
    }
    from false false = record {
      no_data = refl;
      flags_in = omega arith;
      no_stamp = refl;
      bound = refl;
    }

parse_flexible-ParseOutcome :
    (id : ℕ) (rest : List ℕ)
    → ParseOutcome (parse_flexible (record zero_frame { can_id = id }) rest)
unfolding parse_flexible
parse_flexible-ParseOutcome id [] = rejects
parse_flexible-ParseOutcome id (c ∷ rest) = elim (Option-cases (hex_value c)) [
  | inl e ↦ rw (e, parse_flexible) rejects
  | inr (v, e) ↦
      rw (e, parse_flexible)
        (parse_data-ParseOutcome 64 (record zero_frame { can_id = id; flags = fd_flags v }) rest
          (fd-IsBlank id v))
]

remote_frame : (id : ℕ) → IsWellFormed (record zero_frame { can_id = id; len = 0 })
remote_frame id = record {
  array = refl;
  at_most = omega arith;
  zeros = λ j h. get_or-replicate_default 64 j 0;
}

parse_classic-ParseOutcome :
    (id : ℕ) (rest : List ℕ) → ParseOutcome (parse_classic (record zero_frame { can_id = id }) rest)
unfolding parse_classic
parse_classic-ParseOutcome id rest =
    elim (Bool-cases (get_or rest 0 0 == b'R' || get_or rest 0 0 == b'r')) [
      | inl e ↦ rw e (accepts _ (remote_frame (bit_or id rtr_flag)) (omega arith) refl)
      | inr e ↦
          rw e (parse_data-ParseOutcome 8 (record zero_frame { can_id = id }) rest (id-IsBlank id))
    ]

parse_body-ParseOutcome :
    (id : ℕ) (behind : List ℕ)
    → ParseOutcome (parse_body (record zero_frame { can_id = id }) behind)
unfolding parse_body
parse_body-ParseOutcome id behind = elim (Bool-cases (get_or behind 0 0 == b'#')) [
  | inl e ↦ rw e (parse_flexible-ParseOutcome id (drop 1 behind))
  | inr e ↦ rw e (parse_classic-ParseOutcome id behind)
]

-- On any text `parse_frame` writes nothing outside the array of the frame, and either refuses the
-- text or gives a frame with at most 8 bytes of data, or 64 if it is FD, zeros behind the data, no
-- unknown flag and no timestamp.
pub parse_frame-ParseOutcome : (s : List ℕ) → ParseOutcome (parse_frame s)
unfolding parse_frame
parse_frame-ParseOutcome s = elim (Option-cases (split_hash s)) [
  | inl e ↦ rw (e, parse_frame) rejects
  | inr ((idbuf, behind), e) ↦ elim (Bool-cases (length idbuf == 0 || ltb 8 (length idbuf))) [
    | inl l ↦ rw (e, l, parse_frame) rejects
    | inr l ↦ elim (Option-cases (parse_id idbuf)) [
      | inl n ↦ rw (e, l, n, parse_frame) rejects
      | inr (id, n) ↦ rw (e, l, n, parse_frame) (parse_body-ParseOutcome id behind)
    ]
  ]
]
