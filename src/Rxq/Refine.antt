-- ===== src/Rxq/Refine.antt =====
-- A valid queue behaves as the list of the frames it holds, oldest first.
use mathlib.Core.List.{append-nil, append_assoc}
use native.Mathlib.Nat.{div-add-mod, mod-add-mod, mod-eq_of_lt, mod-mod}
use gs_usb_user.Base.{
  ℕ, zero, suc, ◌+◌, ◌-◌, ◌%◌, ◌^◌, ◌≤◌, ◌<◌, ◌≡◌, ◌≢◌, refl, ap, ap₂, sym, ◌∙◌, some, List, [],
  ◌∷◌, ◌++◌, arith, u32, u64, length-append, length, set, get_or, get_or-set_self, get_or-set_ne,
  drop, drop-drop, drop-append, length-drop, ℕ_discrete,
}
use gs_usb_user.Frame.{Frame, zero_frame}
use gs_usb_user.Rxq.{Rxq, make_room, tail, push, pop}
use gs_usb_user.Rxq.Invariant.{
  IsValid, make_room-IsValid, push-IsValid, push_counts, popped, pop-eq, popped-IsValid,
}

-- Numbers less than `cap` apart have different remainders.
mod_apart : (cap a b : ℕ) → a < b → b < a + cap → a % cap ≢ b % cap
mod_apart cap a b p q e = grind (arith, div-add-mod a cap, div-add-mod b cap)

-- The `n` frames from index `i` on; indices go on past the end and are taken modulo `cap`.
abbrev pub live : List Frame → ℕ → ℕ → ℕ → List Frame
live buf cap i zero = []
live buf cap i (suc n) = get_or buf (i % cap) zero_frame ∷ live buf cap (i + 1) n

abbrev pub contents : Rxq → List Frame
contents q = live q.buf q.cap q.head q.len

length-live : (buf : List Frame) (cap i n : ℕ) → length (live buf cap i n) ≡ n
length-live buf cap i zero = refl
length-live buf cap i (suc n) = ap suc (length-live buf cap (i + 1) n)

pub length-contents : (q : Rxq) → length (contents q) ≡ q.len
length-contents q = length-live q.buf q.cap q.head q.len

-- Only the remainder of the start counts.
live-mod :
    (buf : List Frame) (cap i j n : ℕ) → i % cap ≡ j % cap → live buf cap i n ≡ live buf cap j n
live-mod buf cap i j zero e = refl
live-mod buf cap i j (suc n) e =
    ap₂ (λ k (r : List Frame). get_or buf k zero_frame ∷ r) e
      (live-mod buf cap (i + 1) (j + 1) n
        (sym (mod-add-mod i cap 1) ∙ ap (λ (t : ℕ). (t + 1) % cap) e ∙ mod-add-mod j cap 1))

-- A write past the frames, less than a turn from their start, leaves them alone.
live-set :
    (buf : List Frame) (cap : ℕ) (f : Frame) (i n w : ℕ)
    → i + n ≤ w
    → w < i + cap
    → live (set buf (w % cap) f) cap i n ≡ live buf cap i n
live-set buf cap f i zero w h k = refl
live-set buf cap f i (suc n) w h k =
    ap₂ ◌∷◌
      (get_or-set_ne buf f zero_frame λ e. mod_apart cap i w (omega arith) (omega arith) (sym e))
      (live-set buf cap f (i + 1) n w (omega arith) (omega arith))

live_last :
    (buf : List Frame) (cap i n : ℕ)
    → live buf cap i (suc n) ≡ live buf cap i n ++ (get_or buf ((i + n) % cap) zero_frame ∷ [])
live_last buf cap i zero = ap (λ (t : ℕ). get_or buf (t % cap) zero_frame ∷ []) (omega arith)
live_last buf cap i (suc n) =
    ap (λ r. get_or buf (i % cap) zero_frame ∷ r)
      (live_last buf cap (i + 1) n
        ∙ ap (λ (t : ℕ). live buf cap (i + 1) n ++ (get_or buf (t % cap) zero_frame ∷ []))
            (omega arith))

-- The last `n` frames of a list.
abbrev pub newest : ℕ → List Frame → List Frame
newest n xs = drop (length xs - n) xs

turn : (cap h : ℕ) → h < cap → cap ≤ 2 ^ 31 → (h + 1) % cap ≡ u32 (h + 1) % cap % cap
turn cap h hh hc =
    let e : h + 1 ≡ u32 (h + 1) = omega arith in
    ap (λ (t : ℕ). t % cap) e ∙ sym (mod-mod (u32 (h + 1)) cap)

-- The first frame, and the rest from the next index as the code computes it.
live-next :
    (buf : List Frame) (cap h n : ℕ)
    → h < cap
    → cap ≤ 2 ^ 31
    → n ≢ 0
    → live buf cap h n ≡ get_or buf h zero_frame ∷ live buf cap (u32 (h + 1) % cap) (n - 1)
live-next buf cap h zero hh hc ne = absurd (ne refl)
live-next buf cap h (suc n) hh hc ne =
    ap₂ (λ (k : ℕ) (r : List Frame). get_or buf k zero_frame ∷ r) (mod-eq_of_lt hh)
      (live-mod buf cap (h + 1) (u32 (h + 1) % cap) n (turn cap h hh hc)
        ∙ ap (λ (t : ℕ). live buf cap (u32 (h + 1) % cap) t) (omega arith))

-- Making room loses the oldest frame of a full queue, and nothing of another.
contents-make_room :
    {q : Rxq} → IsValid q → contents (make_room q) ≡ drop (q.len + 1 - q.cap) (contents q)
unfolding make_room
contents-make_room {q} v = elim (ℕ_discrete q.len q.cap) [
  | yes e ↦
      let k : q.len + 1 - q.cap ≡ 1 = omega arith in
      rw k (ground (arith, live-next q.buf q.cap q.head q.len))
  | no ne ↦ let k : q.len + 1 - q.cap ≡ 0 = omega arith in rw k (ground arith)
]

contents-push_room :
    (f : Frame) {q : Rxq} → IsValid q → contents (push q f) ≡ contents (make_room q) ++ (f ∷ [])
unfolding push
contents-push_room f {q} v =
    let r = make_room q in
    let w = make_room-IsValid v in
    ground (
      arith,
      w,
      live_last (set r.buf (tail r) f) r.cap r.head r.len,
      live-set r.buf r.cap f r.head r.len (r.head + r.len),
      get_or-set_self r.buf (tail r) f zero_frame,
    )

-- A push puts the frame behind those held and keeps the newest `cap` of them.
contents-push :
    (f : Frame) {q : Rxq} → IsValid q → contents (push q f) ≡ newest q.cap (contents q ++ (f ∷ []))
contents-push f {q} v =
    let l = length-contents q in
    let e : length (contents q ++ (f ∷ [])) - q.cap ≡ q.len + 1 - q.cap =
      omega (arith, l, length-append {0} (contents q) (f ∷ [])) in
    contents-push_room f v
    ∙ ap (λ r. r ++ (f ∷ [])) (contents-make_room v)
    ∙ sym (drop-append (q.len + 1 - q.cap) (contents q) (f ∷ []) (omega arith))
    ∙ ap (λ (t : ℕ). drop t (contents q ++ (f ∷ []))) (sym e)

newest-append : (n : ℕ) (xs ys : List Frame) → newest n (newest n xs ++ ys) ≡ newest n (xs ++ ys)
newest-append n xs ys =
    let b = length xs - n in
    let l = length-append {0} xs ys in
    let e : drop b xs ++ ys ≡ drop b (xs ++ ys) = sym (drop-append b xs ys (omega arith)) in
    let k : b + (length (drop b (xs ++ ys)) - n) ≡ length (xs ++ ys) - n =
      omega (arith, l, length-drop {0} b (xs ++ ys)) in
    ap (newest n) e
    ∙ drop-drop (length (drop b (xs ++ ys)) - n) b (xs ++ ys)
    ∙ ap (λ (t : ℕ). drop t (xs ++ ys)) k

-- Frames pushed one after another.
abbrev pub push_all : Rxq → List Frame → Rxq
push_all q [] = q
push_all q (f ∷ fs) = push_all (push q f) fs

-- After any number of pushes a valid queue is valid and holds the newest `cap` frames, oldest first;
-- the drop counter has grown, modulo 2^64, by the number of frames lost.
pub push_all_lem :
    (fs : List Frame) {q : Rxq}
    → IsValid q
    → IsValid (push_all q fs)
      × (contents (push_all q fs) ≡ newest q.cap (contents q ++ fs))
      × ((push_all q fs).drops ≡ u64 (q.drops + (q.len + length fs - q.cap)))
push_all_lem [] {q} v =
    let e : 0 ≡ length (contents q) - q.cap = omega (arith, length-contents q) in
    (v, rw append-nil (ap (λ (t : ℕ). drop t (contents q)) e), omega arith)
push_all_lem (f ∷ fs) {q} v =
    let (w, c, d) = push_all_lem fs (push-IsValid f v) in
    let counts = push_counts f v in
    let held =
      c
      ∙ ap (λ (k : ℕ). newest k (contents (push q f) ++ fs)) counts.0
      ∙ ap (λ r. newest q.cap (r ++ fs)) (contents-push f v)
      ∙ newest-append q.cap (contents q ++ (f ∷ [])) fs
      ∙ ap (newest q.cap) (append_assoc (contents q) (f ∷ []) fs) in
    (w, held, omega (arith, d, counts))

-- A pop from a nonempty valid queue never reads out of bounds, and gives the oldest frame and a valid
-- queue of the others.
pub contents-pop :
    {q : Rxq}
    → IsValid q
    → q.len ≢ 0
    → (f : Frame) × (r : Rxq) × (pop q ≡ some (f, r)) × IsValid r × (contents q ≡ f ∷ contents r)
contents-pop {q} v ne = (
  get_or q.buf q.head zero_frame,
  popped q,
  pop-eq v,
  popped-IsValid v,
  live-next q.buf q.cap q.head q.len v.head_in v.small ne,
)
