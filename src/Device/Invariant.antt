-- ===== src/Device/Invariant.antt =====
-- The well-formedness of an open device that every operation keeps.
use gs_usb_user.Base.{
  ℕ, ◌<◌, ◌≤◌, ◌≡◌, ◌≢◌, sym, ◌∙◌, some, List, arith, length, length-set, get_elem?,
  get_elem?-set_self, get_elem?-set_ne, set, lt-of-get_elem?, ℕ_discrete, ◌⊎◌, inl, inr,
}
use gs_usb_user.Rxq.Invariant.{IsValid as IsQueue}
use gs_usb_user.Device.{Channel, Dev, put_channel}

pub record IsValid (dev : Dev) : Type 0 where
  pub counted : dev.channel_count ≡ length dev.channels
  pub bounded : dev.channel_count ≤ 256
  pub indexed : (k : ℕ) (ch : Channel) → get_elem? dev.channels k ≡ some ch → ch.index ≡ k
  pub queued : (k : ℕ) (ch : Channel) → get_elem? dev.channels k ≡ some ch → IsQueue ch.queue

-- Reading after a write to an array: the new value at its place, the old one elsewhere.
pub get_elem?-set {ℓ} :
    {A : Type ℓ} (xs : List A) (k j : ℕ) (a : A) {b : A}
    → get_elem? (set xs k a) j ≡ some b
    → ((j ≡ k) × (b ≡ a)) ⊎ ((j ≢ k) × (get_elem? xs j ≡ some b))
get_elem?-set xs k j a {b} e = elim (ℕ_discrete j k) [
  | yes same ↦
      let inside : k < length xs =
        omega (arith, same, lt-of-get_elem? (set xs k a) j e, length-set xs k a) in
      inl (same, cc (get_elem?-set_self xs k a inside))
  | no ne ↦ inr (ne, sym (get_elem?-set_ne xs k j a λ s. ne (sym s)) ∙ e)
]

-- A channel may be replaced by one with the same index and a valid queue.
pub put_channel-IsValid :
    (dev : Dev) (k : ℕ) (ch : Channel)
    → IsValid dev
    → ch.index ≡ k
    → IsQueue ch.queue
    → IsValid (put_channel dev k ch)
put_channel-IsValid dev k ch v i q = record {
  counted = v.counted ∙ sym (length-set dev.channels k ch);
  bounded = v.bounded;
  indexed = λ j c e. elim (get_elem?-set dev.channels k j ch e) [
    | inl (s, t) ↦ ground arith
    | inr (ne, old) ↦ v.indexed j c old
  ];
  queued = λ j c e. elim (get_elem?-set dev.channels k j ch e) [
    | inl (s, t) ↦ rw t q
    | inr (ne, old) ↦ v.queued j c old
  ];
}
