-- ===== src/Lua/Handles/Table.antt =====
-- The userdata of one type own the objects that they point to.
use gs_usb_user.Base.{
  ℕ, ◌≡◌, ◌≢◌, sym, ◌∙◌, ap, true, false, Option, none, some, [], ◌∷◌, arith, length, get_elem?,
  set, get_elem?-set_self, get_elem?-set_ne, get_elem?-append_left, get_elem?-snoc,
  get_elem?-snoc_last, lt-of-get_elem?, ℕ_discrete, ◌⊎◌, inl, inr,
}
use gs_usb_user.Lua.Handles.{Handles, new_userdata, freed, is_live}

-- A pointer that is not NULL is to an object that is still there, and no other userdata has it.
pub record IsOwned (h : Handles) : Type 0 where
  pub there : (r o : ℕ) → get_elem? h.userdata r ≡ some (some o) → get_elem? h.live o ≡ some true
  pub single :
      (r s o : ℕ)
      → get_elem? h.userdata r ≡ some (some o)
      → get_elem? h.userdata s ≡ some (some o)
      → r ≡ s

pub is_live-owned :
    (h : Handles) (r o : ℕ)
    → IsOwned h
    → get_elem? h.userdata r ≡ some (some o)
    → is_live h o ≡ true
is_live-owned h r o v e = ground (arith, v.there r o e)

-- What a userdata points to was there before, or is the new object.
new_userdata-pointer :
    (h : Handles) (r o : ℕ)
    → get_elem? (new_userdata h).userdata r ≡ some (some o)
    → (get_elem? h.userdata r ≡ some (some o)) ⊎ ((r ≡ length h.userdata) × (o ≡ length h.live))
new_userdata-pointer h r o e = elim (get_elem?-snoc h.userdata (some (length h.live)) r e) [
  | inl old ↦ inl old
  | inr (at, new) ↦ inr (at, cc)
]

pub new_userdata-IsOwned : (h : Handles) → IsOwned h → IsOwned (new_userdata h)
new_userdata-IsOwned h v = record {
  there = λ r o e. elim (new_userdata-pointer h r o e) [
    | inl old ↦
        get_elem?-append_left h.live (true ∷ []) o (lt-of-get_elem? h.live o (v.there r o old))
        ∙ v.there r o old
    | inr (at, new) ↦ rw new (get_elem?-snoc_last h.live true)
  ];
  single = λ r s o e f. elim (new_userdata-pointer h r o e) [
    | inl old ↦ elim (new_userdata-pointer h s o f) [
      | inl old' ↦ v.single r s o old old'
      | inr (at', new') ↦ absurd (omega (arith, lt-of-get_elem? h.live o (v.there r o old)))
    ]
    | inr (at, new) ↦ elim (new_userdata-pointer h s o f) [
      | inl old' ↦ absurd (omega (arith, lt-of-get_elem? h.live o (v.there s o old')))
      | inr (at', new') ↦ at ∙ sym at'
    ]
  ];
}

-- A pointer that is left after `r` was set to NULL is at another userdata.
freed-pointer :
    (h : Handles) (r o s p : ℕ)
    → get_elem? h.userdata r ≡ some (some o)
    → get_elem? (freed h r o).userdata s ≡ some (some p)
    → (r ≢ s) × (get_elem? h.userdata s ≡ some (some p))
freed-pointer h r o s p e f = elim (ℕ_discrete r s) [
  | yes same ↦
      let gone = get_elem?-set_self h.userdata r none (lt-of-get_elem? h.userdata r e) in
      let f' : get_elem? (set h.userdata r none) r ≡ some (some p) =
        ap (get_elem? (set h.userdata r none)) same ∙ f in
      absurd (none_is_some (sym gone ∙ f'))
  | no other ↦ (other, sym (get_elem?-set_ne h.userdata r s none other) ∙ f)
]
  where
    none_is_some : {q : ℕ} → some (Option.none) ≡ some (some q) → ⊥
    none_is_some e = cc

pub freed-IsOwned :
    (h : Handles) (r o : ℕ)
    → IsOwned h
    → get_elem? h.userdata r ≡ some (some o)
    → IsOwned (freed h r o)
freed-IsOwned h r o v e = record {
  there = λ s p f.
      let (other, old) = freed-pointer h r o s p e f in
      let apart : o ≢ p = λ same. other (v.single r s o e (rw same old)) in
      get_elem?-set_ne h.live o p false apart ∙ v.there s p old;
  single =
      λ s t p f g. v.single s t p (freed-pointer h r o s p e f).1 (freed-pointer h r o t p e g).1;
}
