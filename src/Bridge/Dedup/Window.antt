-- ===== src/Bridge/Dedup/Window.antt =====
-- How long the ring remembers a hash, and what it reports.
use bitchat_meshtastic.Prelude.{
  ℕ, zero, suc, ◌+◌, ◌%◌, ◌<◌, ◌≡◌, ◌≢◌, ◌⊎◌, inl, inr, refl, arith, ==-refl, Bool, true, false,
  Bool-cases, List, [], ◌∷◌, length, replicate, get_or, set, sub32, length-set, get_or-set_self,
  get_or-set_ne,
}
use bitchat_meshtastic.Bridge.Dedup.{
  DedupEntry, Dedup, zero_entry, empty_dedup, is_recent, any_recent, is_duplicate, record_hash,
  record_all,
}

-- The ring has its 64 entries, and the index is one of them.
abbrev pub IsRing : Dedup → Type 0
IsRing d = (length d.entries ≡ 64) × (d.idx < 64)

pub record_hash-IsRing : (now hash : ℕ) (d : Dedup) → IsRing d → IsRing (record_hash now hash d)
unfolding record_hash
record_hash-IsRing now hash d h =
    omega (arith, length-set d.entries d.idx (record { hash = hash; timestamp_ms = now }))

any_recent-get_or :
    (now hash : ℕ) (es : List DedupEntry) (i : ℕ)
    → i < length es
    → is_recent now hash (get_or es i zero_entry) ≡ true
    → any_recent now hash es ≡ true
unfolding any_recent
any_recent-get_or now hash [] i hi h = absurd (omega arith)
any_recent-get_or now hash (e ∷ es) zero hi h = rw h refl
any_recent-get_or now hash (e ∷ es) (suc i) hi h = elim (Bool-cases (is_recent now hash e)) [
  | inl p ↦ rw p refl
  | inr p ↦ rw p (any_recent-get_or now hash es i (omega arith) h)
]

-- An entry that is fewer than 64 records behind the index stays.
kept :
    (later : List (ℕ × ℕ)) (d : Dedup) (i : ℕ)
    → IsRing d
    → i < 64
    → ((k : ℕ) → k < length later → (d.idx + k) % 64 ≢ i)
    → (get_or (record_all later d).entries i zero_entry ≡ get_or d.entries i zero_entry)
      × (length (record_all later d).entries ≡ 64)
kept [] d i r hi h = (refl, r.0)
kept ((now, hash) ∷ later) d i r hi h =
    let r' = record_hash-IsRing now hash d r in
    let (same, len) = kept later (record_hash now hash d) i r' hi (λ k hk. shifted k hk) in
    (rw same one, len)
  where
    one : get_or (record_hash now hash d).entries i zero_entry ≡ get_or d.entries i zero_entry
    one =
        unfold record_hash in
        get_or-set_ne d.entries d.idx i (record { hash = hash; timestamp_ms = now }) zero_entry
          (λ e. h 0 (omega arith) (omega (arith, e, r.1)))

    shifted : (k : ℕ) → k < length later → ((record_hash now hash d).idx + k) % 64 ≢ i
    shifted k hk = unfold record_hash in λ e. h (suc k) (omega arith) (omega (arith, e))

-- In a well-formed ring, a hash that is recorded is reported for 60 seconds, as long as at most 63 other hashes are
-- recorded after it.
pub is_duplicate-record_all :
    (d : Dedup) (sent now hash : ℕ) (later : List (ℕ × ℕ))
    → IsRing d
    → length later < 64
    → sub32 now sent < 60000
    → is_duplicate now hash (record_all ((sent, hash) ∷ later) d) ≡ true
unfolding is_duplicate
is_duplicate-record_all d sent now hash later r hl ht =
    let (same, len) =
      kept later (record_hash sent hash d) d.idx (record_hash-IsRing sent hash d r) r.1 away in
    any_recent-get_or now hash (record_all later (record_hash sent hash d)).entries d.idx
      (omega (arith, len, r.1)) (rw (same, stored) (ground (arith, ==-refl hash)))
  where
    away : (k : ℕ) → k < length later → ((record_hash sent hash d).idx + k) % 64 ≢ d.idx
    away k hk = unfold record_hash in λ e. absurd (omega (arith, e, r.1))

    stored :
        get_or (record_hash sent hash d).entries d.idx zero_entry
        ≡ record { hash = hash; timestamp_ms = sent }
    stored =
        unfold record_hash in
        get_or-set_self d.entries d.idx (record { hash = hash; timestamp_ms = sent }) zero_entry
          (omega (arith, r.0, r.1))

-- The hash is among those recorded, at a time not too long ago.
abbrev pub Seen : ℕ → ℕ → List (ℕ × ℕ) → Type 0
Seen now hash [] = ⊥
Seen now hash ((sent, h) ∷ rest) = ((h ≡ hash) × (sub32 now sent < 60000)) ⊎ Seen now hash rest

any_recent-set :
    (now hash : ℕ) (es : List DedupEntry) (i : ℕ) (e : DedupEntry)
    → any_recent now hash (set es i e) ≡ true
    → (is_recent now hash e ≡ true) ⊎ (any_recent now hash es ≡ true)
unfolding any_recent
any_recent-set now hash [] i e h = inr h
any_recent-set now hash (x ∷ es) zero e h = elim (Bool-cases (is_recent now hash e)) [
  | inl p ↦ inl p
  | inr p ↦ elim (Bool-cases (is_recent now hash x)) [
    | inl q ↦ inr (rw q refl)
    | inr q ↦ inr (rw q (rw p at h))
  ]
]
any_recent-set now hash (x ∷ es) (suc i) e h = elim (Bool-cases (is_recent now hash x)) [
  | inl q ↦ inr (rw q refl)
  | inr q ↦ rw q (any_recent-set now hash es i e (rw q at h))
]

Seen-or_old :
    (now hash : ℕ) (history : List (ℕ × ℕ)) (d : Dedup)
    → any_recent now hash (record_all history d).entries ≡ true
    → Seen now hash history ⊎ (any_recent now hash d.entries ≡ true)
Seen-or_old now hash [] d h = inr h
Seen-or_old now hash ((sent, x) ∷ history) d h =
    elim (Seen-or_old now hash history (record_hash sent x d) h) [
      | inl s ↦ inl (inr s)
      | inr old ↦
          elim (any_recent-set now hash d.entries d.idx (record { hash = x; timestamp_ms = sent })
            (unfold record_hash in old)) [
              | inl new ↦ inl (inl (recent now hash x sent new))
              | inr older ↦ inr older
            ]
    ]
  where
    recent :
        (now hash x sent : ℕ)
        → is_recent now hash (record { hash = x; timestamp_ms = sent }) ≡ true
        → (x ≡ hash) × (sub32 now sent < 60000)
    recent now hash x sent h = ground arith

zeros_not_recent :
    (now hash n : ℕ) → hash ≢ 0 → any_recent now hash (replicate n zero_entry) ≡ false
unfolding any_recent
zeros_not_recent now hash zero h = refl
zeros_not_recent now hash (suc n) h = ground (arith, zeros_not_recent now hash n h)

-- From the empty ring on, a hash other than 0 is reported only if it was recorded less than 60
-- seconds before.
pub is_duplicate-Seen :
    (now hash : ℕ) (history : List (ℕ × ℕ))
    → hash ≢ 0
    → is_duplicate now hash (record_all history empty_dedup) ≡ true
    → Seen now hash history
unfolding is_duplicate
is_duplicate-Seen now hash history hz h = elim (Seen-or_old now hash history empty_dedup h) [
  | inl s ↦ s
  | inr old ↦ absurd (true_ne_false (zeros_not_recent now hash 64 hz) old)
]
  where
    true_ne_false : {b : Bool} → b ≡ false → b ≡ true → ⊥
    true_ne_false p q = cc
