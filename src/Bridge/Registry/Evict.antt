-- ===== src/Bridge/Registry/Evict.antt =====
-- Which identity is evicted.
use bitchat_meshtastic.Prelude.{
  ◌≤◌, ◌<◌, ◌≡◌, inl, inr, refl, sym, ap, ◌∙◌, arith, ltb, ◌==◌, ==-refl, false, Bool-cases, List,
  [], ◌∷◌, ◌++◌, All, append_assoc, append-nil, All-append,
}
use bitchat_meshtastic.Bridge.Registry.{VirtualIdentity, oldest, erase, evict_lru}

module _ {K : Type 0} where
  -- A vector with one identity at a known place: those before it were seen later, those behind it
  -- no earlier.
  pub record Oldest (vis : List (VirtualIdentity K)) : Type 0 where
    pub front : List (VirtualIdentity K)
    pub lru : VirtualIdentity K
    pub back : List (VirtualIdentity K)
    pub splits : vis ≡ front ++ (lru ∷ back)
    pub later : All (λ v. lru.last_seen_ms < v.last_seen_ms) front
    pub no_earlier : All (λ v. lru.last_seen_ms ≤ v.last_seen_ms) back

  All-map :
      (P Q : VirtualIdentity K → Type 0) (vs : List (VirtualIdentity K))
      → ((v : VirtualIdentity K) → P v → Q v)
      → All P vs
      → All Q vs
  All-map P Q [] f h = tt
  All-map P Q (v ∷ vs) f (hv, hs) = (f v hv, All-map P Q vs f hs)

  oldest_splits :
      (whole front : List (VirtualIdentity K)) (lru : VirtualIdentity K)
      (mid vis : List (VirtualIdentity K))
      → whole ≡ front ++ (lru ∷ (mid ++ vis))
      → All (λ v. lru.last_seen_ms < v.last_seen_ms) front
      → All (λ v. lru.last_seen_ms ≤ v.last_seen_ms) mid
      → (o : Oldest whole) × (o.lru ≡ oldest lru vis)
  unfolding oldest
  oldest_splits whole front lru mid [] e hf hm = (
    record {
      front = front;
      lru = lru;
      back = mid;
      splits = e ∙ ap (λ t. front ++ (lru ∷ t)) (append-nil mid);
      later = hf;
      no_earlier = hm;
    },
    refl,
  )
  oldest_splits whole front lru mid (vi ∷ vis) e hf hm =
      elim (Bool-cases (ltb vi.last_seen_ms lru.last_seen_ms)) [
        | inl p ↦
            let lt : vi.last_seen_ms < lru.last_seen_ms = ground arith in
            rw p (
              oldest_splits whole (front ++ (lru ∷ mid)) vi [] vis
                (e ∙ sym (append_assoc front (lru ∷ mid) (vi ∷ vis)))
                (All-append (λ v. vi.last_seen_ms < v.last_seen_ms) front (lru ∷ mid)
                  (All-map (λ v. lru.last_seen_ms < v.last_seen_ms)
                    (λ v. vi.last_seen_ms < v.last_seen_ms) front (λ v h. omega arith) hf)
                  (
                    lt,
                    All-map (λ v. lru.last_seen_ms ≤ v.last_seen_ms)
                        (λ v. vi.last_seen_ms < v.last_seen_ms) mid (λ v h. omega arith) hm,
                  ))
                tt)
        | inr p ↦
            let le : lru.last_seen_ms ≤ vi.last_seen_ms = ground arith in
            rw p (
              oldest_splits whole front lru (mid ++ (vi ∷ [])) vis
                (e ∙ ap (λ t. front ++ (lru ∷ t)) (sym (append_assoc mid (vi ∷ []) vis))) hf
                (All-append (λ v. lru.last_seen_ms ≤ v.last_seen_ms) mid (vi ∷ []) hm (le, tt)))
      ]

  erase-at :
      (f : List (VirtualIdentity K)) (o : VirtualIdentity K) (b : List (VirtualIdentity K))
      → All (λ v. o.last_seen_ms < v.last_seen_ms) f
      → erase o.last_seen_ms (f ++ (o ∷ b)) ≡ f ++ b
  unfolding erase
  erase-at [] o b h = rw (==-refl o.last_seen_ms) refl
  erase-at (v ∷ f) o b (hv, h) =
      let ne : (v.last_seen_ms == o.last_seen_ms) ≡ false = ground arith in
      rw (ne, erase-at f o b h) refl

  pub evict_lru-Oldest :
      (vi : VirtualIdentity K) (vis : List (VirtualIdentity K))
      → (o : Oldest (vi ∷ vis)) × (evict_lru (vi ∷ vis) ≡ (o.front ++ o.back, o.lru ∷ []))
  unfolding evict_lru
  evict_lru-Oldest vi vis =
      let (o, e) = oldest_splits (vi ∷ vis) [] vi [] vis refl tt tt in
      (
        o,
        ap (λ l. (erase l.last_seen_ms (vi ∷ vis), l ∷ [])) (sym e)
            ∙ ap (λ t. (t, o.lru ∷ []))
                (ap (erase o.lru.last_seen_ms) o.splits ∙ erase-at o.front o.lru o.back o.later),
      )
