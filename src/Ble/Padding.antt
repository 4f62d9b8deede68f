-- ===== src/Ble/Padding.antt =====
-- `_pad_packet` and `unpad_packet` of src/bitchat/bitchat_ble.cpp.
use bitchat_meshtastic.Prelude.{
  ℕ, zero, suc, ◌+◌, ◌-◌, ◌%◌, ◌≤◌, ◌<◌, ◌≡◌, refl, ap, ◌∙◌, arith, ltb, leb, ◌==◌, ==-refl,
  if◌then◌else◌, Bool, true, false, ◌||◌, ◌&&◌, Bool-cases, inl, inr, List, [], ◌∷◌, ◌++◌, length,
  take, drop, get_or, replicate, length-append, length-replicate,
}

-- The size that a packet is padded to.
unfoldable pub pad_target : ℕ → ℕ → ℕ
pad_target data_len buf_size =
    let target =
      (if leb data_len 256
        then 256
        else if leb data_len 512
        then 512
        else if leb data_len 1024
        then 1024
        else 2048) in
    if ltb buf_size target then buf_size else target

-- The value of the padding is cast to uint8_t.
unfoldable pub pad_packet : List ℕ → ℕ → List ℕ
unfolding pad_target
pad_packet packet buf_size =
    let target = pad_target (length packet) buf_size in
    let pad_len = target - length packet in
    if leb target (length packet) then packet else packet ++ replicate pad_len (pad_len % 256)

abbrev pub all_equal : ℕ → List ℕ → Bool
all_equal v [] = true
all_equal v (b ∷ bs) = (b == v) && all_equal v bs

unfoldable pub unpad_packet : List ℕ → List ℕ
unpad_packet buf =
    let len = length buf in
    let pv = get_or buf (len - 1) 0 in
    if (pv == 0) || ltb len pv
    then buf
    else if all_equal pv (drop (len - pv) buf)
    then take (len - pv) buf
    else buf

drop-replicate : (n k m v : ℕ) → n ≡ k + m → drop k (replicate n v) ≡ replicate m v
drop-replicate n zero m v h = ap (λ j. replicate j v) (omega (arith, h))
drop-replicate zero (suc k) m v h = absurd (omega (arith, h))
drop-replicate (suc n) (suc k) m v h = drop-replicate n k m v (omega (arith, h))

take-replicate : (n k v : ℕ) → k ≤ n → take k (replicate n v) ≡ replicate k v
take-replicate n zero v h = refl
take-replicate zero (suc k) v h = absurd (omega arith)
take-replicate (suc n) (suc k) v h = ap (λ t. v ∷ t) (take-replicate n k v (omega arith))

drop_past : (xs ys : List ℕ) (k n : ℕ) → n ≡ length xs + k → drop n (xs ++ ys) ≡ drop k ys
drop_past [] ys k n h = ap (λ m. drop m ys) (omega (arith, h))
drop_past (x ∷ xs) ys k zero h = absurd (omega (arith, h))
drop_past (x ∷ xs) ys k (suc n) h = drop_past xs ys k n (omega (arith, h))

take_past : (xs ys : List ℕ) (k n : ℕ) → n ≡ length xs + k → take n (xs ++ ys) ≡ xs ++ take k ys
take_past [] ys k n h = ap (λ m. take m ys) (omega (arith, h))
take_past (x ∷ xs) ys k zero h = absurd (omega (arith, h))
take_past (x ∷ xs) ys k (suc n) h = ap (λ t. x ∷ t) (take_past xs ys k n (omega (arith, h)))

get_past :
    (xs : List ℕ) (n k v : ℕ)
    → length xs ≤ k
    → k < length xs + n
    → get_or (xs ++ replicate n v) k 0 ≡ v
get_past [] zero k v h l = absurd (omega arith)
get_past [] (suc n) zero v h l = refl
get_past [] (suc n) (suc k) v h l = get_past [] n k v (omega arith) (omega arith)
get_past (x ∷ xs) n zero v h l = absurd (omega arith)
get_past (x ∷ xs) n (suc k) v h l = get_past xs n k v (omega arith) (omega arith)

all_equal-replicate : (n v : ℕ) → all_equal v (replicate n v) ≡ true
all_equal-replicate zero v = refl
all_equal-replicate (suc n) v = rw (==-refl v) (all_equal-replicate n v)

pub unpad_tail :
    (packet : List ℕ) (n : ℕ)
    → 0 < n
    → unpad_packet (packet ++ replicate n (n % 256)) ≡ packet ++ replicate (n - n % 256) (n % 256)
unfolding unpad_packet
unpad_tail packet n h =
    let v : ℕ = n % 256 in
    let len : length (packet ++ replicate n v) ≡ length packet + n =
      omega (arith, length-append packet (replicate n v), length-replicate n v) in
    let last : get_or (packet ++ replicate n v) (length (packet ++ replicate n v) - 1) 0 ≡ v =
      get_past packet n (length (packet ++ replicate n v) - 1) v (omega (arith, len))
        (omega (arith, len)) in
    let tail : drop (length (packet ++ replicate n v) - v) (packet ++ replicate n v)
        ≡ replicate v v =
      drop_past packet (replicate n v) (n - v) (length (packet ++ replicate n v) - v)
        (omega (arith, len))
      ∙ drop-replicate n (n - v) v v (omega arith) in
    let front : take (length (packet ++ replicate n v) - v) (packet ++ replicate n v)
        ≡ packet ++ replicate (n - v) v =
      take_past packet (replicate n v) (n - v) (length (packet ++ replicate n v) - v)
        (omega (arith, len))
      ∙ ap (λ t. packet ++ t) (take-replicate n (n - v) v (omega arith)) in
    let fits : ltb (length (packet ++ replicate n v)) v ≡ false = ground (arith, len) in
    elim (Bool-cases (v == 0)) [
      | inl z ↦ rw (last, z) (ap (λ k. packet ++ replicate k v) (zero_pad n z))
      | inr z ↦ rw (last, z, fits, tail, all_equal-replicate v v) front
    ]
  where
    zero_pad : (n : ℕ) → (n % 256 == 0) ≡ true → n ≡ n - n % 256
    zero_pad n z = ground arith

-- Unpadding a packet that was padded gives the packet back, with the bytes of padding left by which
-- the padding is longer than its value, the lowest byte of its length: none for up to 255 bytes.
pub unpad_packet-pad_packet :
    (packet : List ℕ) (buf_size : ℕ)
    → length packet < pad_target (length packet) buf_size
    → let pad_len = pad_target (length packet) buf_size - length packet in
      unpad_packet (pad_packet packet buf_size)
      ≡ packet ++ replicate (pad_len - pad_len % 256) (pad_len % 256)
unfolding pad_packet
unpad_packet-pad_packet packet buf_size h =
    let room : leb (pad_target (length packet) buf_size) (length packet) ≡ false = ground arith in
    rw room (unpad_tail packet (pad_target (length packet) buf_size - length packet) (omega arith))
