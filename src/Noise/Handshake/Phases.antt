-- ===== src/Noise/Handshake/Phases.antt =====
-- The phases that a handshake step can end in.
use bitchat_meshtastic.Prelude.{ℕ, ◌≡◌, refl, if◌then◌else◌, Bool, true, false}
use bitchat_meshtastic.Prelude.{List}
use bitchat_meshtastic.Noise.Crypto.{Crypto}
use bitchat_meshtastic.Noise.Handshake.{
  Phase, await_msg3, transport, failed, Code, wrong_phase, too_short, Handshake, Ret, ok, err, M,
  bind_ret, modify, return, or_fail, mark_failed, read_msg1_body, read_msg1_write_msg2,
  read_msg2_body, read_msg2_write_msg3, read_msg3_body, read_msg3,
}

-- A step is refused with the state untouched, or fails for good, or reaches the phase `p`.
pub data Outcome {A : Type 0} (hs : Handshake) (p : Phase) : Handshake × Ret A → Type 0 where
  refused : Outcome hs p (hs, err wrong_phase)
  broken : (hs' : Handshake) (e : Code) → hs'.phase ≡ failed → Outcome hs p (hs', err e)
  reached : (hs' : Handshake) (a : A) → hs'.phase ≡ p → Outcome hs p (hs', ok a)

-- A run that succeeds is in phase `p`.
data Success {A : Type 0} (p : Phase) : Handshake × Ret A → Type 0 where
  good : (hs : Handshake) (a : A) → hs.phase ≡ p → Success p (hs, ok a)
  bad : (hs : Handshake) (e : Code) → Success p (hs, err e)

abbrev Reaches : {A : Type 0} → Phase → M A → Type 0
Reaches p m = (hs : Handshake) → Success p (m hs)

-- What follows the last change of the phase decides.
bind_ret-Success :
    {A B : Type 0} (p : Phase) (r : Handshake × Ret A) (k : A → M B)
    → ((a : A) → Reaches p (k a))
    → Success p (bind_ret r k)
unfolding bind_ret
bind_ret-Success p (hs, ok a) k h = h a hs
bind_ret-Success p (hs, err e) k h = bad hs e

into_phase :
    {A : Type 0} (p : Phase) (hs : Handshake) (a : A)
    → Success p (bind_ret (modify (λ hs. record hs { phase = p }) hs) (λ _. return a))
unfolding bind_ret
into_phase p hs a = good (record hs { phase = p }) a refl

mark_failed-Outcome :
    {A : Type 0} (hs : Handshake) (p : Phase) {r : Handshake × Ret A}
    → Success p r
    → Outcome hs p (mark_failed r)
mark_failed-Outcome hs p (good hs' a h) = reached hs' a h
mark_failed-Outcome hs p (bad hs' e) = broken (record hs' { phase = failed }) e refl

module _ (c : Crypto) where
  read_msg1_body-Reaches : (msg : List ℕ) → Reaches await_msg3 (read_msg1_body c msg)
  unfolding read_msg1_body
  read_msg1_body-Reaches msg = λ hs. bind_ret-Success _ _ _ λ _ _. bind_ret-Success _ _ _ λ _ _.
      bind_ret-Success _ _ _ λ _ _. bind_ret-Success _ _ _ λ _ _. bind_ret-Success _ _ _ λ _ _.
        bind_ret-Success _ _ _ λ _ _. bind_ret-Success _ _ _ λ _ _.
          bind_ret-Success _ _ _ λ _ _. bind_ret-Success _ _ _ λ _ hs'. into_phase await_msg3 hs' _

  read_msg2_body-Reaches : (msg : List ℕ) → Reaches transport (read_msg2_body c msg)
  unfolding read_msg2_body
  read_msg2_body-Reaches msg = λ hs. bind_ret-Success _ _ _ λ _ _. bind_ret-Success _ _ _ λ _ _.
      bind_ret-Success _ _ _ λ _ _. bind_ret-Success _ _ _ λ _ _. bind_ret-Success _ _ _ λ _ _.
        bind_ret-Success _ _ _ λ _ _. bind_ret-Success _ _ _ λ _ _. bind_ret-Success _ _ _ λ _ _.
          bind_ret-Success _ _ _ λ _ _.
            bind_ret-Success _ _ _ λ _ _. bind_ret-Success _ _ _ λ _ hs'. into_phase transport hs' _

  read_msg3_body-Reaches : (msg : List ℕ) → Reaches transport (read_msg3_body c msg)
  unfolding read_msg3_body
  read_msg3_body-Reaches msg = λ hs. bind_ret-Success _ _ _ λ _ _. bind_ret-Success _ _ _ λ _ _.
      bind_ret-Success _ _ _
        λ _ _. bind_ret-Success _ _ _ λ _ _. bind_ret-Success _ _ _ λ _ _. good _ _ refl

  guarded :
      {A : Type 0} (hs : Handshake) (p : Phase) (blocked short : Bool) (m : M A)
      → Reaches p m
      → Outcome hs p (
          if blocked
          then (hs, err wrong_phase)
          else if short
          then (record hs { phase = failed }, err too_short)
          else or_fail m hs)
  guarded hs p true short m h = refused
  guarded hs p false true m h = broken (record hs { phase = failed }) too_short refl
  guarded hs p false false m h = mark_failed-Outcome hs p (h hs)

  -- Each message that is read ends in one of three ways: refused in the wrong phase or role, with
  -- the state untouched; an error with the phase FAILED; or success with the next phase, which is
  -- AWAIT_MSG3 for the responder's first step, and TRANSPORT for the two last steps.
  reads_end :
      (hs : Handshake) (msg : List ℕ)
      → Outcome hs await_msg3 (read_msg1_write_msg2 c msg hs)
        × Outcome hs transport (read_msg2_write_msg3 c msg hs)
        × Outcome hs transport (read_msg3 c msg hs)
  unfolding read_msg1_write_msg2 read_msg2_write_msg3 read_msg3
  reads_end hs msg = (
    guarded hs await_msg3 _ _ (read_msg1_body c msg) (read_msg1_body-Reaches msg),
    guarded hs transport _ _ (read_msg2_body c msg) (read_msg2_body-Reaches msg),
    guarded hs transport _ _ (read_msg3_body c msg) (read_msg3_body-Reaches msg),
  )
