-- ===== src/Client/Memory/Text.antt =====
-- strlen, and copies of texts.
use win0_doom.Shared.{
  ℕ, zero, suc, ◌+◌, ◌<◌, ◌≡◌, ◌≢◌, refl, sym, subst, ap, ◌∙◌, some, arith, ◌==◌, false,
}
use win0_doom.Client.Memory.{Bytes, strlen_loop, strlen, memcpy_loop, memcpy}
use win0_doom.Client.Memory.Copy.{CopiesForward, memcpy_loop-in}

-- A text of `length` characters at an address: none of them is the terminator, which follows.
pub record IsText (memory : Bytes) (text length : ℕ) : Type 0 where
  pub characters : (i : ℕ) → i < length → memory (text + i) ≢ 0
  pub terminated : memory (text + length) ≡ 0

strlen_loop-some :
    (memory : Bytes) (text length at rounds : ℕ)
    → IsText memory text (at + length)
    → length < rounds
    → strlen_loop rounds at text memory ≡ some (at + length)
unfolding strlen_loop
strlen_loop-some memory text length at zero t enough = absurd (omega arith)
strlen_loop-some memory text zero at (suc rounds) t enough =
    let same : at + 0 ≡ at = omega arith in
    let ends : memory (text + at) ≡ 0 = ap (λ n. memory (text + n)) (sym same) ∙ t.terminated in
    rw (ends, same) refl
strlen_loop-some memory text (suc length) at (suc rounds) t enough =
    let goes_on : memory (text + at) ≢ 0 = t.characters at (omega arith) in
    let next : at + suc length ≡ at + 1 + length = omega arith in
    let test : (memory (text + at) == 0) ≡ false = ground arith in
    rw (test, next)
      (strlen_loop-some memory text length (at + 1) rounds (subst (IsText memory text) next t)
        (omega arith))

memcpy-IsText :
    (memory : Bytes) (destination text length : ℕ)
    → IsText memory text length
    → CopiesForward destination text (length + 1)
    → IsText (memcpy destination text (length + 1) memory).0 destination length
unfolding memcpy
memcpy-IsText memory destination text length t forward =
    let copied : (i : ℕ)
        → i < length + 1
        → memcpy_loop (length + 1) destination text memory (destination + i) ≡ memory (text + i) =
      λ i h. memcpy_loop-in (length + 1) destination text memory i h forward in
    record {
      characters = λ i h e. t.characters i h (sym (copied i (omega arith)) ∙ e);
      terminated = copied length (omega arith) ∙ t.terminated;
    }

-- For a text of `length` characters and any number of rounds above that, strlen ends and returns
-- the length; and it returns the same for the copy that memcpy makes of the text with its
-- terminator, where the regions are apart or the destination does not start behind the text.
pub strlen-memcpy :
    (memory : Bytes) (destination text length rounds : ℕ)
    → IsText memory text length
    → CopiesForward destination text (length + 1)
    → length < rounds
    → (strlen rounds text memory ≡ some length)
      × (strlen rounds destination (memcpy destination text (length + 1) memory).0 ≡ some length)
unfolding strlen
strlen-memcpy memory destination text length rounds t forward enough =
    let from_start : 0 + length ≡ length = omega arith in
    let found : (m : Bytes) (at : ℕ)
        → IsText m at length
        → strlen_loop rounds 0 at m ≡ some length =
      λ m at h.
        strlen_loop-some m at length 0 rounds (subst (IsText m at) (sym from_start) h) enough
        ∙ ap (λ n. some n) from_start in
    (
      found memory text t,
      found (memcpy destination text (length + 1) memory).0 destination
          (memcpy-IsText memory destination text length t forward),
    )
