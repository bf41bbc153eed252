-- ===== src/Client/Memory.antt =====
-- The small runtime of native/win0-doom.c: memset, memcpy and strlen over a memory of bytes,
-- native_malloc and native_free over the calls of the memory manager, and native_gettime.
-- An address is a number; the regions do not go round the end of the address space.
pub mod Copy
pub mod Text
pub mod Clock
use win0_doom.Shared.{
  ℕ, zero, suc, ◌+◌, ◌/◌, ◌%◌, ◌^◌, List, [], ◌∷◌, Option, none, some, Bool, true, false, ◌==◌,
  ◌||◌, if◌then◌else◌,
}
use win0_doom.Shared.Int.{ℤ, pos, pos_part}
use win0_doom.Client.File.{failed, to_int, is_positive}

abbrev pub Bytes : Type 0
Bytes = ℕ → ℕ

abbrev pub store_byte : Bytes → ℕ → ℕ → Bytes
store_byte memory at byte = λ j. if at == j then byte else memory j

-- while (length-- != 0) *bytes++ = (unsigned char)value;
pub memset_loop : (length bytes value : ℕ) → Bytes → Bytes
memset_loop zero bytes value memory = memory
memset_loop (suc length) bytes value memory =
    memset_loop length (bytes + 1) value (store_byte memory bytes (value % 256))

-- The memory afterwards, and the pointer returned.
pub memset : (destination value length : ℕ) → Bytes → Bytes × ℕ
unfolding memset_loop
memset destination value length memory = (memset_loop length destination value memory, destination)

-- while (length-- != 0) *output++ = *input++;
pub memcpy_loop : (length output input : ℕ) → Bytes → Bytes
memcpy_loop zero output input memory = memory
memcpy_loop (suc length) output input memory =
    memcpy_loop length (output + 1) (input + 1) (store_byte memory output (memory input))

pub memcpy : (destination source length : ℕ) → Bytes → Bytes × ℕ
unfolding memcpy_loop
memcpy destination source length memory =
    (memcpy_loop length destination source memory, destination)

-- while (*end != '\0') ++end; with the rounds left. `none` stands for rounds that run out.
pub strlen_loop : (rounds length text : ℕ) → Bytes → Option ℕ
strlen_loop zero length text memory = none
strlen_loop (suc rounds) length text memory =
    let rest = strlen_loop rounds (length + 1) text memory in
    if memory (text + length) == 0 then some length else rest

pub strlen : (rounds text : ℕ) → Bytes → Option ℕ
unfolding strlen_loop
strlen rounds text memory = strlen_loop rounds 0 text memory

-- What NtAllocateVirtualMemory answers.
pub record Allocated : Type 0 where
  pub status : ℕ
  pub base : ℕ

pub data MemoryCall : Type 0 where
  allocate : (size : ℕ) → MemoryCall
  free : (base size : ℕ) → MemoryCall

-- A pointer is `none` where it is null.
pub native_malloc : (ℕ → Allocated) → (requested_size : ℤ) → Option ℕ × List MemoryCall
native_malloc answer requested_size =
    let size = pos_part requested_size in
    let allocated = answer size in
    if is_positive requested_size
    then (
      if failed allocated.status || allocated.base == 0 then none else some allocated.base,
      allocate size ∷ [],
    )
    else (none, [])

pub native_free : Option ℕ → List MemoryCall
native_free none = []
native_free (some base) = free base 0 ∷ []

-- seconds and microseconds
pub native_gettime : (ticks : ℕ) → ℤ × ℤ
native_gettime ticks = (to_int (pos (ticks / 10000000)), to_int (pos (ticks % 10000000 / 10)))
