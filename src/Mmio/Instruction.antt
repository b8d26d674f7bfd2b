-- ===== src/Mmio/Instruction.antt =====
-- The instruction that a handler decodes is the one that the guest is at.
use bedrock.Base.{
  ℕ, zero, suc, ◌+◌, ◌/◌, ◌%◌, ◌<◌, ◌≤◌, ◌≡◌, refl, sym, ap, ◌∙◌, true, Option, some, List, [], ◌∷◌,
  length, take, get_or, arith,
}
use bedrock.Base.Result.{ok}
use bedrock.Decoder.{DecodedInstruction, decode_instruction}
use bedrock.Decoder.Bounds.{decode_instruction-bounds, decode_instruction-local}
use bedrock.GuestPaging.{◌>>=◌, translate_gva_to_gpa}
use bedrock.GuestPaging.Pages.{moved, moved_to, translate_gva_to_gpa-moved}
use bedrock.Mmio.{MmioState, fetched, read_entry, decode_fetched, fetch_at, fetch}

take_ext :
    (n : ℕ) (xs ys : List ℕ)
    → n ≤ length xs
    → n ≤ length ys
    → ((i : ℕ) → i < n → get_or xs i 0 ≡ get_or ys i 0)
    → take n xs ≡ take n ys
take_ext zero xs ys h k e = refl
take_ext (suc n) [] ys h k e = absurd (omega arith)
take_ext (suc n) (x ∷ xs) [] h k e = absurd (omega arith)
take_ext (suc n) (x ∷ xs) (y ∷ ys) h k e =
    let first : x ≡ y = e 0 (omega arith) in
    rw first (
      ap (λ l. y ∷ l)
        (take_ext n xs ys (omega (arith, h)) (omega (arith, k))
          (λ i l. e (suc i) (omega (arith, l)))))

-- A memory of bytes: what is read of it is as long as asked, and its bytes in order.
pub record IsMemory (read_guest_memory : ℕ → ℕ → Option (List ℕ)) (byte : ℕ → Option ℕ)
    : Type 0 where
  pub sized : (p n : ℕ) (bytes : List ℕ) → read_guest_memory p n ≡ some bytes → length bytes ≡ n
  pub in_order :
      (p n : ℕ) (bytes : List ℕ)
      → read_guest_memory p n ≡ some bytes
      → (i : ℕ) → i < n
      → byte (p + i) ≡ some (get_or bytes i 0)

module _ (read_guest_memory : ℕ → ℕ → Option (List ℕ)) (byte : ℕ → Option ℕ) where
  -- The byte at a virtual address of the guest.
  abbrev pub guest_byte : MmioState → ℕ → Option ℕ
  guest_byte s a = translate_gva_to_gpa s.guest_cr3 (read_entry read_guest_memory) a >>= byte

  -- The guest is at an instruction that does not leave its page.
  pub record IsAt (s : MmioState) (code : List ℕ) (d : DecodedInstruction) : Type 0 where
    pub decodes : decode_instruction code ≡ ok d
    pub code_lt : length code < 256
    pub length_le : d.length ≤ 15
    pub there : (i : ℕ) → i < d.length → guest_byte s (s.guest_rip + i) ≡ some (get_or code i 0)
    pub inside : s.guest_rip % 4096 + d.length ≤ 4096

  module _ (memory : IsMemory read_guest_memory byte) (s : MmioState) (code : List ℕ)
      (d : DecodedInstruction) (at : IsAt s code d) where
    -- A byte of the instruction, as it was fetched.
    fetched_byte :
        (p : ℕ) (bytes : List ℕ)
        → translate_gva_to_gpa s.guest_cr3 (read_entry read_guest_memory) s.guest_rip ≡ some p
        → read_guest_memory p 15 ≡ some bytes
        → (i : ℕ) → i < d.length
        → get_or bytes i 0 ≡ get_or code i 0
    fetched_byte p bytes t r i h =
        let walk = translate_gva_to_gpa-moved s.guest_cr3 (read_entry read_guest_memory) in
        let self : some p ≡ moved_to s.guest_rip (some p) =
          sym t ∙ walk s.guest_rip s.guest_rip refl ∙ ap (moved_to s.guest_rip) t in
        let offset : p ≡ moved s.guest_rip p = cc in
        let same : s.guest_rip / 4096 ≡ (s.guest_rip + i) / 4096 = omega (arith, at.inside, h) in
        let moved_i : moved (s.guest_rip + i) p ≡ p + i = omega (arith, offset, at.inside, h) in
        let place : translate_gva_to_gpa s.guest_cr3 (read_entry read_guest_memory)
              (s.guest_rip + i)
            ≡ some (p + i) =
          walk s.guest_rip (s.guest_rip + i) same
          ∙ ap (moved_to (s.guest_rip + i)) t
          ∙ ap some moved_i in
        let seen : some (get_or bytes i 0) ≡ some (get_or code i 0) =
          sym (memory.in_order p 15 bytes r i (omega (arith, h, at.length_le)))
          ∙ sym (ap (λ o. o >>= byte) place)
          ∙ at.there i h in
        cc

    -- The handler decodes the instruction that the guest is at, wherever its page lies in memory, if RIP
    -- can be read and translated, and the memory has fifteen bytes there. The instruction does not leave
    -- its page.
    pub fetch-IsAt :
        (p : ℕ) (bytes : List ℕ)
        → s.rip_readable ≡ true
        → translate_gva_to_gpa s.guest_cr3 (read_entry read_guest_memory) s.guest_rip ≡ some p
        → read_guest_memory p 15 ≡ some bytes
        → fetch read_guest_memory s ≡ fetched d
    unfolding fetch fetch_at decode_fetched
    fetch-IsAt p bytes readable t r =
        let fits = decode_instruction-bounds code d at.decodes in
        let size : length bytes ≡ 15 = memory.sized p 15 bytes r in
        let same : take d.length bytes ≡ take d.length code =
          take_ext d.length bytes code (omega (arith, size, at.length_le)) fits.0
            (fetched_byte p bytes t r) in
        let decoded : decode_instruction bytes ≡ ok d =
          decode_instruction-local code bytes d at.code_lt at.decodes same in
        rw (fetch, readable, t, fetch_at, r, decode_fetched, decoded) refl
