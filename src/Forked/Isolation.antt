-- ===== src/Forked/Isolation.antt =====
-- What a forked VM's parents see of its memory, and the writes that change nothing else: `write_pages` of
-- crates/bedrock-vmx/src/vm/forked.rs.
use bedrock.Base.{
  ℕ, zero, suc, ◌+◌, ◌-◌, ◌%◌, ◌^◌, ◌<◌, ◌≤◌, ◌≡◌, refl, ◌∙◌, List, length, length-take,
  length-drop, take, drop, bit_and, leb, if-cases, some-cases, arith,
}
use mathlib.Core.Path.{subst}
use bedrock.Base.Result.{Result, err}
use bedrock.Cow.{page_aligned, get}
use bedrock.Ept.Frames.{FrameAllocator}
use bedrock.Forked.{MemoryError, ForkedVm, read_page, write_pages, permission_denied}
use bedrock.Forked.Pages.{page_aligned-eq, page_offset_lem, byte_of}
use bedrock.Forked.Writes.{IsApart, IsApart-ram, after, after-Written}

module _ (A : FrameAllocator) where
  -- No parent sees what became of the VM.
  pub record Isolated (w w' : ForkedVm A) : Type 0 where
    pub parent_is : w'.parent ≡ w.parent
    pub parents :
        (a : ℕ) → byte_of w'.ram a (read_page w.parent a) ≡ byte_of w.ram a (read_page w.parent a)

  pub Isolated-refl : (w : ForkedVm A) → Isolated w w
  Isolated-refl w = record { parent_is = refl; parents = λ a. refl }

  pub Isolated-trans : (u v w : ForkedVm A) → Isolated u v → Isolated v w → Isolated u w
  Isolated-trans u v w h k = record {
    parent_is = k.parent_is ∙ h.parent_is;
    parents = λ a.
        subst (λ p. byte_of w.ram a (read_page p a) ≡ byte_of v.ram a (read_page p a)) h.parent_is
          (k.parents a)
        ∙ h.parents a;
  }

  -- A write changes the host's memory only, whether it is done or refused, and that where no parent looks.
  pub record WroteRam (w : ForkedVm A) (out : Result MemoryError (Unit {0}) × ForkedVm A)
      : Type 0 where
    pub only_ram : out.1 ≡ record w { ram = out.1.ram }
    pub isolated : Isolated w out.1

  pub write_pages-WroteRam :
      (fuel gpa : ℕ) (buf : List ℕ) (w : ForkedVm A)
      → gpa < 2 ^ 64
      → gpa + length buf ≤ 2 ^ 64
      → IsApart A w
      → WroteRam w (write_pages A fuel gpa buf w)
  unfolding write_pages
  write_pages-WroteRam zero gpa buf w small top i = record {
    only_ram = refl;
    isolated = Isolated-refl w;
  }
  write_pages-WroteRam (suc fuel) gpa buf w small top i =
      some-cases (WroteRam w) (get w.cow_pages (page_aligned gpa)) (err permission_denied, w) _
        (λ e. record { only_ram = refl; isolated = Isolated-refl w })
        (λ p here.
          let o : bit_and gpa 0xFFF ≡ gpa % 4096 = page_offset_lem gpa in
          let ahead = 4096 - bit_and gpa 0xFFF in
          let next : page_aligned gpa + 4096 ≡ gpa + ahead =
            omega (arith, page_aligned-eq gpa small, o) in
          if-cases (WroteRam w) (leb (length buf) ahead)
            (λ y.
              let first = after-Written A w i gpa p small here buf (ground (arith, y, o)) in
              record {
                only_ram = refl;
                isolated = record { parent_is = refl; parents = first.parents };
              })
            (λ m.
              let more : ahead < length buf = ground (arith, m) in
              let left : length (drop ahead buf) ≡ length buf - ahead = length-drop ahead buf in
              let part : length (take ahead buf) ≡ ahead =
                omega (arith, length-take ahead buf, more) in
              let w' = after A w i gpa p small here (take ahead buf) in
              let first =
                after-Written A w i gpa p small here (take ahead buf) (omega (arith, part, o)) in
              let rest =
                write_pages-WroteRam fuel (gpa + ahead) (drop ahead buf) w'
                  (omega (arith, more, top)) (omega (arith, left, top, more))
                  (IsApart-ram A w w'.ram i) in
              rw next (record {
                only_ram = rest.only_ram;
                isolated =
                    Isolated-trans w w' _ (record { parent_is = refl; parents = first.parents })
                      rest.isolated;
              })))
