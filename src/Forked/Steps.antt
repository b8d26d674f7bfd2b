-- ===== src/Forked/Steps.antt =====
-- A forked VM in whatever order its memory is used: faults, stores of the guest, writes of the devices,
-- buffers that userspace maps, and the I/O page.
use bedrock.Base.{
  ℕ, suc, ◌+◌, ◌*◌, ◌/◌, ◌%◌, ◌^◌, ◌<◌, ◌≤◌, ◌==◌, ◌≡◌, refl, sym, ◌∙◌, Bool, Option, some, List,
  [], ◌∷◌, length, bit_and, if-cases, none, some-cases, arith, ap,
}
use mathlib.Core.Path.{subst}
use mathlib.Core.Option.{some-injective}
use bedrock.Ept.Table.{lookup}
use bedrock.Cow.{page_aligned, get, contains}
use bedrock.Ept.Frames.{FrameAllocator}
use bedrock.Forked.{
  Page, store, CowAllocator, ForkedVm, read_page, write_guest_memory, handle_cow_fault, cow_once,
  cow_each, pre_cow_io_channel_page, cow_feedback_buffer_for_mapping,
}
use bedrock.Forked.Pages.{page_aligned-eq, page_offset_lem, byte_of, not_contains-get}
use bedrock.Forked.Writes.{after-Written}
use bedrock.Forked.Copies.{mapped, IsForked, IsForked-IsApart}
use bedrock.Forked.Remapped.{Faulted}
use bedrock.Forked.Faults.{copy_on_write-Faulted}
use bedrock.Forked.Resolve.{handle_cow_fault-Faulted}
use bedrock.Forked.Isolation.{Isolated, Isolated-refl, Isolated-trans, write_pages-WroteRam}

-- The pages of a buffer, as `translate_gva_range_to_gpas` gives them for a guest of 48-bit addresses.
abbrev pub ArePages : List ℕ → Type 0
ArePages [] = Unit {0}
ArePages (g ∷ gpas) = (g % 4096 ≡ 0) × (g < 2 ^ 48) × ArePages gpas

module _ (A : FrameAllocator) (C : CowAllocator A) where
  -- What may happen to a forked VM's memory while it lives.
  pub data Step : ForkedVm A → ForkedVm A → Type 0 where
    fault :
        (memory : Bool) (gpa : ℕ) (w : ForkedVm A)
        → gpa < 2 ^ 48
        → Step w (handle_cow_fault A C memory gpa w).1
    device_write :
        (gpa : ℕ) (buf : List ℕ) (w : ForkedVm A)
        → gpa < 2 ^ 64
        → gpa + length buf ≤ 2 ^ 64
        → Step w (write_guest_memory A gpa buf w).1
    -- The guest stores bytes to a page that its EPT lets it write; `host` is where the host has that frame,
    -- which is a copy's own memory if the frame is the copy's.
    guest_store :
        (gpa frame perms host : ℕ) (bytes : List ℕ) (w : ForkedVm A)
        → gpa < 2 ^ 48
        → gpa % 4096 + length bytes ≤ 4096
        → lookup w.ept.memory w.ept.pml4_phys (page_aligned gpa) ≡ some (frame, perms)
        → perms / 2 % 2 ≡ 1
        → ((p : Page)
            → get w.cow_pages (page_aligned gpa) ≡ some p
            → p.physical_address ≡ frame
            → p.virtual_address ≡ host)
        → Step w (record w { ram = store w.ram (host + gpa % 4096) bytes })
    io_page :
        (memory : Bool) (w : ForkedVm A)
        → w.io_page_gpa < 2 ^ 48
        → Step w (pre_cow_io_channel_page A C memory w)
    map_buffer :
        (memory : Bool) (index : ℕ) (w : ForkedVm A)
        → ((gpas : List ℕ) → w.feedback_buffers index ≡ some gpas → ArePages gpas)
        → Step w (cow_feedback_buffer_for_mapping A C memory index w)

  pub data Steps (w : ForkedVm A) : ForkedVm A → Type 0 where
    none_yet : Steps w w
    and_step : {u v : ForkedVm A} → Steps w u → Step u v → Steps w v

  module _ (shared : ℕ → Option (ℕ × ℕ)) where
    -- The invariant and the isolation together.
    pub record Keeps (w w' : ForkedVm A) : Type 0 where
      pub kept : IsForked A C shared w'
      pub isolated : Isolated A w w'

    Faulted-Keeps :
        (w : ForkedVm A) (g : ℕ) (out : Bool × ForkedVm A)
        → Faulted A C shared w g out
        → Keeps w out.1
    Faulted-Keeps w g out f = record {
      kept = f.kept;
      isolated = record { parent_is = f.parent_is; parents = f.parents };
    }

    Keeps-refl : (w : ForkedVm A) → IsForked A C shared w → Keeps w w
    Keeps-refl w i = record { kept = i; isolated = Isolated-refl A w }

    Keeps-trans : (u v w : ForkedVm A) → Keeps u v → Keeps v w → Keeps u w
    Keeps-trans u v w h k = record {
      kept = k.kept;
      isolated = Isolated-trans A u v w h.isolated k.isolated;
    }

    cow_once-Keeps :
        (memory : Bool) (g : ℕ) (w : ForkedVm A)
        → IsForked A C shared w
        → g % 4096 ≡ 0
        → g < 2 ^ 48
        → Keeps w (cow_once A C memory g w)
    unfolding cow_once
    cow_once-Keeps memory g w i al low =
        if-cases (Keeps w) (contains w.cow_pages g) (λ y. Keeps-refl w i)
          (λ n.
            let e : page_aligned g ≡ g =
              omega (arith, page_aligned-eq g (omega (arith, low)), al) in
            Faulted-Keeps w g _ (
              copy_on_write-Faulted A C shared memory w i g al low
                (rw e at (not_contains-get w.cow_pages g n))))

    cow_each-Keeps :
        (memory : Bool) (gpas : List ℕ) (w : ForkedVm A)
        → IsForked A C shared w
        → ArePages gpas
        → Keeps w (cow_each A C memory gpas w)
    unfolding cow_each
    cow_each-Keeps memory [] w i h = Keeps-refl w i
    cow_each-Keeps memory (g ∷ gpas) w i (al, low, h) =
        let once = cow_once-Keeps memory g w i al low in
        Keeps-trans w (cow_once A C memory g w) _ once
          (cow_each-Keeps memory gpas (cow_once A C memory g w) once.kept h)

    wrote-Keeps :
        (w w' : ForkedVm A)
        → IsForked A C shared w
        → w' ≡ record w { ram = w'.ram }
        → Isolated A w w'
        → Keeps w w'
    wrote-Keeps w w' i e h = record {
      kept = subst (IsForked A C shared) (sym e) (record {
        tree = i.tree;
        own = i.own;
        parents = i.parents;
        single = i.single;
        foreign = i.foreign;
        agrees = i.agrees;
      });
      isolated = h;
    }

    -- What the guest may write is its own copy.
    writable_own :
        (own : Option Page) (s : Option (ℕ × ℕ)) (frame perms : ℕ)
        → mapped own s ≡ some (frame, perms)
        → perms / 2 % 2 ≡ 1
        → (p : Page) × (own ≡ some p) × (p.physical_address ≡ frame)
    writable_own none none frame perms e h = absurd (cc)
    writable_own none (some (f, q)) frame perms e h =
        let read : 5 ≡ perms = ap (λ r. r.1) (some-injective (f, 5) (frame, perms) e) in
        absurd (omega (arith, read, h))
    writable_own (some p) none frame perms e h = absurd (cc)
    writable_own (some p) (some f) frame perms e h =
        (p, refl, ap (λ r. r.0) (some-injective (p.physical_address, 7) (frame, perms) e))

    guest_store-Keeps :
        (gpa frame perms host : ℕ) (bytes : List ℕ) (w : ForkedVm A)
        → IsForked A C shared w
        → gpa < 2 ^ 48
        → gpa % 4096 + length bytes ≤ 4096
        → lookup w.ept.memory w.ept.pml4_phys (page_aligned gpa) ≡ some (frame, perms)
        → perms / 2 % 2 ≡ 1
        → ((p : Page)
            → get w.cow_pages (page_aligned gpa) ≡ some p
            → p.physical_address ≡ frame
            → p.virtual_address ≡ host)
        → Keeps w (record w { ram = store w.ram (host + gpa % 4096) bytes })
    guest_store-Keeps gpa frame perms host bytes w i low fits e h at =
        let start : page_aligned gpa ≡ gpa / 4096 * 4096 =
          page_aligned-eq gpa (omega (arith, low)) in
        let agrees =
          i.agrees (page_aligned gpa) (omega (arith, start)) (omega (arith, start, low)) in
        let (p, here, frame_is) =
          writable_own (get w.cow_pages (page_aligned gpa)) (shared (page_aligned gpa)) frame perms
            (sym agrees ∙ e) h in
        let first =
          after-Written A w (IsForked-IsApart A C shared w i) gpa p (omega (arith, low)) here bytes
            fits in
        let place : p.virtual_address + bit_and gpa 0xFFF ≡ host + gpa % 4096 =
          omega (arith, at p here frame_is, page_offset_lem gpa) in
        wrote-Keeps w (record w { ram = store w.ram (host + gpa % 4096) bytes }) i refl
          (record {
            parent_is = refl;
            parents = λ a.
                subst
                  (λ x.
                    byte_of (store w.ram x bytes) a (read_page w.parent a)
                    ≡ byte_of w.ram a (read_page w.parent a))
                  place (first.parents a);
          })

    Step-Keeps : {w w' : ForkedVm A} → Step w w' → IsForked A C shared w → Keeps w w'
    unfolding write_guest_memory pre_cow_io_channel_page cow_feedback_buffer_for_mapping
    Step-Keeps (fault memory gpa w low) i =
        Faulted-Keeps w (page_aligned gpa) _
          (handle_cow_fault-Faulted A C shared w i gpa low memory)
    Step-Keeps (device_write gpa buf w small top) i =
        let out =
          write_pages-WroteRam A (suc (length buf)) gpa buf w small top
            (IsForked-IsApart A C shared w i) in
        wrote-Keeps w _ i out.only_ram out.isolated
    Step-Keeps (guest_store gpa frame perms host bytes w low fits e h at) i =
        guest_store-Keeps gpa frame perms host bytes w i low fits e h at
    Step-Keeps (io_page memory w low) i =
        if-cases (Keeps w) (w.io_page_gpa == 0) (λ z. Keeps-refl w i)
          (λ n.
            let e : page_aligned w.io_page_gpa ≡ w.io_page_gpa / 4096 * 4096 =
              page_aligned-eq w.io_page_gpa (omega (arith, low)) in
            cow_once-Keeps memory (page_aligned w.io_page_gpa) w i (omega (arith, e))
              (omega (arith, e, low)))
    Step-Keeps (map_buffer memory index w pages) i =
        some-cases (Keeps w) (w.feedback_buffers index) w _ (λ e. Keeps-refl w i)
          (λ gpas e. cow_each-Keeps memory gpas w i (pages gpas e))

    -- After copy-on-write faults below 2^48, stores of the guest where its EPT lets it, writes of the devices below
    -- 2^64, buffers mapped on pages below 2^48, and copies of the I/O page, in whatever order and with whatever
    -- failures, a forked VM's EPT still maps its own copies and the pages shared with its parent, and no
    -- parent has seen a byte change.
    pub Steps-Keeps : {w w' : ForkedVm A} → Steps w w' → IsForked A C shared w → Keeps w w'
    Steps-Keeps none_yet i = Keeps-refl _ i
    Steps-Keeps (and_step r s) i =
        let before = Steps-Keeps r i in Keeps-trans _ _ _ before (Step-Keeps s before.kept)
