-- ===== src/Forked/Writes.antt =====
-- `write_guest_memory`: what it writes, and to whom.
use bedrock.Base.{
  ℕ, zero, suc, ◌+◌, ◌-◌, ◌*◌, ◌/◌, ◌%◌, ◌^◌, ◌<◌, ◌≤◌, ◌&&◌, ◌≡◌, ◌≢◌, refl, sym, ap, ◌∙◌, true,
  Option, none, some, List, length, length-take, length-drop, take, drop, get_or, bit_and, ltb, leb,
  if◌then◌else◌, if-cases, some-cases, dec_lt, ℕ_discrete, arith,
}
use bedrock.Base.Result.{Result, ok}
use bedrock.Cow.{page_aligned, get, contains}
use bedrock.Ept.Frames.{FrameAllocator}
use bedrock.Forked.{Page, MemoryError, ForkedVm, store, read_page, source_page, write_pages}
use bedrock.Forked.Pages.{
  page_aligned-eq, page_aligned-page_aligned, page_offset_lem, source_page_own, contains-get,
  byte_of, byte_at,
}
use bedrock.Forked.Overlay.{overlay, overlay_in, overlay_out, overlay-overlay, store_in, store_out}

module _ (A : FrameAllocator) where
  -- The VM's copies are pages apart from one another and from those of its parents.
  pub record IsApart (w : ForkedVm A) : Type 0 where
    pub aligned : (g : ℕ) (p : Page) → get w.cow_pages g ≡ some p → p.virtual_address % 4096 ≡ 0
    pub single :
        (g h : ℕ) (p q : Page)
        → get w.cow_pages g ≡ some p
        → get w.cow_pages h ≡ some q
        → p.virtual_address ≡ q.virtual_address
        → page_aligned g ≡ page_aligned h
    pub parents : (g v : ℕ) → read_page w.parent g ≡ some v → v % 4096 ≡ 0
    pub foreign :
        (g h v : ℕ) (p : Page)
        → get w.cow_pages g ≡ some p
        → read_page w.parent h ≡ some v
        → v ≢ p.virtual_address

  -- The page of another address is another page.
  source_apart :
      (w : ForkedVm A)
      → IsApart w
      → (g a v : ℕ) (p : Page) → get w.cow_pages g ≡ some p
      → page_aligned a ≢ page_aligned g
      → source_page A w (page_aligned a) ≡ some v
      → (v % 4096 ≡ 0) × (v ≢ p.virtual_address)
  unfolding source_page
  source_apart w i g a v p e ne =
      some-cases (λ (o : Option ℕ). o ≡ some v → (v % 4096 ≡ 0) × (v ≢ p.virtual_address))
        (get w.cow_pages (page_aligned a)) (read_page w.parent (page_aligned a)) _
        (λ no s. (i.parents (page_aligned a) v s, i.foreign g (page_aligned a) v p e s))
        (λ q yes s.
          let same : q.virtual_address ≡ v = cc in
          (
            rw (← same) (i.aligned (page_aligned a) q yes),
            λ vp. ne (
                sym (page_aligned-page_aligned a)
                ∙ i.single (page_aligned a) g q p yes e (same ∙ vp)),
          ))

  module _ (w : ForkedVm A) (i : IsApart w) (g : ℕ) (p : Page) (whole : g % 4096 ≡ 0)
      (fits : g < 2 ^ 64) (here : get w.cow_pages g ≡ some p) where
    g_aligned : page_aligned g ≡ g
    g_aligned = omega (arith, page_aligned-eq g fits, whole)

    abbrev stored : ℕ → List ℕ → ForkedVm A
    stored off bs = record w { ram = store w.ram (p.virtual_address + off) bs }

    -- Another page keeps its bytes.
    other_page :
        (off : ℕ) (bs : List ℕ) (a : ℕ) (o : Option ℕ)
        → off + length bs ≤ 4096
        → ((v : ℕ) → o ≡ some v → (v % 4096 ≡ 0) × (v ≢ p.virtual_address))
        → byte_of (stored off bs).ram a o ≡ byte_of w.ram a o
    other_page off bs a none n h = refl
    other_page off bs a (some v) n h =
        let (al, ne) = h v refl in
        let own = i.aligned g p here in
        ap some (
          store_out w.ram (p.virtual_address + off) bs (v + a % 4096)
            (ground (arith, al, own, ne, n)))

    -- The page itself has the bytes over it.
    own_page :
        (off : ℕ) (bs : List ℕ) (a : ℕ) (f : ℕ → Option ℕ)
        → off + length bs ≤ 4096
        → a ≡ g + a % 4096
        → f a ≡ some (w.ram (p.virtual_address + a % 4096))
        → byte_of (stored off bs).ram a (some p.virtual_address) ≡ overlay (g + off) bs f a
    own_page off bs a f n split old =
        let at = p.virtual_address + off in
        elim (dec_lt (a % 4096) off) [
          | yes low ↦
              ap some (store_out w.ram at bs (p.virtual_address + a % 4096) (ground (arith, low)))
              ∙ sym old
              ∙ sym (overlay_out (g + off) bs f a (ground (arith, low, split)))
          | no high ↦ elim (dec_lt (a % 4096) (off + length bs)) [
            | yes mid ↦
                let k = a % 4096 - off in
                let at_k : p.virtual_address + a % 4096 ≡ at + k = omega (arith, high) in
                let index : a - (g + off) ≡ k = omega (arith, split) in
                ap some (
                  ap (store w.ram at bs) at_k
                  ∙ store_in w.ram at bs k (omega (arith, mid, high))
                  ∙ ap (λ (t : ℕ). get_or bs t 0) (sym index))
                ∙ sym (
                    overlay_in (g + off) bs f a (omega (arith, high, split))
                      (omega (arith, mid, split)))
            | no out ↦
                ap some (store_out w.ram at bs (p.virtual_address + a % 4096) (ground (arith, out)))
                ∙ sym old
                ∙ sym (overlay_out (g + off) bs f a (ground (arith, out, split)))
          ]
        ]

    -- The byte at an address, whichever page it is in.
    stored-byte_at :
        (off : ℕ) (bs : List ℕ) (a : ℕ)
        → off + length bs ≤ 4096
        → a < 2 ^ 64
        → byte_at A (stored off bs) a ≡ overlay (g + off) bs (byte_at A w) a
    unfolding source_page
    stored-byte_at off bs a n small =
        let e : page_aligned a ≡ a / 4096 * 4096 = page_aligned-eq a small in
        elim (ℕ_discrete (page_aligned a) g) [
          | no ne ↦
              other_page off bs a (source_page A w (page_aligned a)) n
                (λ v s. source_apart w i g a v p here (λ q. ne (q ∙ g_aligned)) s)
              ∙ sym (overlay_out (g + off) bs (byte_at A w) a (ground (arith, e, ne, whole, n)))
          | yes same ↦
              let found : source_page A w (page_aligned a) ≡ some p.virtual_address =
                rw same (source_page_own A w g p here) in
              ap (byte_of (stored off bs).ram a) found
              ∙ own_page off bs a (byte_at A w) n (omega (arith, e, same))
                  (ap (byte_of w.ram a) found)
        ]

  -- What a write leaves that has been done: the bytes are there, and no parent sees them.
  pub record Written (w : ForkedVm A) (gpa : ℕ) (buf : List ℕ)
      (out : Result MemoryError (Unit {0}) × ForkedVm A) : Type 0 where
    pub done : out.0 ≡ ok tt
    pub only_ram : out.1 ≡ record w { ram = out.1.ram }
    pub bytes : (a : ℕ) → a < 2 ^ 64 → byte_at A out.1 a ≡ overlay gpa buf (byte_at A w) a
    pub parents :
        (a : ℕ)
        → byte_of out.1.ram a (read_page w.parent a) ≡ byte_of w.ram a (read_page w.parent a)

  pub IsApart-ram : (w : ForkedVm A) (ram : ℕ → ℕ) → IsApart w → IsApart (record w { ram = ram })
  IsApart-ram w ram i = record {
    aligned = i.aligned;
    single = i.single;
    parents = i.parents;
    foreign = i.foreign;
  }

  module _ (w : ForkedVm A) (i : IsApart w) (gpa : ℕ) (p : Page) (small : gpa < 2 ^ 64)
      (here : get w.cow_pages (page_aligned gpa) ≡ some p) where
    abbrev pub after : List ℕ → ForkedVm A
    after bs = record w { ram = store w.ram (p.virtual_address + bit_and gpa 0xFFF) bs }

    pub after-Written :
        (bs : List ℕ) → gpa % 4096 + length bs ≤ 4096 → Written w gpa bs (ok tt, after bs)
    after-Written bs n =
        let e : page_aligned gpa ≡ gpa / 4096 * 4096 = page_aligned-eq gpa small in
        let o : bit_and gpa 0xFFF ≡ gpa % 4096 = page_offset_lem gpa in
        let start : page_aligned gpa + bit_and gpa 0xFFF ≡ gpa = omega (arith, e, o) in
        let whole : page_aligned gpa % 4096 ≡ 0 = omega (arith, e) in
        let fits : page_aligned gpa < 2 ^ 64 = omega (arith, e) in
        let short : bit_and gpa 0xFFF + length bs ≤ 4096 = omega (arith, o, n) in
        record {
          done = refl;
          only_ram = refl;
          bytes = λ a h. rw start at (
              stored-byte_at w i (page_aligned gpa) p whole fits here (bit_and gpa 0xFFF) bs a short
                h);
          parents = λ a.
              other_page w i (page_aligned gpa) p whole fits here (bit_and gpa 0xFFF) bs a
                (read_page w.parent a) short
                (λ v s. (i.parents a v s, i.foreign (page_aligned gpa) a v p here s));
        }

  -- The rest of the bytes, after those of the first page.
  after-rest :
      (w : ForkedVm A) (ram : ℕ → ℕ) (gpa n : ℕ) (buf : List ℕ)
      (out : Result MemoryError (Unit {0}) × ForkedVm A)
      → n ≤ length buf
      → Written w gpa (take n buf) (ok tt, record w { ram = ram })
      → Written (record w { ram = ram }) (gpa + n) (drop n buf) out
      → Written w gpa buf out
  after-rest w ram gpa n buf out h first rest = record {
    done = rest.done;
    only_ram = rest.only_ram;
    bytes = λ a s.
        rest.bytes a s
        ∙ ap
            (λ x.
              if leb (gpa + n) a && ltb a (gpa + n + length (drop n buf))
              then some (get_or (drop n buf) (a - (gpa + n)) 0)
              else x)
            (first.bytes a s)
        ∙ overlay-overlay gpa n buf (byte_at A w) a h;
    parents = λ a. rest.parents a ∙ first.parents a;
  }

  pub write_pages-Written :
      (fuel gpa : ℕ) (buf : List ℕ) (w : ForkedVm A)
      → length buf < fuel
      → 0 < length buf
      → gpa + length buf ≤ 2 ^ 64
      → IsApart w
      → ((a : ℕ) → gpa ≤ a → a < gpa + length buf → contains w.cow_pages a ≡ true)
      → Written w gpa buf (write_pages A fuel gpa buf w)
  unfolding write_pages
  write_pages-Written zero gpa buf w f n top i own = absurd (omega arith)
  write_pages-Written (suc fuel) gpa buf w f n top i own =
      let small : gpa < 2 ^ 64 = omega (arith, top, n) in
      let (p, here) = contains-get w.cow_pages gpa (own gpa (omega arith) (omega (arith, n))) in
      let o : bit_and gpa 0xFFF ≡ gpa % 4096 = page_offset_lem gpa in
      let ahead = 4096 - bit_and gpa 0xFFF in
      let next : page_aligned gpa + 4096 ≡ gpa + ahead =
        omega (arith, page_aligned-eq gpa small, o) in
      rw (write_pages, here)
        (if-cases (Written w gpa buf) (leb (length buf) ahead)
          (λ y. after-Written w i gpa p small here buf (ground (arith, y, o)))
          (λ m.
            let more : ahead < length buf = ground (arith, m) in
            let left : length (drop ahead buf) ≡ length buf - ahead = length-drop ahead buf in
            let part : length (take ahead buf) ≡ ahead =
              omega (arith, length-take ahead buf, more) in
            let w' = after w i gpa p small here (take ahead buf) in
            after-rest w w'.ram gpa ahead buf _ (omega (arith, more))
              (after-Written w i gpa p small here (take ahead buf) (omega (arith, part, o)))
              (rw next (
                write_pages-Written fuel (gpa + ahead) (drop ahead buf) w'
                  (omega (arith, left, f, more, o)) (omega (arith, left, more))
                  (omega (arith, left, top, more)) (IsApart-ram w w'.ram i)
                  (λ a lo hi. own a (omega (arith, lo)) (omega (arith, hi, left, more)))))))
