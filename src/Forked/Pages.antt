-- ===== src/Forked/Pages.antt =====
-- The pages of guest addresses, and the byte that a forked VM has at one.
use bedrock.Base.{
  ℕ, ◌+◌, ◌*◌, ◌/◌, ◌%◌, ◌^◌, ◌<◌, ◌≡◌, refl, true, false, Option, none, some, bit_and, arith,
}
use bedrock.Base.Bits.Field.{bit_and_low, bit_and_field}
use bedrock.Cow.{CowPageMap, page_aligned, get, contains, find, is_some}
use bedrock.Ept.Frames.{FrameAllocator}
use bedrock.Forked.{Page, ForkedVm, read_page, source_page, as_parent}

pub page_aligned_lem : (a : ℕ) → page_aligned a ≡ a / 4096 % 2 ^ 52 * 4096
unfolding page_aligned
page_aligned_lem a = bit_and_field 12 52 a

pub page_aligned-eq : (a : ℕ) → a < 2 ^ 64 → page_aligned a ≡ a / 4096 * 4096
page_aligned-eq a h = omega (arith, page_aligned_lem a)

pub page_aligned-page_aligned : (a : ℕ) → page_aligned (page_aligned a) ≡ page_aligned a
page_aligned-page_aligned a = omega (arith, page_aligned_lem a, page_aligned_lem (page_aligned a))

pub page_offset_lem : (a : ℕ) → bit_and a 0xFFF ≡ a % 4096
page_offset_lem a = bit_and_low 12 a

-- The byte of a page.
abbrev pub byte_of : (ℕ → ℕ) → ℕ → Option ℕ → Option ℕ
byte_of ram a none = none
byte_of ram a (some page) = some (ram (page + a % 4096))

module _ (A : FrameAllocator) where
  -- The byte that the VM has at a guest address.
  abbrev pub byte_at : ForkedVm A → ℕ → Option ℕ
  byte_at w a = byte_of w.ram a (source_page A w (page_aligned a))

  -- The page is the one that a child of the VM is given.
  pub read_page-as_parent :
      (w : ForkedVm A) (a : ℕ) → read_page (as_parent A w) a ≡ source_page A w (page_aligned a)
  unfolding read_page source_page
  read_page-as_parent w a = refl

  pub source_page_own :
      (w : ForkedVm A) (g : ℕ) (p : Page)
      → get w.cow_pages g ≡ some p
      → source_page A w g ≡ some p.virtual_address
  unfolding source_page
  source_page_own w g p e = rw (source_page, e) refl

pub get-page_aligned : (m : CowPageMap Page) (a : ℕ) → get m (page_aligned a) ≡ get m a
unfolding get
get-page_aligned m a = rw page_aligned-page_aligned refl

-- A page that the map contains.
pub contains-get :
    (m : CowPageMap Page) (a : ℕ)
    → contains m a ≡ true
    → (p : Page) × (get m (page_aligned a) ≡ some p)
unfolding contains get
contains-get m a e =
    let (p, f) = is_some_some (find (page_aligned a) m.pages) e in
    (p, rw page_aligned-page_aligned f)
  where
    is_some_some : (o : Option Page) → is_some o ≡ true → (p : Page) × (o ≡ some p)
    is_some_some none h = absurd (cc)
    is_some_some (some p) h = (p, refl)

pub not_contains-get :
    (m : CowPageMap Page) (a : ℕ) → contains m a ≡ false → get m (page_aligned a) ≡ none
unfolding contains get
not_contains-get m a e = rw page_aligned-page_aligned (not_some (find (page_aligned a) m.pages) e)
  where
    not_some : (o : Option Page) → is_some o ≡ false → o ≡ none
    not_some none h = refl
    not_some (some p) h = absurd (cc)

pub contains_of_page :
    (m : CowPageMap Page) (a b : ℕ) → page_aligned a ≡ page_aligned b → contains m a ≡ contains m b
unfolding contains
contains_of_page m a b e = rw e refl

module _ (A : FrameAllocator) (w : ForkedVm A) where
  pub source_page_parent :
      (g : ℕ) → get w.cow_pages g ≡ none → source_page A w g ≡ read_page w.parent g
  unfolding source_page
  source_page_parent g e = rw (source_page, e) refl

  -- The page depends on what the map has for it.
  pub source_page_of_get :
      (ram : ℕ → ℕ) (m : CowPageMap Page) (g : ℕ)
      → get m g ≡ get w.cow_pages g
      → source_page A (record w { ram = ram; cow_pages = m }) g ≡ source_page A w g
  unfolding source_page
  source_page_of_get ram m g e = rw (source_page, e) refl
