-- ===== src/Usb/Segments/Preserved.antt =====
-- Flashing accepted segments leaves the preserved regions alone.
use dm_d5102q_rs485_bridge.Prelude.{
  refl, ◌∙◌, ap, ◌≡◌, ◌≤◌, ◌<◌, ℕ, ◌+◌, Text, text_eq, text_eq_sound, Bool, true, false, not, ◌&&◌,
  Option, none, some, List, [], ◌∷◌, ltb, leb, ◌==◌, length, In, first_or_later, and-eq-true, arith,
}
use dm_d5102q_rs485_bridge.Bytes.{hex}
use dm_d5102q_rs485_bridge.Exec.{ok, require-eq-ok, >>=-eq-ok, >>-eq-ok, ok-injective}
use dm_d5102q_rs485_bridge.Documents.Laws.{for_each_sound}
use dm_d5102q_rs485_bridge.Usb.Segments.{
  File, Segment, segments, flash_size, erase_end, preserved, check_region, read_segment,
  check_segment, check_each, check_segments,
}

-- An address that flashing a segment erases
pub record Erases (s : Segment) (address : ℕ) : Type 0 where
  pub from : s.offset ≤ address
  pub until : address < erase_end s

pub record Spares (s : Segment) : Type 0 where
  pub in_flash : (a : ℕ) → Erases s a → a < flash_size
  pub apart :
      (region : ℕ × ℕ) → In region preserved → (a : ℕ) → Erases s a → region.0 ≤ a → region.1 ≤ a
  pub covers : (a : ℕ) → s.offset ≤ a → a < s.offset + s.size → Erases s a

-- Each segment ends before each later one begins.
pub data Apart : List Segment → Type 0 where
  empty : Apart []
  before :
      {s : Segment} {ss : List Segment}
      → ((t : Segment) → In t ss → (a : ℕ) → Erases s a → a < t.offset)
      → Apart ss
      → Apart (s ∷ ss)

roundup_covers : (s : Segment) → s.offset + s.size ≤ erase_end s
unfolding erase_end
roundup_covers s = omega arith

check_region_apart :
    (s : Segment) (region : ℕ × ℕ) {u : Unit {0}}
    → check_region s region ≡ ok u
    → (a : ℕ) → Erases s a
    → region.0 ≤ a
    → region.1 ≤ a
unfolding check_region
check_region_apart s (start, end) h a e l = apart _ _ _ _ (require-eq-ok _ _ h) e.from e.until l
  where
    apart :
        (offset stop start end : ℕ)
        → not (ltb offset end && ltb start stop) ≡ true
        → offset ≤ a
        → a < stop
        → start ≤ a
        → end ≤ a
    apart offset stop start end h f u l = ground arith

refuted : (b : Bool) → not b ≡ true → b ≡ false
refuted b h = ground arith

equal : (m n : ℕ) → (m == n) ≡ true → m ≡ n
equal m n h = ground arith

at_most : (m n : ℕ) → leb m n ≡ true → m ≤ n
at_most m n h = ground arith

below : (a m n : ℕ) → a < m → leb m n ≡ true → a < n
below a m n h e = ground arith

module _ (sha256 : Text → Text) (files : Text → Option File) where
  -- The file of a segment is the approved one.
  pub record Approved (s : Segment) : Type 0 where
    pub file : File
    pub found : files s.path ≡ some file
    pub no_symlink : file.is_symlink ≡ false
    pub size_is : length file.bytes ≡ s.size
    pub digest_is : hex (sha256 file.bytes) ≡ s.digest

  read_segment_sound :
      (s : Segment) {bytes : Text}
      → read_segment sha256 files s ≡ ok bytes
      → (f : File) × (files s.path ≡ some f) × (f.is_symlink ≡ false) × (f.bytes ≡ bytes)
  unfolding read_segment
  read_segment_sound s {bytes} h = go (files s.path) refl
    where
      go :
          (o : Option File)
          → files s.path ≡ o
          → (f : File) × (o ≡ some f) × (f.is_symlink ≡ false) × (f.bytes ≡ bytes)
      go none e = let x = rw (read_segment, e) at h in cc
      go (some f) e =
          let a = >>-eq-ok (not f.is_symlink) _ _ (rw (read_segment, e) at h) in
          (f, refl, refuted _ a.0, ok-injective a.1)

  check_segment_sound :
      (previous_end : ℕ) (s : Segment) {u : Unit {0}}
      → check_segment sha256 files previous_end s ≡ ok u
      → Approved s × Spares s × (previous_end ≤ s.offset)
  unfolding check_segment
  check_segment_sound previous_end s h =
      let a = >>=-eq-ok (read_segment sha256 files s) _ h in
      let b = >>-eq-ok (length a.0 == s.size && text_eq (hex (sha256 a.0)) s.digest) _ _ a.2 in
      let c = >>-eq-ok (leb previous_end s.offset && leb (erase_end s) flash_size) _ _ b.1 in
      let (file, found, no_symlink, bytes) = read_segment_sound s a.1 in
      let same = and-eq-true _ _ b.0 in
      let fits = and-eq-true _ _ c.0 in
      (
        record {
          file = file;
          found = found;
          no_symlink = no_symlink;
          size_is = ap length bytes ∙ equal _ _ same.0;
          digest_is = ap (λ t. hex (sha256 t)) bytes ∙ text_eq_sound _ _ same.1;
        },
        record {
          in_flash = λ x e. below _ _ _ e.until fits.1;
          apart = λ region i. check_region_apart s region (for_each_sound _ _ c.1 region i);
          covers = λ x f l. record { from = f; until = omega (arith, l, roundup_covers s) };
        },
        at_most _ _ fits.0,
      )

  end_after :
      (s : Segment) (previous_end : ℕ) → previous_end ≤ s.offset → previous_end ≤ erase_end s
  end_after s previous_end h = omega (arith, h, roundup_covers s)

  -- Where the loop of check_segments accepts some segments, each is the approved file with the
  -- approved size and digest and is no symbolic link; the sectors that flashing it erases cover it,
  -- lie within the flash, contain no address of a preserved region, and end before each later
  -- segment begins.
  pub check_each_sound :
      (previous_end : ℕ) (ss : List Segment) {u : Unit {0}}
      → check_each sha256 files previous_end ss ≡ ok u
      → ((s : Segment) → In s ss → Approved s × Spares s × (previous_end ≤ s.offset)) × Apart ss
  unfolding check_each
  check_each_sound previous_end [] h = (λ s i. elim i [ ], empty)
  check_each_sound previous_end (s ∷ ss) h =
      let a = >>=-eq-ok (check_segment sha256 files previous_end s) _ h in
      let first = check_segment_sound previous_end s a.1 in
      let rest = check_each_sound (erase_end s) ss a.2 in
      (
        λ t i.
            first_or_later (λ t. Approved t × Spares t × (previous_end ≤ t.offset)) first
              (λ t j.
                let x = rest.0 t j in
                (x.0, x.1, omega (arith, end_after s previous_end first.2, x.2)))
              i,
        before (λ t i b e. omega (arith, e.until, (rest.0 t i).2)) rest.1,
      )

  -- The pinned segments that pass are the approved files, and flashing them erases nothing that is
  -- preserved, nothing outside the flash, and nothing of another segment.
  pub check_segments_sound :
      {u : Unit {0}}
      → check_segments sha256 files ≡ ok u
      → ((s : Segment) → In s segments → Approved s × Spares s) × Apart segments
  unfolding check_segments
  check_segments_sound h =
      let a = >>=-eq-ok (check_each sha256 files 0 segments) _ h in
      let b = check_each_sound 0 segments a.1 in (λ s i. let x = b.0 s i in (x.0, x.1), b.1)
