-- ===== src/Package/Verified.antt =====
-- What `verify` accepts.
use dm_d5102q_rs485_bridge.Prelude.{
  inr, inl, suc, Bool-cases, ℕ, ◌+◌, ◌≤◌, ◌≡◌, sym, ◌∙◌, ap, Text, text_eq_sound, Bool, true, leb,
  ◌==◌, length, take, drop, arith, and-eq-true, take_short,
}
use mathlib.Core.Bool.{false≢true}
use dm_d5102q_rs485_bridge.Patterns.{contains}
use dm_d5102q_rs485_bridge.Exec.{ok, require-eq-ok, >>=-eq-ok, ok-injective}
use dm_d5102q_rs485_bridge.Ota.Manifest.{Manifest, max_image}
use dm_d5102q_rs485_bridge.Package.{
  manifest_size, header_bytes, Metadata, unpack_manifest, manifest_bytes, verify_header,
  is_manifest_of, matches, verify_parts, verify,
}

module _ (sha256 : Text → Text) (signed_by : Text → Text → Text → Bool) where
  -- What an accepted file has passed.
  pub record IsVerified (file key : Text) (m : Metadata) : Type 0 where
    pub key_length : length key ≡ 32
    pub size : length file ≤ max_image + header_bytes
    pub signature_holds :
        signed_by key
          (take manifest_size (take header_bytes file))
          (drop manifest_size (take header_bytes file))
        ≡ true
    pub has_key : contains key (drop header_bytes file) ≡ true
    pub identity :
        manifest_bytes sha256 m.manifest.version m.manifest.build_id
          (drop header_bytes file)
          m.manifest.min_schema
        ≡ ok (take manifest_size (take header_bytes file))

  shorter : (n : ℕ) → leb n (max_image + header_bytes) ≡ true → suc n ≤ max_image + header_bytes + 1
  shorter n h = ground arith

  equal : (m n : ℕ) → (m == n) ≡ true → m ≡ n
  equal m n h = ground arith

  at_most : (m n : ℕ) → leb m n ≡ true → m ≤ n
  at_most m n h = ground arith

  matches_sound :
      (key : Text) (m : Manifest) (image header : Text)
      → matches sha256 signed_by key m image header ≡ ok true
      → (contains key image ≡ true)
        × (manifest_bytes sha256 m.version m.build_id image m.min_schema
            ≡ ok (take manifest_size header))
  unfolding matches is_manifest_of
  matches_sound key m image header h = elim (Bool-cases (contains key image)) [
    | inl has ↦
        let x =
          >>=-eq-ok (manifest_bytes sha256 m.version m.build_id image m.min_schema) _
            (rw has at h) in
        (has, x.1 ∙ ap ok (text_eq_sound _ _ (ok-injective x.2)))
    | inr lacks ↦ absurd (false≢true (ok-injective (rw lacks at h)))
  ]

  verify_header_sound :
      (key header : Text) (m : Manifest)
      → verify_header sha256 signed_by key header ≡ ok m
      → (length key ≡ 32)
        × (signed_by key (take manifest_size header) (drop manifest_size header) ≡ true)
  unfolding verify_header
  verify_header_sound key header m h =
      let a = >>=-eq-ok _ _ h in
      let lengths = require-eq-ok _ _ a.1 in
      let b = >>=-eq-ok (unpack_manifest (take manifest_size header)) _ a.2 in
      let c = >>=-eq-ok _ _ b.2 in
      (equal (length key) 32 (and-eq-true _ _ lengths).0, require-eq-ok _ _ c.1)

  verify_parts_sound :
      (key content header image : Text) (r : Metadata)
      → verify_parts sha256 signed_by key content header image ≡ ok r
      → (verify_header sha256 signed_by key header ≡ ok r.manifest)
        × (matches sha256 signed_by key r.manifest image header ≡ ok true)
  unfolding verify_parts
  verify_parts_sound key content header image r h =
      let a = >>=-eq-ok _ _ h in
      let b = >>=-eq-ok _ _ a.2 in
      let c = >>=-eq-ok _ _ b.2 in
      let same = require-eq-ok _ _ c.1 in
      let eq : a.0 ≡ r.manifest = ap (λ (x : Metadata). x.manifest) (ok-injective c.2) in
      (
        a.1 ∙ ap ok eq,
        ap (λ x. matches sha256 signed_by key x image header) (sym eq) ∙ b.1 ∙ ap ok same,
      )

  verify-parts :
      (file key : Text) (r : Metadata)
      → verify sha256 signed_by file key ≡ ok r
      → (length file ≤ max_image + header_bytes)
        × (verify_parts sha256 signed_by key file (take header_bytes file) (drop header_bytes file)
            ≡ ok r)
  unfolding verify
  verify-parts file key r h =
      let a = >>=-eq-ok _ _ h in
      let fits = require-eq-ok _ _ a.1 in
      let whole : take (max_image + header_bytes + 1) file ≡ file =
        take_short (max_image + header_bytes + 1) file (shorter _ fits) in
      let bound : leb (length file) (max_image + header_bytes) ≡ true =
        sym (ap (λ x. leb (length x) (max_image + header_bytes)) whole) ∙ fits in
      (
        at_most (length file) (max_image + header_bytes) bound,
        sym (
              ap
                (λ x.
                  verify_parts sha256 signed_by key x (take header_bytes x) (drop header_bytes x))
                whole)
            ∙ a.2,
      )

  -- A file that `verify` accepts fits the ceiling, is signed by the pinned key, has an image that
  -- contains this key, and begins with the very manifest that `manifest_bytes` makes of the image
  -- and the returned metadata.
  pub verify-IsVerified :
      (file key : Text) (r : Metadata)
      → verify sha256 signed_by file key ≡ ok r
      → IsVerified file key r
  verify-IsVerified file key r h =
      let (fits, parts) = verify-parts file key r h in
      let (header, same) = verify_parts_sound _ _ _ _ r parts in
      let (key_length, signed) = verify_header_sound _ _ _ header in
      let (has_key, identity) = matches_sound _ _ _ _ same in
      record {
        key_length = key_length;
        size = fits;
        signature_holds = signed;
        has_key = has_key;
        identity = identity;
      }
