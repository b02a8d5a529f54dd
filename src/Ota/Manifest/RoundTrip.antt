-- ===== src/Ota/Manifest/RoundTrip.antt =====
-- What `manifest_bytes` packs, `unpack_manifest` reads back.
use dm_d5102q_rs485_bridge.Prelude.{
  take_exact, drop_exact, and-eq-true, text_eq, leb, text_eq_refl, ◌∙◌, sym, ap, ℕ, zero, suc, ◌-◌,
  ◌<◌, ◌≡◌, refl, Text, true, false, ◌&&◌, some, [], ◌∷◌, ◌++◌, ltb, ◌==◌, length, take, drop, all,
  arith, length-append,
}
use dm_d5102q_rs485_bridge.Bytes.{hex, pack_u32, pad}
use dm_d5102q_rs485_bridge.Bytes.Laws.{length-pad, length-pack_u32, unpack_u32-pack_u32}
use dm_d5102q_rs485_bridge.Patterns.{contains, is_text, is_text_char}
use dm_d5102q_rs485_bridge.Exec.{ok-injective, require-eq-ok, >>=-eq-ok, ok}
use dm_d5102q_rs485_bridge.Ota.Manifest.{
  release_tag, magic, has_esp_header, is_image_size, board, manifest_bytes, is_build_id, in_u32,
  pack, partition_zero, is_ascii, read_field, accept, unpack_manifest,
}

not_zero : (c : ℕ) → is_text_char c ≡ true → (c == 0) ≡ false
unfolding is_text_char
not_zero c h = ground arith

-- A text without zero bytes, filled up with them, is found again.
partition_zero-pad :
    (n : ℕ) (t : Text)
    → all is_text_char t ≡ true
    → length t < n
    → partition_zero (pad n t) ≡ some (t, pad (n - length t - 1) [])
unfolding partition_zero pad all is_text_char
partition_zero-pad zero t h p = elim p [ ]
partition_zero-pad (suc n) [] h p = let e : suc n - 0 - 1 ≡ n = omega arith in rw e
partition_zero-pad (suc n) (c ∷ t) h p =
    let parts = and-eq-true (is_text_char c) (all is_text_char t) h in
    let e : suc n - suc (length t) - 1 ≡ n - length t - 1 = omega arith in
    rw (not_zero c parts.0, partition_zero-pad n t parts.1 (omega arith), e)

zeros-pad : (n : ℕ) → all (λ c. c == 0) (pad n []) ≡ true
unfolding all pad
zeros-pad zero = refl
zeros-pad (suc n) = zeros-pad n

ascii_of_text : (t : Text) → all is_text_char t ≡ true → all is_ascii t ≡ true
unfolding all is_text_char is_ascii
ascii_of_text [] h = refl
ascii_of_text (c ∷ t) h = ground (arith, ascii_of_text t)

read_field-pad : (n : ℕ) (t : Text) → is_text t ≡ true → length t < n → read_field (pad n t) ≡ ok t
unfolding read_field is_text
read_field-pad n t h p =
    let chars = (and-eq-true (ltb 0 (length t)) (all is_text_char t) h).1 in
    rw (partition_zero-pad n t chars p, read_field)
      (rw (zeros-pad (n - length t - 1), ascii_of_text t chars, h))

take-pad : (n : ℕ) (t ys : Text) → take n (pad n t ++ ys) ≡ pad n t
take-pad n t ys = take_exact n (pad n t) ys (length-pad n t)

drop-pad : (n : ℕ) (t ys : Text) → drop n (pad n t ++ ys) ≡ ys
drop-pad n t ys = drop_exact n (pad n t) ys (length-pad n t)

take-pack_u32 : (n : ℕ) (ys : Text) → take 4 (pack_u32 n ++ ys) ≡ pack_u32 n
take-pack_u32 n ys = take_exact 4 (pack_u32 n) ys (length-pack_u32 n)

drop-pack_u32 : (n : ℕ) (ys : Text) → drop 4 (pack_u32 n ++ ys) ≡ ys
drop-pack_u32 n ys = drop_exact 4 (pack_u32 n) ys (length-pack_u32 n)

ruleset layout = (take-pad, drop-pad, take-pack_u32, drop-pack_u32)

pub length-pack :
    (m : Text) (version size schema : ℕ) (name build digest : Text)
    → length (pack m version size schema name build digest) ≡ 116
unfolding pack
length-pack m version size schema name build digest =
    simp (length-append, length-pad, length-pack_u32)

-- The fields are found where they were packed.
unpack_manifest-pack :
    (m : Text) (version size schema : ℕ) (name build digest : Text)
    → version < 4294967296
    → size < 4294967296
    → schema < 4294967296
    → unpack_manifest (pack m version size schema name build digest)
      ≡ accept (pad 8 m) version size schema (pad 16 name) (pad 48 build) (pad 32 digest)
unfolding unpack_manifest
unpack_manifest-pack m version size schema name build digest hv hs hm = rw length-pack (
    unfold pack in
    simp layout (
      rw (
        unpack_u32-pack_u32 version hv,
        unpack_u32-pack_u32 size hs,
        unpack_u32-pack_u32 schema hm,
      )))

pad_exact : (t : Text) → pad (length t) t ≡ t
unfolding pad
pad_exact [] = refl
pad_exact (c ∷ t) = ap (λ u. c ∷ u) (pad_exact t)

-- What a packed manifest has passed.
pub record IsPacked (sha256 : Text → Text) (version : ℕ) (build image : Text) (schema : ℕ)
    (p : Text) : Type 0 where
  pub numbers : (in_u32 version && in_u32 schema) ≡ true
  pub text_id : is_build_id build ≡ true
  pub image_ok : (is_image_size (length image) && has_esp_header image) ≡ true
  pub tagged : contains (release_tag build version) image ≡ true
  pub bytes : p ≡ pack magic version (length image) schema board build (sha256 image)

pub manifest_bytes-IsPacked :
    (sha256 : Text → Text) (version : ℕ) (build image : Text) (schema : ℕ) (p : Text)
    → manifest_bytes sha256 version build image schema ≡ ok p
    → IsPacked sha256 version build image schema p
unfolding manifest_bytes
manifest_bytes-IsPacked sha256 version build image schema p h =
    let a = >>=-eq-ok _ _ h in
    let b = >>=-eq-ok _ _ a.2 in
    let c = >>=-eq-ok _ _ b.2 in
    let d = >>=-eq-ok _ _ c.2 in
    record {
      numbers = require-eq-ok _ _ a.1;
      text_id = require-eq-ok _ _ b.1;
      image_ok = require-eq-ok _ _ c.1;
      tagged = require-eq-ok _ _ d.1;
      bytes = sym (ok-injective d.2);
    }

pad_of_length : (n : ℕ) (t : Text) → length t ≡ n → pad n t ≡ t
pad_of_length n t e = rw (← e) (pad_exact t)

board_field : read_field (pad 16 board) ≡ ok board
unfolding board read_field is_text all pad
board_field = refl

magic_field : text_eq (pad 8 magic) magic ≡ true
unfolding magic text_eq pad
magic_field = refl

positive : (n : ℕ) → in_u32 n ≡ true → (n == 0) ≡ false
unfolding in_u32
positive n h = ground arith

below_u32 : (n : ℕ) → in_u32 n ≡ true → n < 4294967296
unfolding in_u32
below_u32 n h = ground arith

image_below_u32 : (n : ℕ) → is_image_size n ≡ true → n < 4294967296
unfolding is_image_size
image_below_u32 n h = ground arith

accept-fields :
    (version size schema : ℕ) (build digest : Text)
    → in_u32 version ≡ true
    → in_u32 schema ≡ true
    → is_image_size size ≡ true
    → is_build_id build ≡ true
    → length digest ≡ 32
    → accept (pad 8 magic) version size schema (pad 16 board) (pad 48 build) (pad 32 digest)
      ≡ ok (record {
        version = version;
        image_size = size;
        min_schema = schema;
        board_id = board;
        build_id = build;
        sha256 = hex digest;
      })
unfolding accept is_build_id
accept-fields version size schema build digest hv hm hs hb hd =
    let name = and-eq-true (is_text build) (leb (length build) 47) hb in
    rw (
      board_field,
      read_field-pad 48 build name.0 (ground arith),
      magic_field,
      text_eq_refl board,
      positive version hv,
      positive schema hm,
      hs,
      pad_of_length 32 digest hd,
    )

-- `unpack_manifest` reads back exactly what `manifest_bytes` was given, with the image's length
-- and digest, whenever it packs at all and the digest has 32 bytes.
pub unpack_manifest-manifest_bytes :
    (sha256 : Text → Text) (version : ℕ) (build image : Text) (schema : ℕ) {p : Text}
    → length (sha256 image) ≡ 32
    → manifest_bytes sha256 version build image schema ≡ ok p
    → unpack_manifest p
      ≡ ok (record {
        version = version;
        image_size = length image;
        min_schema = schema;
        board_id = board;
        build_id = build;
        sha256 = hex (sha256 image);
      })
unpack_manifest-manifest_bytes sha256 version build image schema {p} hd h =
    let x = manifest_bytes-IsPacked sha256 version build image schema p h in
    let numbers = and-eq-true (in_u32 version) (in_u32 schema) x.numbers in
    let size = (and-eq-true (is_image_size (length image)) (has_esp_header image) x.image_ok).0 in
    rw x.bytes (
      unpack_manifest-pack magic version (length image) schema board build (sha256 image)
        (below_u32 version numbers.0) (image_below_u32 (length image) size)
        (below_u32 schema numbers.1)
      ∙ accept-fields version (length image) schema build (sha256 image) numbers.0 numbers.1 size
          x.text_id hd)
