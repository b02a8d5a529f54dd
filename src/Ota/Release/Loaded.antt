-- ===== src/Ota/Release/Loaded.antt =====
-- What `load_release` of the controller accepts.
use dm_d5102q_rs485_bridge.Prelude.{
  refl, ◌+◌, ◌≡◌, ap, ◌∙◌, Text, text, text_eq, text_eq_sound, Bool, true, ◌&&◌, Option,
  and-eq-true, length, take, drop, ◌==◌,
}
use dm_d5102q_rs485_bridge.Value.{Value, str, field_eq}
use dm_d5102q_rs485_bridge.Bytes.{hex}
use dm_d5102q_rs485_bridge.Exec.{ok, >>=-eq-ok, >>-eq-ok, require-eq-ok, ok-injective}
use dm_d5102q_rs485_bridge.Ota.Manifest.{Manifest, manifest_size, manifest_bytes, unpack_manifest}
use dm_d5102q_rs485_bridge.Ota.Reconcile.{item}
use dm_d5102q_rs485_bridge.Ota.Deploy.{Release}
use dm_d5102q_rs485_bridge.Ota.Release.{
  manifest_fields, agrees, release_object, key_bytes, verify_signature, load_release,
}

module _ (sha256 : Text → Text) (signed_by : Text → Text → Text → Bool)
    (fromhex : Text → Option Text) where
  -- The signed manifest of a release, with the key that signed it.
  pub record IsSigned (r : Release) (key : Text) (m : Manifest) : Type 0 where
    pub signature_holds :
        signed_by key (take manifest_size r.envelope) (drop manifest_size r.envelope) ≡ true
    pub manifest_read : unpack_manifest (take manifest_size r.envelope) ≡ ok m
    pub metadata_agrees : agrees r.metadata (manifest_fields m) ≡ true
    pub key_named : field_eq r.metadata (text "keyId") (str (hex (sha256 key))) ≡ true
    pub image_matches :
        manifest_bytes sha256 m.version m.build_id r.image m.min_schema
        ≡ ok (take manifest_size r.envelope)

  verify_signature_sound :
      (key envelope : Text) {u : Unit {0}}
      → verify_signature sha256 signed_by fromhex key envelope ≡ ok u
      → signed_by key (take manifest_size envelope) (drop manifest_size envelope) ≡ true
  unfolding verify_signature
  verify_signature_sound key envelope h =
      let a = >>-eq-ok (length key == 32 && length envelope == manifest_size + 64) _ _ h in
      require-eq-ok _ _ a.1

  -- A release that `load_release` returns has the envelope and the image of its directory, and a
  -- manifest that is signed by the key which the metadata names, that agrees with the metadata and
  -- that is the one which `manifest_bytes` makes of the image.
  pub load_release-IsSigned :
      (json : Option Value) (envelope image : Text) {r : Release}
      → load_release sha256 signed_by fromhex json envelope image ≡ ok r
      → (r.envelope ≡ envelope)
        × (r.image ≡ image)
        × (key : Text) × (m : Manifest) × IsSigned r key m
  unfolding load_release
  load_release-IsSigned json envelope image {r} h =
      let a = >>=-eq-ok (release_object json) _ h in
      let b = >>=-eq-ok (item a.0 (text "publicKey")) _ a.2 in
      let c = >>=-eq-ok (key_bytes sha256 signed_by fromhex b.0) _ b.2 in
      let d = >>=-eq-ok (verify_signature sha256 signed_by fromhex c.0 envelope) _ c.2 in
      let e = >>=-eq-ok (unpack_manifest (take manifest_size envelope)) _ d.2 in
      let f =
        >>-eq-ok
          (agrees a.0 (manifest_fields e.0) && field_eq a.0 (text "channel") (str (text "dev"))) _ _
          e.2 in
      let g = >>-eq-ok (field_eq a.0 (text "keyId") (str (hex (sha256 c.0)))) _ _ f.1 in
      let i =
        >>=-eq-ok (manifest_bytes sha256 e.0.version e.0.build_id image e.0.min_schema) _ g.1 in
      let j = >>-eq-ok (text_eq i.0 (take manifest_size envelope)) _ _ i.2 in
      let signed : IsSigned (record { metadata = a.0; envelope = envelope; image = image }) c.0
          e.0 =
        record {
          signature_holds = verify_signature_sound c.0 envelope d.1;
          manifest_read = e.1;
          metadata_agrees = (and-eq-true _ _ f.0).0;
          key_named = g.0;
          image_matches = i.1 ∙ ap ok (text_eq_sound _ _ j.0);
        } in
      rw⁻¹ (ok-injective j.1) (refl, refl, c.0, e.0, signed)
