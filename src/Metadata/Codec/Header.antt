-- ===== src/Metadata/Codec/Header.antt =====
-- The header byte holds its four bits and the version.
use fluxkv.Base.{◌/◌, ◌^◌, ◌≡◌, refl, Bool, true, false, ◌==◌}
use fluxkv.Metadata.Codec.{
  header, has, meta_has_flags, meta_has_expiry, meta_deleted, meta_has_datatype, meta_version_shift,
  meta_version,
}

pub header_fields :
    (f e d t : Bool)
    → (((header f e d t / 2 ^ meta_version_shift) == meta_version) ≡ true)
      × (has (header f e d t) meta_has_flags ≡ f)
      × (has (header f e d t) meta_has_expiry ≡ e)
      × (has (header f e d t) meta_deleted ≡ d)
      × (has (header f e d t) meta_has_datatype ≡ t)
unfolding header
header_fields true true true true = (refl, refl, refl, refl, refl)
header_fields true true true false = (refl, refl, refl, refl, refl)
header_fields true true false true = (refl, refl, refl, refl, refl)
header_fields true true false false = (refl, refl, refl, refl, refl)
header_fields true false true true = (refl, refl, refl, refl, refl)
header_fields true false true false = (refl, refl, refl, refl, refl)
header_fields true false false true = (refl, refl, refl, refl, refl)
header_fields true false false false = (refl, refl, refl, refl, refl)
header_fields false true true true = (refl, refl, refl, refl, refl)
header_fields false true true false = (refl, refl, refl, refl, refl)
header_fields false true false true = (refl, refl, refl, refl, refl)
header_fields false true false false = (refl, refl, refl, refl, refl)
header_fields false false true true = (refl, refl, refl, refl, refl)
header_fields false false true false = (refl, refl, refl, refl, refl)
header_fields false false false true = (refl, refl, refl, refl, refl)
header_fields false false false false = (refl, refl, refl, refl, refl)
