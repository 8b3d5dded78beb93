-- ===== src/Metadata.antt =====
-- server/metadata.h: the document metadata that magma stores beside each document.
-- `Varint` and `Fixed` are the helpers of `namespace detail`, `Codec` is DocMeta and its two forms.
pub mod Varint
pub mod Fixed
pub mod Prefix
pub mod Range
pub mod Total
pub mod Decoding
pub mod Codec
