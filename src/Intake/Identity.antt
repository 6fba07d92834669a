-- ===== src/Intake/Identity.antt =====
-- intake/identity.py: what a file is, by its first bytes, by its text, and by its name. A file is the list
-- of its bytes. `hashlib`, `zipfile`, `mimetypes`, the decoder and the functions on letters are parameters.
use Prim.Native.String
use brain_flow.Prelude.{
  ℕ, zero, suc, String, Bool, false, ◌&&◌, ◌||◌, Option, none, some, List, [], ◌∷◌, any, leb, ◌==◌,
  length, if◌then◌else◌,
}
use brain_flow.Prelude.Text.{
  Codes, codes, starts_with, ends_with, is_infix, or_text, after_last, is_empty,
}

pub record FileIdentity : Type 0 where
  pub content_hash : String
  pub size_bytes : ℕ
  pub sniffed_mime : String
  pub extension_guess : Option String

-- `decode` is strict UTF-8; `odf_mimetype` is the text of the member `mimetype` of a zip, if it can be read.
pub record FileTools : Type 0 where
  pub sha256_hex : Codes → String
  pub to_lower : String → String
  pub lstrip : String → String
  pub decode : Codes → Option String
  pub odf_mimetype : Codes → Option String
  pub guess_type : String → Option String

abbrev drop_codes : ℕ → Codes → Codes
drop_codes zero s = s
drop_codes (suc n) [] = []
drop_codes (suc n) (c ∷ s) = drop_codes n s

abbrev pub take_codes : ℕ → Codes → Codes
take_codes zero s = []
take_codes (suc n) [] = []
take_codes (suc n) (c ∷ s) = c ∷ take_codes n s

-- data[n : n + len(p)] == p
abbrev at_offset : ℕ → Codes → Codes → Bool
at_offset n bytes p = starts_with (drop_codes n bytes) p

abbrev ends_with_any : String → List String → Bool
ends_with_any name endings = any (λ e. ends_with (codes name) (codes e)) endings

-- A frame of MPEG audio: 0xff, and three bits of the next byte.
abbrev is_mpeg_frame : Codes → Bool
is_mpeg_frame (a ∷ b ∷ _) = (a == 0xff) && leb 0xe0 b
is_mpeg_frame _ = false

-- The first rule that applies: the successive `if … return`.
abbrev first_rule : List (Bool × String) → Option String
first_rule [] = none
first_rule ((b, mime) ∷ rules) = let rest = first_rule rules in if b then some mime else rest

abbrev odf_or_zip : Option String → String
odf_or_zip none = "application/zip"
odf_or_zip (some mt) =
    if starts_with (codes mt) (codes "application/vnd.oasis.opendocument.")
    then mt
    else "application/zip"

-- What starts with magic bytes; `name` is in lower case.
unfoldable pub sniff_media : Codes → String → Option String
sniff_media bytes name =
    let riff = starts_with bytes (codes "RIFF") in
    let ogg = starts_with bytes (codes "OggS") in
    let mpeg = starts_with bytes (codes "ID3") || is_mpeg_frame bytes in
    let ftyp = starts_with bytes (codes "ftyp") || at_offset 4 bytes (codes "ftyp") in
    first_rule (
      (starts_with bytes (codes "%PDF"), "application/pdf")
      ∷ (riff && at_offset 8 bytes (codes "WAVE"), "audio/wav")
      ∷ (riff && at_offset 8 bytes (codes "WEBP"), "image/webp")
      ∷ (ogg && ends_with_any name (".ogv" ∷ ".ogm" ∷ []), "video/ogg")
      ∷ (ogg, "audio/ogg")
      ∷ (mpeg && ends_with_any name (".mp3" ∷ ".mp2" ∷ []), "audio/mpeg")
      ∷ (ftyp && ends_with_any name (".mp4" ∷ ".m4v" ∷ ".mov" ∷ []), "video/mp4")
      ∷ (ftyp && ends_with_any name (".m4a" ∷ []), "audio/mp4")
      ∷ [])

unfoldable pub sniff_zip : Option String → String → String
sniff_zip odf name =
    let office : String = "application/vnd.openxmlformats-officedocument." in
    let opendocument : String = "application/vnd.oasis.opendocument." in
    or_text
      (first_rule (
        (ends_with_any name (".docx" ∷ []), String.◌++◌ office "wordprocessingml.document")
        ∷ (ends_with_any name (".pptx" ∷ []), String.◌++◌ office "presentationml.presentation")
        ∷ (ends_with_any name (".xlsx" ∷ []), String.◌++◌ office "spreadsheetml.sheet")
        ∷ (ends_with_any name (".odt" ∷ []), String.◌++◌ opendocument "text")
        ∷ (ends_with_any name (".ods" ∷ []), String.◌++◌ opendocument "spreadsheet")
        ∷ (ends_with_any name (".odp" ∷ []), String.◌++◌ opendocument "presentation")
        ∷ []))
      (odf_or_zip odf)

unfoldable pub sniff_image : Codes → Option String
sniff_image bytes =
    let gif = starts_with bytes (codes "GIF87a") || starts_with bytes (codes "GIF89a") in
    first_rule (
      (starts_with bytes (0x89 ∷ 0x50 ∷ 0x4e ∷ 0x47 ∷ 0x0d ∷ 0x0a ∷ 0x1a ∷ 0x0a ∷ []), "image/png")
      ∷ (starts_with bytes (0xff ∷ 0xd8 ∷ 0xff ∷ []), "image/jpeg")
      ∷ (gif, "image/gif")
      ∷ (starts_with bytes (codes "BM"), "image/bmp")
      ∷ (
        starts_with bytes (codes "<!DOCTYPE html")
            || starts_with bytes (codes "<html")
            || starts_with bytes (codes "<HTML"),
        "text/html",
      )
      ∷ [])

module _ (tools : FileTools) where
  -- The guess by the name, if there is one that is not empty.
  abbrev guess_or : Option String → String → String
  guess_or none default = default
  guess_or (some filename) default =
      if is_empty filename then default else or_text (tools.guess_type filename) default

  -- A text; it has at most 2048 characters, so that the code's cuts at 4096 and 8192 keep it whole.
  unfoldable pub sniff_text : String → String → Option String
  sniff_text text name =
      let stripped = tools.lstrip text in
      let lower = codes (tools.to_lower stripped) in
      first_rule (
        (
          ends_with_any name (".ipynb" ∷ [])
              || (is_infix (codes "\"cells\"") (codes text)
                  && is_infix (codes "\"nbformat\"") (codes text)),
          "application/x-ipynb+json",
        )
        ∷ (
          starts_with (codes stripped) (codes "{") || starts_with (codes stripped) (codes "["),
          "application/json",
        )
        ∷ (ends_with_any name (".yaml" ∷ ".yml" ∷ []), "application/yaml")
        ∷ (ends_with_any name (".csv" ∷ []), "text/csv")
        ∷ (ends_with_any name (".tsv" ∷ []), "text/tab-separated-values")
        ∷ (ends_with_any name (".md" ∷ ".markdown" ∷ []), "text/markdown")
        ∷ (is_infix (codes "<html") lower || is_infix (codes "<!doctype html") lower, "text/html")
        ∷ [])

  -- The first 2048 bytes, without the mark of UTF-8.
  abbrev sample_of : Codes → Codes
  sample_of bytes =
      let sample = take_codes 2048 bytes in
      if starts_with sample (0xef ∷ 0xbb ∷ 0xbf ∷ []) then drop_codes 3 sample else sample

  unfoldable pub sniff_rest : Codes → Option String → String → String
  unfolding sniff_text
  sniff_rest bytes filename name = elim (tools.decode (sample_of bytes)) [
    | none ↦ guess_or filename "application/octet-stream"
    | some text ↦ or_text (sniff_text text name) (guess_or filename "text/plain")
  ]

  unfoldable pub sniff_mime : Codes → Option String → String
  unfolding sniff_media sniff_zip sniff_image sniff_rest
  sniff_mime bytes filename =
      let name = tools.to_lower (or_text filename "") in
      elim (sniff_media bytes name) [
        | some mime ↦ mime
        | none ↦
            if starts_with bytes (0x50 ∷ 0x4b ∷ 0x03 ∷ 0x04 ∷ [])
            then sniff_zip (tools.odf_mimetype bytes) name
            else or_text (sniff_image bytes) (sniff_rest bytes filename name)
      ]

  abbrev pub content_hash : Codes → String
  content_hash bytes = String.◌++◌ "sha256:" (tools.sha256_hex bytes)

  -- The ending of the name as it is given, in lower case.
  unfoldable pub extension_of : Option String → Option String
  extension_of none = none
  extension_of (some filename) = elim (after_last b'.' filename) [
    | none ↦ none
    | some r ↦ some (String.◌++◌ "." (tools.to_lower r))
  ]

  unfoldable pub identify : Codes → Option String → FileIdentity
  unfolding sniff_mime extension_of
  identify bytes filename = record {
    content_hash = content_hash bytes;
    size_bytes = length bytes;
    sniffed_mime = sniff_mime bytes filename;
    extension_guess = extension_of filename;
  }
