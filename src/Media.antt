-- ===== src/Media.antt =====
-- Stored files: packages/infra/src/media-serving.ts (the keys and the headers). Texts are lists of
-- UTF-16 code units.
pub mod Uri
pub mod Links
pub mod Keys
mod Tests
use chatbot_integration.Prelude.{
  ℕ, zero, suc, ◌+◌, Bool, true, false, ◌&&◌, ◌||◌, Option, none, some, List, [], ◌∷◌, ◌++◌, any,
  all, leb, ◌==◌, not, if◌then◌else◌, map,
}
use chatbot_integration.Text.{codes, starts_with, trim}
use chatbot_integration.Json.{same_units}
use chatbot_integration.Tokens.Envelope.{split_at_unit}

abbrev pub slash : ℕ
slash = b'/'

abbrev pub is_empty : List ℕ → Bool
is_empty [] = true
is_empty (c ∷ s) = false

-- A segment that a path keeps: none that is empty, `.` or `..`.
abbrev pub is_plain_segment : List ℕ → Bool
is_plain_segment segment =
    not (is_empty segment)
    && (not (same_units segment (codes ".")) && not (same_units segment (codes "..")))

-- Whether a storage key names an object of this workspace.
unfoldable pub is_workspace_key : (workspace_id key : List ℕ) → Bool
is_workspace_key workspace_id key =
    if is_empty workspace_id || not (starts_with (workspace_id ++ slash ∷ []) key)
    then false
    else if any (◌==◌ b'\\') key || any (◌==◌ 0) key
    then false
    else all is_plain_segment (split_at_unit slash key)

abbrev inline_types : List (List ℕ)
inline_types =
    codes "image/png"
    ∷ codes "image/jpeg"
    ∷ codes "image/gif"
    ∷ codes "image/webp"
    ∷ codes "image/avif"
    ∷ codes "image/bmp"
    ∷ []

-- `toLowerCase`, as far as its result is ASCII: the letters, and the sign for kelvin.
abbrev to_lower : ℕ → ℕ
to_lower c = if leb 65 c && leb c 90 then c + 32 else if c == 8490 then b'k' else c

abbrev is_mime_start : ℕ → Bool
is_mime_start c = (leb 97 c && leb c 122) || (leb 48 c && leb c 57)

abbrev is_mime_unit : ℕ → Bool
is_mime_unit c = is_mime_start c || ((c == b'.') || ((c == b'+') || (c == b'-')))

-- `[a-z0-9][a-z0-9.+-]*`
abbrev is_mime_part : List ℕ → Bool
is_mime_part [] = false
is_mime_part (c ∷ s) = is_mime_start c && all is_mime_unit s

abbrev is_mime : List (List ℕ) → Bool
is_mime (kind ∷ subtype ∷ []) = is_mime_part kind && is_mime_part subtype
is_mime _ = false

abbrev first_part : List (List ℕ) → List ℕ
first_part [] = []
first_part (part ∷ parts) = part

abbrev pub octet_stream : List ℕ
octet_stream = codes "application/octet-stream"

unfoldable pub clean_mime : (mime : List ℕ) → List ℕ
clean_mime mime =
    let bare = map to_lower (trim (first_part (split_at_unit b';' mime))) in
    if is_mime (split_at_unit slash bare) then bare else octet_stream

pub record MediaHeaders : Type 0 where
  pub content_type : List ℕ
  pub is_inline : Bool
  pub is_nosniff : Bool
  pub is_sandboxed : Bool

abbrev pub is_pdf : List ℕ → Bool
is_pdf type = same_units type (codes "application/pdf")

abbrev pub is_shown : List ℕ → Bool
is_shown type =
    any (same_units type) inline_types
    || (starts_with (codes "audio/") type || (starts_with (codes "video/") type || is_pdf type))

unfoldable pub media_serving_headers : (mime : List ℕ) → MediaHeaders
media_serving_headers mime =
    let type = clean_mime mime in
    record {
      content_type = type;
      is_inline = is_shown type;
      is_nosniff = true;
      is_sandboxed = not (is_pdf type);
    }
