-- ===== src/Attachments/Mime.antt =====
-- attachments/attachment-mime.ts: the type of a file by its bytes, its name made safe, and the text
-- that binds both to its ciphertext. A text is a list of UTF-16 code units.
use Prim.Native.Nat.{◌%◌}
use dead_switch.Common.{
  ℕ, ◌*◌, String, Bool, true, false, ◌&&◌, ◌||◌, List, [], ◌∷◌, ltb, leb, ◌==◌, template, length,
  take, count_where, if◌then◌else◌,
}
use dead_switch.World.{Env}

-- b.length >= n && b[i] === … for the bytes in order.
unfoldable pub begins_with : List ℕ → List ℕ → Bool
begins_with [] b = true
begins_with (x ∷ xs) [] = false
begins_with (x ∷ xs) (y ∷ b) = x == y && begins_with xs b

-- toString('ascii') drops the high bit of every byte.
unfoldable pub ascii : List ℕ → List ℕ
ascii [] = []
ascii (x ∷ xs) = x % 128 ∷ ascii xs

abbrev pub is_pdf : List ℕ → Bool
is_pdf b = begins_with (37 ∷ 80 ∷ 68 ∷ 70 ∷ []) b

abbrev pub is_png : List ℕ → Bool
is_png b = begins_with (137 ∷ 80 ∷ 78 ∷ 71 ∷ 13 ∷ 10 ∷ 26 ∷ 10 ∷ []) b

abbrev pub is_jpeg : List ℕ → Bool
is_jpeg b = begins_with (255 ∷ 216 ∷ 255 ∷ []) b

abbrev pub is_gif : List ℕ → Bool
is_gif b =
    begins_with (71 ∷ 73 ∷ 70 ∷ 56 ∷ 55 ∷ 97 ∷ []) (ascii (take 6 b))
    || begins_with (71 ∷ 73 ∷ 70 ∷ 56 ∷ 57 ∷ 97 ∷ []) (ascii (take 6 b))

abbrev pub is_zip : List ℕ → Bool
is_zip b =
    begins_with (80 ∷ 75 ∷ 3 ∷ []) b && leb 4 (length b)
    || begins_with (80 ∷ 75 ∷ 5 ∷ []) b && leb 4 (length b)
    || begins_with (80 ∷ 75 ∷ 7 ∷ []) b && leb 4 (length b)

abbrev pub is_riff : List ℕ → Bool
is_riff b = begins_with (82 ∷ 73 ∷ 70 ∷ 70 ∷ []) (ascii (take 4 b))

abbrev pub is_printable : ℕ → Bool
is_printable c = c == 9 || c == 10 || c == 13 || leb 32 c && leb c 126

-- printable / sample.length > 0.95
unfoldable pub is_text : List ℕ → Bool
is_text b =
    let sample = take 4096 b in
    ltb 0 (length sample) && ltb (95 * length sample) (100 * count_where is_printable sample)

-- The first signature that fits.
unfoldable pub sniff_mime : List ℕ → String
unfolding begins_with ascii is_text
sniff_mime b =
    if is_pdf b
    then "application/pdf"
    else if is_png b
    then "image/png"
    else if is_jpeg b
    then "image/jpeg"
    else if is_gif b
    then "image/gif"
    else if is_zip b
    then "application/zip"
    else if is_riff b
    then "application/octet-stream"
    else if is_text b
    then "text/plain"
    else "application/octet-stream"

-- A unit that is kept, as it stands or as an underscore.
abbrev pub is_control : ℕ → Bool
is_control c = ltb c 32 || c == 127

-- \ / : * ? " < > |
abbrev pub is_reserved : ℕ → Bool
is_reserved c =
    c == 92 || c == 47 || c == 58 || c == 42 || c == 63 || c == 34 || c == 60 || c == 62 || c == 124

unfoldable pub replace_units : List ℕ → List ℕ
replace_units [] = []
replace_units (c ∷ cs) =
    let rest = replace_units cs in
    if is_control c then rest else (if is_reserved c then 95 else c) ∷ rest

-- Drops a unit that is marked and has nothing kept behind it.
abbrev pub cons_unless_last : Bool → ℕ → List ℕ → List ℕ
cons_unless_last true c [] = []
cons_unless_last true c (d ∷ rest) = c ∷ d ∷ rest
cons_unless_last false c rest = c ∷ rest

-- replace(/\.+$/g, '')
unfoldable pub strip_dots : List ℕ → List ℕ
strip_dots [] = []
strip_dots (c ∷ cs) = cons_unless_last (c == 46) c (strip_dots cs)

-- The white space of String.prototype.trim.
abbrev pub is_space : ℕ → Bool
is_space c =
    leb 9 c && leb c 13
    || c == 32
    || c == 160
    || c == 5760
    || leb 8192 c && leb c 8202
    || c == 8232
    || c == 8233
    || c == 8239
    || c == 8287
    || c == 12288
    || c == 65279

unfoldable pub trim_start : List ℕ → List ℕ
trim_start [] = []
trim_start (c ∷ cs) = if is_space c then trim_start cs else c ∷ cs

unfoldable pub trim_end : List ℕ → List ℕ
trim_end [] = []
trim_end (c ∷ cs) = cons_unless_last (is_space c) c (trim_end cs)

-- 'attachment.bin'
abbrev pub default_name : List ℕ
default_name = 97 ∷ 116 ∷ 116 ∷ 97 ∷ 99 ∷ 104 ∷ 109 ∷ 101 ∷ 110 ∷ 116 ∷ 46 ∷ 98 ∷ 105 ∷ 110 ∷ []

abbrev pub or_default_name : List ℕ → List ℕ
or_default_name [] = default_name
or_default_name (c ∷ cs) = c ∷ cs

unfoldable pub sanitize_units : List ℕ → List ℕ
unfolding replace_units strip_dots trim_start trim_end
sanitize_units raw =
    or_default_name (take 200 (trim_end (trim_start (strip_dots (replace_units raw)))))

unfoldable pub sanitize_filename : Env → String → String
unfolding sanitize_units
sanitize_filename env raw = env.of_code_units (sanitize_units (env.code_units raw))

unfoldable pub build_attachment_aad_v2 : String → String → String → String → String
build_attachment_aad_v2 bundle_id attachment_id mime_type display_filename = template (
    "attachment|v2|" ∷ bundle_id ∷ "|" ∷ attachment_id ∷ "|" ∷ mime_type ∷ "|" ∷ display_filename
    ∷ [])

unfoldable pub build_attachment_aad_v1 : String → String → String
build_attachment_aad_v1 bundle_id attachment_id =
    template ("attachment|" ∷ bundle_id ∷ "|" ∷ attachment_id ∷ [])

unfoldable pub build_attachment_aad : ℕ → String → String → String → String → String
build_attachment_aad aad_version bundle_id attachment_id mime_type display_filename =
    if leb 2 aad_version
    then build_attachment_aad_v2 bundle_id attachment_id mime_type display_filename
    else build_attachment_aad_v1 bundle_id attachment_id
