-- ===== src/Attachments/Name.antt =====
-- sanitizeFilename (attachments/attachment-mime.ts).
use dead_switch.Common.{
  ℕ, ◌≤◌, ◌<◌, ◌≡◌, refl, Bool, true, false, List, [], ◌∷◌, inl, inr, Bool-cases, arith, ◌==◌,
  length, take, All, length-take_le, take-All, if◌then◌else◌,
}
use dead_switch.Attachments.Mime.{
  is_control, is_reserved, is_space, cons_unless_last, replace_units, strip_dots, trim_start,
  trim_end, default_name, or_default_name, sanitize_units,
}

-- A unit that may stand in the name of a download.
abbrev pub IsSafe : ℕ → Type 0
IsSafe c = (is_control c ≡ false) × (is_reserved c ≡ false)

replaced : (c : ℕ) → is_control c ≡ false → IsSafe (if is_reserved c then 95 else c)
replaced c h = elim (Bool-cases (is_reserved c)) [ inl y ↦ rw y (refl, refl) | inr n ↦ rw n (h, n) ]

replace_units-All : (cs : List ℕ) → All IsSafe (replace_units cs)
unfolding replace_units
replace_units-All [] = tt
replace_units-All (c ∷ cs) = elim (Bool-cases (is_control c)) [
  | inl y ↦ rw y (replace_units-All cs)
  | inr n ↦ rw n (replaced c n, replace_units-All cs)
]

cons_unless_last-All :
    (b : Bool) (c : ℕ) (cs : List ℕ)
    → IsSafe c
    → All IsSafe cs
    → All IsSafe (cons_unless_last b c cs)
cons_unless_last-All true c [] p h = tt
cons_unless_last-All true c (d ∷ cs) p h = (p, h)
cons_unless_last-All false c cs p h = (p, h)

strip_dots-All : (cs : List ℕ) → All IsSafe cs → All IsSafe (strip_dots cs)
unfolding strip_dots
strip_dots-All [] h = tt
strip_dots-All (c ∷ cs) (p, h) =
    cons_unless_last-All (c == 46) c (strip_dots cs) p (strip_dots-All cs h)

trim_start-All : (cs : List ℕ) → All IsSafe cs → All IsSafe (trim_start cs)
unfolding trim_start
trim_start-All [] h = tt
trim_start-All (c ∷ cs) (p, h) = elim (Bool-cases (is_space c)) [
  | inl y ↦ rw y (trim_start-All cs h)
  | inr n ↦ rw n (p, h)
]

trim_end-All : (cs : List ℕ) → All IsSafe cs → All IsSafe (trim_end cs)
unfolding trim_end
trim_end-All [] h = tt
trim_end-All (c ∷ cs) (p, h) =
    cons_unless_last-All (is_space c) c (trim_end cs) p (trim_end-All cs h)

default_name-All : All IsSafe default_name
default_name-All = (
  (refl, refl),
  (
    (refl, refl),
    (
      (refl, refl),
      (
        (refl, refl),
        (
          (refl, refl),
          (
            (refl, refl),
            (
              (refl, refl),
              (
                (refl, refl),
                (
                  (refl, refl),
                  (
                    (refl, refl),
                    ((refl, refl), ((refl, refl), ((refl, refl), ((refl, refl), tt)))),
                  ),
                ),
              ),
            ),
          ),
        ),
      ),
    ),
  ),
)

or_default_name-All : (cs : List ℕ) → All IsSafe cs → All IsSafe (or_default_name cs)
or_default_name-All [] h = default_name-All
or_default_name-All (c ∷ cs) h = h

or_default_name-bounds :
    (cs : List ℕ)
    → length cs ≤ 200
    → (0 < length (or_default_name cs)) × (length (or_default_name cs) ≤ 200)
or_default_name-bounds [] h = (omega arith, omega arith)
or_default_name-bounds (c ∷ cs) h = (omega arith, h)

-- Whatever name the client sends, the name that is stored has between 1 and 200 code units, none of
-- which is a control character, a path separator or another character that file systems reserve.
pub sanitize_units-All :
    (raw : List ℕ)
    → All IsSafe (sanitize_units raw)
      × (0 < length (sanitize_units raw))
      × (length (sanitize_units raw) ≤ 200)
unfolding sanitize_units
sanitize_units-All raw =
    let trimmed = trim_end (trim_start (strip_dots (replace_units raw))) in
    let safe : All IsSafe trimmed =
      trim_end-All _ (trim_start-All _ (strip_dots-All _ (replace_units-All raw))) in
    let (some_unit, few) = or_default_name-bounds (take 200 trimmed) (length-take_le 200 trimmed) in
    (or_default_name-All (take 200 trimmed) (take-All IsSafe 200 trimmed safe), some_unit, few)
