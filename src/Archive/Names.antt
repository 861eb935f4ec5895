-- ===== src/Archive/Names.antt =====
-- download/extractor/layout/volume.rs: the names of the files of a range cache, as
-- `missing_range_requests` writes them and as `from_remote` reads them.
pub mod RoundTrip
use griffr.Common.{
  ℕ, zero, suc, ◌+◌, ◌-◌, ◌*◌, ◌/◌, ◌%◌, ◌||◌, Option, none, some, List, [], ◌∷◌, ◌++◌, ltb,
  nat_beq, if◌then◌else◌, nat_eq, length, Text, text_eq, bytes, word_max, text_order, flagged_eq,
  flagged_order,
}
use griffr.Archive.Ranges.{Span}

-- `Display` of an integer below ten to the fuel: the digits before `out`.
unfoldable pub digits : (fuel n : ℕ) → Text → Text
digits zero n out = out
digits (suc fuel) n out =
    let rest = digits fuel (n / 10) ((b'0' + n % 10) ∷ out) in
    if ltb n 10 then (b'0' + n) ∷ out else rest

-- Twenty digits hold every machine word.
unfoldable pub decimal : ℕ → Text
unfolding digits
decimal n = digits 20 n []

abbrev pub zeros : ℕ → Text → Text
zeros zero s = s
zeros (suc n) s = b'0' ∷ zeros n s

-- `{n:04}`
unfoldable pub padded : ℕ → Text
unfolding decimal
padded n = zeros (4 - length (decimal n)) (decimal n)

-- The stem of `v{index:04}-{start}-{end}.range`.
unfoldable pub range_stem : ℕ → Span → Text
unfolding padded decimal
range_stem index range =
    b'v' ∷ (padded index ++ b'-' ∷ (decimal range.start ++ b'-' ∷ decimal range.end))

-- `cache_dir.join(…)`, below a directory whose path does not end in a separator.
unfoldable pub cache_path : Text → ℕ → Span → Text
unfolding range_stem
cache_path cache_dir index range = cache_dir ++ b'/' ∷ (range_stem index range ++ bytes ".range")

-- `parse::<u64>` of the digits, with the value so far: an overflow is an error.
unfoldable pub scan : Text → ℕ → Option ℕ
scan [] n = some n
scan (c ∷ s) n =
    let rest = scan s (n * 10 + (c - b'0')) in
    if ltb c b'0' || ltb b'9' c || ltb word_max (n * 10 + (c - b'0')) then none else rest

abbrev pub scan_some : Text → Option ℕ
scan_some [] = none
scan_some (c ∷ s) = scan (c ∷ s) 0

-- A plus sign may stand before the digits.
unfoldable pub parse : Text → Option ℕ
unfolding scan
parse [] = none
parse (c ∷ s) = if nat_beq c b'+' then scan_some s else scan_some (c ∷ s)

-- `split(separator)`: the first piece and the others.
unfoldable pub split : ℕ → Text → Text × List Text
split separator [] = ([], [])
split separator (c ∷ s) =
    let (first, rest) = split separator s in
    if nat_beq c separator then ([], first ∷ rest) else (c ∷ first, rest)

abbrev pub three_numbers : Option ℕ → Option ℕ → Option ℕ → Option (ℕ × Span)
three_numbers (some volume) (some start) (some end) =
    some (volume, record { start = start; end = end })
three_numbers _ _ _ = none

-- The pieces of a stem: a volume after a `v`, and two numbers.
abbrev pub of_pieces : Text → List Text → Option (ℕ × Span)
of_pieces (c ∷ volume) (start ∷ end ∷ []) =
    if nat_beq c b'v' then three_numbers (parse volume) (parse start) (parse end) else none
of_pieces _ _ = none

-- What `from_remote` reads from a stem: the volume and the range.
unfoldable pub parse_stem : Text → Option (ℕ × Span)
unfolding split parse
parse_stem stem = let (first, rest) = split b'-' stem in of_pieces first rest
