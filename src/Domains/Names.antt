-- ===== src/Domains/Names.antt =====
-- services/domain_service.js, lines 6 to 64 and 93 to 96: host names, labels and addresses, as lists of
-- character codes.
use mathlib.Core.List.{reverse}
use Prim.Native.Nat.{◌/◌, ◌%◌, ◌-◌}
use virgo_fleet.Base.{
  ℕ, zero, suc, ◌+◌, Bool, true, false, not, ◌&&◌, ◌||◌, Option, none, some, List, [], ◌∷◌, ◌++◌,
  map, ◌==◌, leb, if◌then◌else◌, length, any,
}

abbrev pub Text : Type 0
Text = List ℕ

unfoldable pub same_text : Text → Text → Bool
same_text [] [] = true
same_text [] (d ∷ ds) = false
same_text (c ∷ cs) [] = false
same_text (c ∷ cs) (d ∷ ds) = c == d && same_text cs ds

-- `trim()` and `toLowerCase()`.
abbrev pub is_blank : ℕ → Bool
is_blank c = c == 32 || (leb 9 c && leb c 13)

unfoldable pub drop_blanks : Text → Text
drop_blanks [] = []
drop_blanks (c ∷ cs) = if is_blank c then drop_blanks cs else c ∷ cs

unfoldable pub trim : Text → Text
unfolding drop_blanks
trim t = reverse (drop_blanks (reverse (drop_blanks t)))

unfoldable pub lower : ℕ → ℕ
lower c = if leb b'A' c && leb c b'Z' then c + 32 else c

unfoldable pub normalize_label : Text → Text
unfolding trim lower
normalize_label label = map lower (trim label)

-- `replace(/\.$/, '')`
unfoldable pub strip_dot : Text → Text
strip_dot [] = []
strip_dot (c ∷ []) = if c == b'.' then [] else c ∷ []
strip_dot (c ∷ d ∷ ds) = c ∷ strip_dot (d ∷ ds)

unfoldable pub normalize_name : Text → Text
unfolding trim lower strip_dot
normalize_name name = strip_dot (map lower (trim name))

-- The rest of a text after a prefix.
unfoldable pub strip_prefix : Text → Text → Option Text
strip_prefix [] t = some t
strip_prefix (p ∷ ps) [] = none
strip_prefix (p ∷ ps) (c ∷ cs) = if p == c then strip_prefix ps cs else none

-- `endsWith('.' + zone)` and `slice(0, -(zone.length + 1))`.
unfoldable pub strip_zone : Text → Text → Option Text
unfolding strip_prefix
strip_zone zone t = elim (strip_prefix (reverse (b'.' ∷ zone)) (reverse t)) [
  | none ↦ none
  | some front ↦ some (reverse front)
]

-- `LABEL_PATTERN`
abbrev pub is_alphanumeric : ℕ → Bool
is_alphanumeric c = (leb b'a' c && leb c b'z') || (leb b'0' c && leb c b'9')

unfoldable pub is_label_tail : Text → Bool
is_label_tail [] = true
is_label_tail (c ∷ []) = is_alphanumeric c
is_label_tail (c ∷ d ∷ ds) = (is_alphanumeric c || c == b'-') && is_label_tail (d ∷ ds)

unfoldable pub is_label : Text → Bool
unfolding is_label_tail
is_label [] = false
is_label (c ∷ cs) = is_alphanumeric c && (is_label_tail cs && leb (length (c ∷ cs)) 63)

-- A zone is none where none is configured.
unfoldable pub get_zone_label : Option Text → Text → Text
unfolding normalize_name strip_zone
get_zone_label none domain_name = []
get_zone_label (some zone) domain_name = elim (strip_zone zone (normalize_name domain_name)) [
  | none ↦ []
  | some label ↦ label
]

unfoldable pub is_on_zone : Option Text → Text → Bool
unfolding normalize_name same_text is_label get_zone_label
is_on_zone none domain_name = false
is_on_zone (some zone) domain_name =
    same_text (normalize_name domain_name) zone || is_label (get_zone_label (some zone) domain_name)

abbrev pub cons_first : ℕ → List Text → List Text
cons_first c [] = (c ∷ []) ∷ []
cons_first c (t ∷ ts) = (c ∷ t) ∷ ts

-- `split('.')`
unfoldable pub split_labels : Text → List Text
split_labels [] = [] ∷ []
split_labels (c ∷ cs) =
    let rest = split_labels cs in if c == b'.' then [] ∷ rest else cons_first c rest

unfoldable pub are_labels : List Text → Bool
unfolding is_label
are_labels [] = true
are_labels (t ∷ ts) = is_label t && are_labels ts

pub record Identifier : Type 0 where
  pub label : Text
  pub fqdn : Text
  pub node_fqdn : Text

-- What one or two labels in front of the zone name: a cluster, or a node in it.
unfoldable pub identifier_of : Text → Text → List Text → Option Identifier
identifier_of zone node_fqdn (l ∷ []) =
    some (record { label = l; fqdn = node_fqdn; node_fqdn = node_fqdn })
identifier_of zone node_fqdn (h ∷ l ∷ []) =
    some (record { label = l; fqdn = l ++ b'.' ∷ zone; node_fqdn = node_fqdn })
identifier_of zone node_fqdn _ = none

unfoldable pub identify : Text → Text → Option Identifier
unfolding strip_zone split_labels are_labels identifier_of
identify zone node_fqdn = elim (strip_zone zone node_fqdn) [
  | none ↦ none
  | some front ↦
      if are_labels (split_labels front)
      then identifier_of zone node_fqdn (split_labels front)
      else none
]

unfoldable pub parse_identifier : Option Text → Text → Text → Option Identifier
unfolding normalize_name identify
parse_identifier none hostname domain_name = none
parse_identifier (some zone) hostname domain_name =
    identify zone (normalize_name (hostname ++ b'.' ∷ domain_name))

-- The decimal digits of a number below 1000.
abbrev pub digits : ℕ → Text
digits n =
    if leb 100 n
    then (b'0' + n / 100) ∷ (b'0' + n / 10 % 10) ∷ (b'0' + n % 10) ∷ []
    else (if leb 10 n then (b'0' + n / 10) ∷ (b'0' + n % 10) ∷ [] else (b'0' + n) ∷ [])

-- The first numbers of the private ranges; the second number is between two bounds where it counts.
pub record PrivateRange : Type 0 where
  pub first : ℕ
  pub second : Option (ℕ × ℕ)

abbrev pub private_ranges : List PrivateRange
private_ranges =
    record { first = 10; second = none }
    ∷ record { first = 127; second = none }
    ∷ record { first = 169; second = some (254, 254) }
    ∷ record { first = 192; second = some (168, 168) }
    ∷ record { first = 172; second = some (16, 31) }
    ∷ record { first = 100; second = some (64, 127) }
    ∷ []

unfoldable pub begins_with : Text → Text → Bool
unfolding strip_prefix
begins_with prefix t = elim (strip_prefix prefix t) [ none ↦ false | some rest ↦ true ]

-- Whether a text begins with one of `count` numbers from `from` on and a dot.
unfoldable pub begins_with_number : (count from : ℕ) → Text → Bool
unfolding begins_with
begins_with_number zero from t = false
begins_with_number (suc count) from t =
    begins_with_number count (from + 1) t || begins_with (digits from ++ b'.' ∷ []) t

unfoldable pub matches_range : Text → PrivateRange → Bool
unfolding strip_prefix begins_with_number
matches_range t range = elim (strip_prefix (digits range.first ++ b'.' ∷ []) t) [
  | none ↦ false
  | some rest ↦ elim range.second [
    | none ↦ true
    | some bounds ↦ begins_with_number (bounds.1 + 1 - bounds.0) bounds.0 rest
  ]
]

-- `isPublicAddress`; no address is none.
unfoldable pub is_public_address : Option Text → Bool
unfolding trim matches_range
is_public_address none = false
is_public_address (some address) = elim (trim address) [
  | [] ↦ false
  | c ∷ cs ↦ not (any (matches_range (c ∷ cs)) private_ranges)
]
