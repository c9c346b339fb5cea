-- ===== src/Resources/Labels.antt =====
-- The filter text of a label, written and read again.
use kubesphere_schedule.Resources.Filter.{label_of, read_label, LabelFilter}
use kubesphere_schedule.Base.{
  true, strip_last, none, ◌≡◌, ◌||◌, ℕ, some, refl, join, is_char, if◌then◌else◌, false, cut, arith,
  String, Bool,
}
use Prim.Native.String.{[], ◌∷◌}
use Prim.Native.Char.{Char}

abbrev pub has_char : ℕ → String → Bool
has_char n [] = false
has_char n (c ∷ s) = is_char n c || has_char n s

-- The key in front of the equals sign, with the mark of a negated filter.
abbrev pub marked : LabelFilter → String
marked f = if f.opposite then join f.key "!" else f.key

-- `key=value`, or `key!=value`.
abbrev pub print_label : LabelFilter → String
print_label f = join (marked f) (join "=" f.value)

cut-join :
    (key : String) (d : Char) (value : String)
    → is_char b'=' d ≡ true
    → has_char b'=' key ≡ false
    → cut (is_char b'=') (join key (d ∷ value)) ≡ (key, some (d, value))
unfolding cut
cut-join [] d value e h = rw (e) refl
cut-join (c ∷ key) d value e h =
    let other : is_char b'=' c ≡ false = ground arith in
    rw (other, cut-join key d value e (ground arith)) refl

has_char-marked : (key : String) → has_char b'=' key ≡ false → has_char b'=' (join key "!") ≡ false
has_char-marked [] h = refl
has_char-marked (c ∷ key) h = ground (arith, has_char-marked key)

strip_last-marked : (key : String) → strip_last b'!' (join key "!") ≡ some key
unfolding strip_last
strip_last-marked [] = refl
strip_last-marked (c ∷ []) = refl
strip_last-marked (c ∷ d ∷ key) = rw (strip_last-marked (d ∷ key)) refl

label_of-plain :
    (key : String) (c : Char) (value : String)
    → strip_last b'!' key ≡ none
    → label_of key (some (c, value)) ≡ record { key = key; opposite = false; value = value }
label_of-plain key c value k = rw (label_of, k) refl

label_of-marked :
    (key : String) (c : Char) (value : String)
    → label_of (join key "!") (some (c, value))
      ≡ record { key = key; opposite = true; value = value }
label_of-marked key c value = rw (label_of, strip_last-marked key) refl

read_parts :
    (key : String) (opposite : Bool) (value : String)
    → has_char b'=' key ≡ false
    → strip_last b'!' key ≡ none
    → let f : LabelFilter = record { key = key; opposite = opposite; value = value } in
      read_label (print_label f) ≡ f
unfolding read_label
read_parts key false value h k = rw (cut-join key "=" value refl h) (label_of-plain key "=" value k)
read_parts key true value h k =
    rw (cut-join (join key "!") "=" value refl (has_char-marked key h))
      (label_of-marked key "=" value)

-- A label filter that is written out is read as itself, negated or not and whatever its value: its
-- key has no equals sign and does not end in an exclamation mark.
pub read_label-print_label :
    (f : LabelFilter)
    → has_char b'=' f.key ≡ false
    → strip_last b'!' f.key ≡ none
    → read_label (print_label f) ≡ f
read_label-print_label f h k = read_parts f.key f.opposite f.value h k
