-- ===== src/Prelude/Text.antt =====
-- Rust text as the list of its code points, and what the program uses of the standard library on
-- it: trimming, splitting, ASCII case, hexadecimal digits, decimal printing and parsing.
mod Number
unfoldable pub use Number.*
use Prim.Native.Nat.{ℕ, zero, suc, ◌+◌, ◌≤◌, ◌<◌}
use Prim.Native.Char.{code}
use Prim.Native.String.{String}
use mathlib.Core.Path.{◌≡◌, refl, ap}
use mathlib.Core.Logic.{◌↔◌}
use mathlib.Core.Bool.{Bool, true, false, ◌&&◌, ◌||◌}
use mathlib.Core.Option.{Option, none, some}
use mathlib.Core.List.{List, [], ◌∷◌, ◌++◌}
use native.Mathlib.Omega.{arith}
use bsv_wallet_cli.Prelude.Tests.{ltb, leb, ◌==◌, if◌then◌else◌, is_some}
use bsv_wallet_cli.Prelude.Lists.{All}

abbrev pub Text : Type 0
Text = List ℕ

-- The code points of a literal.
abbrev pub codes : String → Text
codes String.[] = []
codes (String.◌∷◌ c s) = code c ∷ codes s

-- `==` on two texts.
unfoldable pub text_eq : Text → Text → Bool
text_eq [] [] = true
text_eq (a ∷ s) (b ∷ t) = (a == b) && text_eq s t
text_eq _ _ = false

pub text_eq_refl : (s : Text) → text_eq s s ≡ true
unfolding text_eq
text_eq_refl [] = refl
text_eq_refl (a ∷ s) = ground (arith, text_eq_refl s)

pub text_eq→eq : (s t : Text) → text_eq s t ≡ true → s ≡ t
unfolding text_eq
text_eq→eq [] [] h = refl
text_eq→eq [] (b ∷ t) h = cc
text_eq→eq (a ∷ s) [] h = cc
text_eq→eq (a ∷ s) (b ∷ t) h = ground (arith, text_eq→eq s t)

pub text_eq_iff : (s t : Text) → (text_eq s t ≡ true) ↔ (s ≡ t)
text_eq_iff s t = (text_eq→eq s t, λ e. rw e (text_eq_refl t))

-- `char::is_whitespace`.
unfoldable pub is_whitespace : ℕ → Bool
is_whitespace c =
    (leb 9 c && leb c 13)
    || (c == 32)
    || (c == 0x85)
    || (c == 0xa0)
    || (c == 0x1680)
    || (leb 0x2000 c && leb c 0x200a)
    || (c == 0x2028)
    || (c == 0x2029)
    || (c == 0x202f)
    || (c == 0x205f)
    || (c == 0x3000)

unfoldable pub trim_start : Text → Text
trim_start [] = []
trim_start (c ∷ s) = let rest = trim_start s in if is_whitespace c then rest else c ∷ s

abbrev keep_unless_blank : ℕ → Text → Text
keep_unless_blank c [] = if is_whitespace c then [] else c ∷ []
keep_unless_blank c (d ∷ s) = c ∷ d ∷ s

unfoldable pub trim_end : Text → Text
trim_end [] = []
trim_end (c ∷ s) = keep_unless_blank c (trim_end s)

abbrev pub trim : Text → Text
trim s = trim_end (trim_start s)

-- `u8::to_ascii_lowercase`, `u8::is_ascii_hexdigit`, `u8::is_ascii_digit`.
unfoldable pub lower : ℕ → ℕ
lower c = if leb b'A' c && leb c b'Z' then c + 32 else c

unfoldable pub is_hex_digit : ℕ → Bool
is_hex_digit c =
    (leb b'0' c && leb c b'9') || (leb b'a' c && leb c b'f') || (leb b'A' c && leb c b'F')

unfoldable pub to_ascii_lowercase : Text → Text
to_ascii_lowercase [] = []
to_ascii_lowercase (c ∷ s) = lower c ∷ to_ascii_lowercase s

-- `str::strip_prefix`.
unfoldable pub strip_prefix : Text → Text → Option Text
strip_prefix [] s = some s
strip_prefix (p ∷ ps) [] = none
strip_prefix (p ∷ ps) (c ∷ s) = let rest = strip_prefix ps s in if p == c then rest else none

pub strip_prefix-append : (p s : Text) → strip_prefix p (p ++ s) ≡ some s
unfolding strip_prefix
strip_prefix-append [] s = refl
strip_prefix-append (c ∷ p) s = ground (arith, strip_prefix-append p s)

-- `str::contains`.
pub contains_text : Text → Text → Bool
unfolding strip_prefix
contains_text needle [] = is_some (strip_prefix needle [])
contains_text needle (c ∷ s) = is_some (strip_prefix needle (c ∷ s)) || contains_text needle s

-- `str::rsplit_once` at a character that passes the test: the last such one.
abbrev split_before : (ℕ → Bool) → ℕ → Text → Option (Text × Text) → Option (Text × Text)
split_before p c s (some (l, r)) = some (c ∷ l, r)
split_before p c s none = if p c then some ([], s) else none

unfoldable pub rsplit_once : (ℕ → Bool) → Text → Option (Text × Text)
rsplit_once p [] = none
rsplit_once p (c ∷ s) = split_before p c s (rsplit_once p s)

pub rsplit_once-none : (p : ℕ → Bool) (s : Text) → All (λ c. p c ≡ false) s → rsplit_once p s ≡ none
unfolding rsplit_once
rsplit_once-none p [] h = refl
rsplit_once-none p (c ∷ s) h = rw (rsplit_once-none p s h.1) (rw h.0)

pub rsplit_once-append :
    (p : ℕ → Bool) (s t : Text) (c : ℕ)
    → p c ≡ true
    → All (λ d. p d ≡ false) t
    → rsplit_once p (s ++ c ∷ t) ≡ some (s, t)
unfolding rsplit_once
rsplit_once-append p [] t c hc ht = rw (rsplit_once-none p t ht) (rw hc)
rsplit_once-append p (d ∷ s) t c hc ht = rw (rsplit_once-append p s t c hc ht)

pub trim_start_solid : (c : ℕ) (s : Text) → is_whitespace c ≡ false → trim_start (c ∷ s) ≡ c ∷ s
unfolding trim_start
trim_start_solid c s h = rw h

cons_keeps : (c d : ℕ) (s t : Text) → t ≡ s ++ d ∷ [] → keep_unless_blank c t ≡ c ∷ t
cons_keeps c d [] t e = rw e
cons_keeps c d (x ∷ s) t e = rw e

pub trim_end_solid :
    (s : Text) (d : ℕ) → is_whitespace d ≡ false → trim_end (s ++ d ∷ []) ≡ s ++ d ∷ []
unfolding trim_end
trim_end_solid [] d h = rw h
trim_end_solid (c ∷ s) d h = rw (trim_end_solid s d h) (cons_keeps c d s (s ++ d ∷ []) refl)
