-- ===== src/Base/Text.antt =====
-- What the program takes from Go's fmt, strconv and strings packages.
use Prim.Native.Nat.{ℕ, zero, suc, ◌+◌, ◌-◌, ◌/◌, ◌%◌}
use Prim.Native.Char.{code}
use mathlib.Core.Bool.{Bool, true, false, ◌||◌}
use mathlib.Core.Option.{Option, none, some}
use Prim.Native.String.{String, ◌++◌ as ◌<>◌}
use mathlib.Core.Path.{◌≡◌, refl, ap, sym, ◌∙◌}
use mathlib.Core.List.{List, [], ◌∷◌}
use text.Mathlib.TextLemmas.{nil-append, cons-append}
use mathlib.Core.Logic.{◌≢◌}
use native.Mathlib.Omega.{arith}
use cassandra_operator.Base.Tests.{ltb, eqb, ◌==◌, ==_false, if◌then◌else◌}
use cassandra_operator.Base.Lists.{get_elem?}
use cassandra_operator.Base.Int.{ℤ, pos, negsuc}

digits : List String
digits = "0" ∷ "1" ∷ "2" ∷ "3" ∷ "4" ∷ "5" ∷ "6" ∷ "7" ∷ "8" ∷ "9" ∷ []

entry_or : String → Option String → String
entry_or d none = d
entry_or d (some s) = s

unfoldable pub digit : ℕ → String
unfolding digits entry_or
digit d = entry_or "" (get_elem? digits d)

-- The decimal digits of n; the fuel n + 1 is more than the number of digits.
unfoldable pub show_loop : ℕ → ℕ → String → String
show_loop zero n acc = acc
show_loop (suc fuel) n acc =
    let rest = show_loop fuel (n / 10) (digit (n % 10) <> acc) in
    if ltb n 10 then digit n <> acc else rest

-- %d of a non-negative number, and of an integer.
unfoldable pub show_ℕ : ℕ → String
unfolding digit show_loop
show_ℕ n = show_loop (n + 1) n ""

unfoldable pub show_ℤ : ℤ → String
unfolding show_ℕ
show_ℤ (pos n) = show_ℕ n
show_ℤ (negsuc n) = "-" <> show_ℕ (n + 1)

-- The parts of a text, one after another.
unfoldable pub concat : List String → String
concat [] = ""
concat (s ∷ ss) = s <> concat ss

-- strings.Join.
unfoldable pub join : List String → String → String
join [] sep = ""
join (s ∷ []) sep = s
join (s ∷ t ∷ ts) sep = s <> (sep <> join (t ∷ ts) sep)

-- strings.HasSuffix, by trying every tail.
unfoldable pub ends_with : String → String → Bool
ends_with String.[] suffix = suffix == ""
ends_with (String.◌∷◌ c s) suffix = (String.◌∷◌ c s) == suffix || ends_with s suffix

-- What is left of the text behind the prefix, if it begins with it.
unfoldable pub strip_prefix : String → String → Option String
strip_prefix String.[] s = some s
strip_prefix (String.◌∷◌ c p) String.[] = none
strip_prefix (String.◌∷◌ c p) (String.◌∷◌ d s) =
    let rest = strip_prefix p s in if eqb (code c) (code d) then rest else none

unfoldable pub chars : String → ℕ
chars String.[] = 0
chars (String.◌∷◌ c s) = suc (chars s)

-- strings.Replace with n = -1, for an old text that is not empty: `skip` characters still belong to
-- an occurrence that has been replaced.
unfoldable pub replace_from : ℕ → String → String → String → String
unfolding strip_prefix chars
replace_from skip String.[] old new = ""
replace_from (suc skip) (String.◌∷◌ c s) old new = replace_from skip s old new
replace_from zero (String.◌∷◌ c s) old new = elim (strip_prefix old (String.◌∷◌ c s)) [
  | some rest ↦ new <> replace_from (chars old - 1) s old new
  | none ↦ String.◌∷◌ c (replace_from 0 s old new)
]

unfoldable pub replace_all : String → String → String → String
unfolding replace_from
replace_all s old new = replace_from 0 s old new

replaced : replace_all "my-config-x-config" "-config" "" ≡ "my-x"
unfolding replace_all
replaced = refl

show_runs : show_ℤ (negsuc 9042) ≡ "-9043"
unfolding show_ℤ
show_runs = refl

-- The code of the character at a position, and 0 past the end.
unfoldable pub code_at : ℕ → String → ℕ
code_at i String.[] = 0
code_at zero (String.◌∷◌ c s) = code c
code_at (suc i) (String.◌∷◌ c s) = code_at i s

code_at-append : (i : ℕ) (s t : String) → ltb i (chars s) ≡ true → code_at i (s <> t) ≡ code_at i s
unfolding code_at chars
code_at-append i String.[] t h = ground arith
code_at-append zero (String.◌∷◌ c s) t h = ap (code_at 0) (cons-append c s t)
code_at-append (suc i) (String.◌∷◌ c s) t h =
    ap (code_at (suc i)) (cons-append c s t) ∙ code_at-append i s t (ground arith)

-- Texts that differ at a position inside both of their first parts are different.
pub differ_at :
    (i : ℕ) (s s' t t' : String)
    → ltb i (chars s) ≡ true
    → ltb i (chars t) ≡ true
    → eqb (code_at i s) (code_at i t) ≡ false
    → ((s <> s') == (t <> t')) ≡ false
differ_at i s s' t t' a b h = ==_false (s <> s') (t <> t') (λ e.
    let same = sym (code_at-append i s s' a) ∙ ap (code_at i) e ∙ code_at-append i t t' b in
    ground arith)

pub chars-append : (s t : String) → chars (s <> t) ≡ chars s + chars t
unfolding chars
chars-append String.[] t = ap chars (nil-append t) ∙ omega arith
chars-append (String.◌∷◌ c s) t = ap chars (cons-append c s t) ∙ omega (arith, chars-append s t)

code_at_beyond : (s t : String) (i : ℕ) → code_at (chars s + i) (s <> t) ≡ code_at i t
unfolding chars code_at
code_at_beyond String.[] t i =
    let same : 0 + i ≡ i = omega arith in
    ap (λ j. code_at j (String.[] <> t)) same ∙ ap (λ x. code_at i x) (nil-append t)
code_at_beyond (String.◌∷◌ c s) t i =
    let same : suc (chars s) + i ≡ suc (chars s + i) = omega arith in
    ap (λ j. code_at j (String.◌∷◌ c s <> t)) same
    ∙ ap (λ x. code_at (suc (chars s + i)) x) (cons-append c s t)
    ∙ code_at_beyond s t i

-- Texts whose last characters differ are different.
pub differ_at_end :
    (s t s' t' : String) (i j : ℕ)
    → chars t ≡ suc i
    → chars t' ≡ suc j
    → code_at i t ≢ code_at j t'
    → s <> t ≢ s' <> t'
differ_at_end s t s' t' i j m n h e =
    let long : chars s + suc i ≡ chars s' + suc j =
      ap (λ x. chars s + x) (sym m)
      ∙ sym (chars-append s t)
      ∙ ap chars e
      ∙ chars-append s' t'
      ∙ ap (λ x. chars s' + x) n in
    let at : chars s + i ≡ chars s' + j = omega arith in
    h (
      sym (code_at_beyond s t i)
      ∙ ap (λ x. code_at (chars s + i) x) e
      ∙ ap (λ x. code_at x (s' <> t')) at
      ∙ code_at_beyond s' t' j)
