-- ===== src/Snapshots/Naming.antt =====
-- The times by which snapshots are named, and how the filter reads them back.
use Prim.Native.Char.{Char, code}
use cassandra_operator.Base.{
  ℕ, zero, suc, ◌+◌, ◌*◌, ◌/◌, ◌%◌, ◌<◌, String, ◌<>◌, ◌≡◌, ◌≢◌, refl, sym, ap, ◌∙◌, true, false,
  ◌&&◌, some, List, arith, ltb, Bool-cases, inl, inr,
}
use cassandra_operator.Base.Int.{ℤ, pos, negsuc, ltb_ℤ, IsInt64}
use cassandra_operator.Base.Text.{digit, show_loop, show_ℕ, show_ℤ}
use text.Mathlib.TextLemmas.{nil-append, cons-append, cons-ne-nil}
use cassandra_operator.Snapshots.{
  Listing, read_digits, is_digit, read_unsigned, in_range, atoi, found, is_older,
  outside_retention_period,
}
use cassandra_operator.Snapshots.Retention.{found-outside_retention_period}

-- The text of a digit is one character, with the digit's code.
record IsDigitOf (d : ℕ) : Type 0 where
  character : Char
  text : digit d ≡ String.◌∷◌ character String.[]
  value : code character ≡ 48 + d

digit-IsDigitOf : (d : ℕ) → d < 10 → IsDigitOf d
unfolding digit
digit-IsDigitOf zero h = record { character = "0"; text = refl; value = refl }
digit-IsDigitOf (suc zero) h = record { character = "1"; text = refl; value = refl }
digit-IsDigitOf (suc (suc zero)) h = record { character = "2"; text = refl; value = refl }
digit-IsDigitOf (suc (suc (suc zero))) h = record { character = "3"; text = refl; value = refl }
digit-IsDigitOf (suc (suc (suc (suc zero)))) h = record {
  character = "4";
  text = refl;
  value = refl;
}
digit-IsDigitOf (suc (suc (suc (suc (suc zero))))) h = record {
  character = "5";
  text = refl;
  value = refl;
}
digit-IsDigitOf (suc (suc (suc (suc (suc (suc zero)))))) h = record {
  character = "6";
  text = refl;
  value = refl;
}
digit-IsDigitOf (suc (suc (suc (suc (suc (suc (suc zero))))))) h = record {
  character = "7";
  text = refl;
  value = refl;
}
digit-IsDigitOf (suc (suc (suc (suc (suc (suc (suc (suc zero)))))))) h = record {
  character = "8";
  text = refl;
  value = refl;
}
digit-IsDigitOf (suc (suc (suc (suc (suc (suc (suc (suc (suc zero))))))))) h = record {
  character = "9";
  text = refl;
  value = refl;
}
digit-IsDigitOf (suc (suc (suc (suc (suc (suc (suc (suc (suc (suc d)))))))))) h =
    absurd (omega arith)

digit-append :
    (d : ℕ) (h : d < 10) (t : String) → digit d <> t ≡ String.◌∷◌ (digit-IsDigitOf d h).character t
digit-append d h t =
    let r = digit-IsDigitOf d h in
    ap (λ x. x <> t) r.text
    ∙ cons-append r.character String.[] t
    ∙ ap (String.◌∷◌ r.character) (nil-append t)

read_digits-digit :
    (k d : ℕ) (t : String) → d < 10 → read_digits k (digit d <> t) ≡ read_digits (10 * k + d) t
unfolding read_digits is_digit
read_digits-digit k d t h =
    let r = digit-IsDigitOf d h in ap (read_digits k) (digit-append d h t) ∙ ground (arith, r.value)

-- Reading the digits of a number, and then more, is reading on from the number.
read_digits-show_loop :
    (fuel n : ℕ) (t : String) → n < fuel → read_digits 0 (show_loop fuel n t) ≡ read_digits n t
unfolding show_loop
read_digits-show_loop zero n t h = absurd (omega arith)
read_digits-show_loop (suc fuel) n t h = elim (Bool-cases (ltb n 10)) [
  | inl small ↦
      rw small (read_digits-digit 0 n t (ground arith) ∙ ap (λ k. read_digits k t) (omega arith))
  | inr large ↦ rw large (
      read_digits-show_loop fuel (n / 10) (digit (n % 10) <> t) (ground arith)
      ∙ read_digits-digit (n / 10) (n % 10) t (omega arith)
      ∙ ap (λ k. read_digits k t) (omega arith))
]

digit-append-ne_nil : (d : ℕ) (t : String) → d < 10 → digit d <> t ≢ ""
digit-append-ne_nil d t h e = cons-ne-nil _ _ (sym (digit-append d h t) ∙ e)

show_loop-ne_nil : (fuel n : ℕ) (t : String) → n < fuel → show_loop fuel n t ≢ ""
unfolding show_loop
show_loop-ne_nil zero n t h = absurd (omega arith)
show_loop-ne_nil (suc fuel) n t h = elim (Bool-cases (ltb n 10)) [
  | inl small ↦ rw small (digit-append-ne_nil n t (ground arith))
  | inr large ↦ rw large (show_loop-ne_nil fuel (n / 10) (digit (n % 10) <> t) (ground arith))
]

read_unsigned-ne_nil : (s : String) → s ≢ "" → read_unsigned s ≡ read_digits 0 s
unfolding read_unsigned
read_unsigned-ne_nil String.[] h = absurd (h refl)
read_unsigned-ne_nil (String.◌∷◌ c s) h = refl

read_unsigned-show_ℕ : (n : ℕ) → read_unsigned (show_ℕ n) ≡ some n
unfolding show_ℕ read_digits
read_unsigned-show_ℕ n =
    read_unsigned-ne_nil (show_loop (n + 1) n "") (show_loop-ne_nil (n + 1) n "" (omega arith))
    ∙ read_digits-show_loop (n + 1) n "" (omega arith)

-- A text that begins with a digit has no sign.
atoi-unsigned : (s : String) {n : ℕ} → read_unsigned s ≡ some n → atoi s ≡ in_range false n
unfolding atoi read_unsigned read_digits is_digit
atoi-unsigned String.[] h = ground arith
atoi-unsigned (String.◌∷◌ c s) h = ground arith

atoi-negative : (s : String) {n : ℕ} → read_unsigned s ≡ some n → atoi ("-" <> s) ≡ in_range true n
unfolding atoi
atoi-negative s h =
    ap atoi (cons-append "-" "" s ∙ ap (String.◌∷◌ "-") (nil-append s)) ∙ ground arith

pub atoi-show_ℤ : (t : ℤ) → IsInt64 t → atoi (show_ℤ t) ≡ some t
unfolding show_ℤ in_range
atoi-show_ℤ (pos n) h = atoi-unsigned (show_ℕ n) (read_unsigned-show_ℕ n) ∙ ground arith
atoi-show_ℤ (negsuc n) h =
    atoi-negative (show_ℕ (n + 1)) (read_unsigned-show_ℕ (n + 1)) ∙ ground arith

-- A snapshot that was taken at an int64 time t, and so named, is selected for its keyspace exactly if a
-- snapshot of that name and keyspace is listed and t is before the cutoff.
pub found-taken :
    (t cutoff : ℤ) (keyspace : String) (ss : List Listing)
    → IsInt64 t
    → found (show_ℤ t) keyspace (outside_retention_period cutoff ss)
      ≡ (ltb_ℤ t cutoff && found (show_ℤ t) keyspace ss)
unfolding is_older
found-taken t cutoff keyspace ss h =
    found-outside_retention_period (show_ℤ t) keyspace cutoff ss
    ∙ ap (λ o. is_older cutoff o && found (show_ℤ t) keyspace ss) (atoi-show_ℤ t h)
