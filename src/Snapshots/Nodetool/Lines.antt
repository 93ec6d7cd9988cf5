-- ===== src/Snapshots/Nodetool/Lines.antt =====
-- Which lines of nodetool's listing are read as snapshots.
use Prim.Native.Char.{Char}
use cassandra_operator.Base.{
  String, ◌<>◌, ◌==◌, ==_iff, ◌≡◌, ◌≢◌, ◌↔◌, refl, sym, ap, ◌∙◌, Bool, true, false, ◌&&◌, some,
  arith, Bool-cases, inl, inr, >>=-eq-some,
}
use mathlib.Core.Path.{subst}
use text.Mathlib.TextLemmas.{nil-append, cons-append}
use cassandra_operator.Snapshots.{Listing, is_digit}
use cassandra_operator.Snapshots.Nodetool.{is_word, is_space, span, some_of, parse_line}

-- Every character of the text, or its first one, is of the class.
unfoldable pub consists_of : (Char → Bool) → String → Bool
consists_of p String.[] = true
consists_of p (String.◌∷◌ c s) = p c && consists_of p s

unfoldable pub begins_with : (Char → Bool) → String → Bool
begins_with p String.[] = false
begins_with p (String.◌∷◌ c s) = p c

-- A text of one or more characters of the class.
pub record IsRun (p : Char → Bool) (s : String) : Type 0 where
  pub of_class : consists_of p s ≡ true
  pub not_empty : s ≢ ""

span-append :
    (p : Char → Bool) (s t : String)
    → consists_of p s ≡ true
    → begins_with p t ≡ false
    → span p (s <> t) ≡ (s, t)
unfolding span consists_of begins_with
span-append p String.[] String.[] h k = refl
span-append p String.[] (String.◌∷◌ c t) h k =
    ap (span p) (nil-append (String.◌∷◌ c t)) ∙ ground arith
span-append p (String.◌∷◌ c s) t h k =
    ap (span p) (cons-append c s t) ∙ ground (arith, span-append p s t)

some_of-append :
    (p : Char → Bool) (s t : String)
    → IsRun p s
    → begins_with p t ≡ false
    → some_of p (s <> t) ≡ some (s, t)
unfolding some_of
some_of-append p s t r k = ground (arith, r.not_empty, ==_iff s "", span-append p s t r.of_class k)

-- What follows does not begin with a class that the run's characters are not of.
begins_with-append :
    (p q : Char → Bool) (s t : String)
    → ((c : Char) → q c ≡ true → p c ≡ false)
    → IsRun q s
    → begins_with p (s <> t) ≡ false
unfolding consists_of begins_with
begins_with-append p q String.[] t apart r = absurd (r.not_empty refl)
begins_with-append p q (String.◌∷◌ c s) t apart r =
    ap (begins_with p) (cons-append c s t) ∙ apart c (let h = r.of_class in ground arith)

space_no_digit : (c : Char) → is_space c ≡ true → is_digit c ≡ false
unfolding is_space is_digit
space_no_digit c h = ground arith

space_no_word : (c : Char) → is_space c ≡ true → is_word c ≡ false
unfolding is_space is_word
space_no_word c h = ground arith

word_no_space : (c : Char) → is_word c ≡ true → is_space c ≡ false
unfolding is_space is_word
word_no_space c h = ground arith

parse_line-append :
    (name gap keyspace second_gap column_family rest : String)
    → IsRun is_digit name
    → IsRun is_space gap
    → IsRun is_word keyspace
    → IsRun is_space second_gap
    → IsRun is_word column_family
    → begins_with is_word rest ≡ false
    → parse_line (name <> (gap <> (keyspace <> (second_gap <> (column_family <> rest)))))
      ≡ some (record { name = name; keyspace = keyspace; column_family = column_family })
unfolding parse_line
parse_line-append name gap keyspace second_gap column_family rest n g k h f stop =
    let t4 = column_family <> rest in
    let t3 = second_gap <> t4 in
    let t2 = keyspace <> t3 in
    let t1 = gap <> t2 in
    ground (
      arith,
      some_of-append is_digit name t1 n
          (begins_with-append is_digit is_space gap t2 space_no_digit g),
      some_of-append is_space gap t2 g
          (begins_with-append is_space is_word keyspace t3 word_no_space k),
      some_of-append is_word keyspace t3 k
          (begins_with-append is_word is_space second_gap t4 space_no_word h),
      some_of-append is_space second_gap t4 h
          (begins_with-append is_space is_word column_family rest word_no_space f),
      some_of-append is_word column_family rest f stop,
    )

-- The parts of a line that is read as a snapshot.
pub record Fields (line : String) (l : Listing) : Type 0 where
  pub gap : String
  pub second_gap : String
  pub rest : String
  pub parts : line ≡ l.name <> (gap <> (l.keyspace <> (second_gap <> (l.column_family <> rest))))
  pub name_digits : IsRun is_digit l.name
  pub gap_spaces : IsRun is_space gap
  pub keyspace_word : IsRun is_word l.keyspace
  pub second_gap_spaces : IsRun is_space second_gap
  pub column_family_word : IsRun is_word l.column_family
  pub ends : begins_with is_word rest ≡ false

record Prefix (p : Char → Bool) (s : String) (r : String × String) : Type 0 where
  joined : s ≡ r.0 <> r.1
  of_class : consists_of p r.0 ≡ true
  stops : begins_with p r.1 ≡ false

span-Prefix : (p : Char → Bool) (s : String) → Prefix p s (span p s)
unfolding span consists_of begins_with
span-Prefix p String.[] = record { joined = sym (nil-append ""); of_class = refl; stops = refl }
span-Prefix p (String.◌∷◌ c s) = elim (Bool-cases (p c)) [
  | inl yes_p ↦
      let r = span-Prefix p s in
      rw yes_p (record {
        joined = ap (String.◌∷◌ c) r.joined ∙ sym (cons-append c _ _);
        of_class = ground (arith, r.of_class);
        stops = r.stops;
      })
  | inr no_p ↦
      rw no_p (record { joined = sym (nil-append (String.◌∷◌ c s)); of_class = refl; stops = no_p })
]

some_of-Prefix :
    (p : Char → Bool) (s : String) (r : String × String)
    → some_of p s ≡ some r
    → Prefix p s r × (r.0 ≢ "")
unfolding some_of
some_of-Prefix p s r h = elim (Bool-cases ((span p s).0 == "")) [
  | inl empty ↦ ground (arith, empty)
  | inr more ↦
      let e : span p s ≡ r = ground (arith, more) in
      (subst (Prefix p s) e (span-Prefix p s), λ z. ground (arith, e, ==_iff (span p s).0 "", more))
]

parse_line-Fields : (line : String) (l : Listing) → parse_line line ≡ some l → Fields line l
unfolding parse_line
parse_line-Fields line l h =
    let (name, e1, h1) = >>=-eq-some (some_of is_digit line) _ h in
    let (gap, e2, h2) = >>=-eq-some (some_of is_space name.1) _ h1 in
    let (keyspace, e3, h3) = >>=-eq-some (some_of is_word gap.1) _ h2 in
    let (second_gap, e4, h4) = >>=-eq-some (some_of is_space keyspace.1) _ h3 in
    let (column_family, e5, h5) = >>=-eq-some (some_of is_word second_gap.1) _ h4 in
    let p1 = some_of-Prefix is_digit line name e1 in
    let p2 = some_of-Prefix is_space name.1 gap e2 in
    let p3 = some_of-Prefix is_word gap.1 keyspace e3 in
    let p4 = some_of-Prefix is_space keyspace.1 second_gap e4 in
    let p5 = some_of-Prefix is_word second_gap.1 column_family e5 in
    subst (Fields line) (ground (arith, h5)) (record {
      gap = gap.0;
      second_gap = second_gap.0;
      rest = column_family.1;
      parts =
          p1.0.joined
          ∙ ap (λ x. name.0 <> x)
              (p2.0.joined
                ∙ ap (λ x. gap.0 <> x)
                    (p3.0.joined
                      ∙ ap (λ x. keyspace.0 <> x)
                          (p4.0.joined ∙ ap (λ x. second_gap.0 <> x) p5.0.joined)));
      name_digits = record { of_class = p1.0.of_class; not_empty = p1.1 };
      gap_spaces = record { of_class = p2.0.of_class; not_empty = p2.1 };
      keyspace_word = record { of_class = p3.0.of_class; not_empty = p3.1 };
      second_gap_spaces = record { of_class = p4.0.of_class; not_empty = p4.1 };
      column_family_word = record { of_class = p5.0.of_class; not_empty = p5.1 };
      ends = p5.0.stops;
    })

-- A line is read as a snapshot exactly if it is the snapshot's name, of digits, its keyspace and its
-- column family, of letters, digits and underscores, with one or more spaces between them, and then
-- anything that does not continue the last word.
pub parse_line_iff : (line : String) (l : Listing) → (parse_line line ≡ some l) ↔ Fields line l
parse_line_iff line l = (
  parse_line-Fields line l,
  λ f.
      ap parse_line f.parts
      ∙ parse_line-append l.name f.gap l.keyspace f.second_gap l.column_family f.rest f.name_digits
          f.gap_spaces f.keyspace_word f.second_gap_spaces f.column_family_word f.ends,
)
