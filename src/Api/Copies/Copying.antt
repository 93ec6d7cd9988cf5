-- ===== src/Api/Copies/Copying.antt =====
-- What it takes for a function to copy: the calculus in which each DeepCopyInto is judged.
use mathlib.Core.Path.{subst, sym}
use cassandra_operator.Base.{
  ℕ, ◌≤◌, ◌<◌, ◌+◌, Option, none, some, ◌≡◌, refl, Option-cases, inl, inr, arith,
}
use cassandra_operator.Platform.{Platform}
use cassandra_operator.Api.Memory.{
  Object, Memory, M, Storable, value_at, load, new, update, pure, ◌>>=◌,
}
use cassandra_operator.Api.Copies.{copy_pointer}
use cassandra_operator.Api.Copies.Reading.{Reader, read_value, read_pointer}
use cassandra_operator.Api.Copies.Separate.{
  from, Included, IsMonotone, read_pointer-IsMonotone, read_value-IsMonotone,
}

module _ {P : Platform} where
  -- Nothing is stored at the addresses that are not handed out yet.
  abbrev pub IsValid : Memory P → Type 0
  IsValid h = (a : ℕ) → h.next ≤ a → h.cell a ≡ none

  -- A later memory, in which everything that there was is as it was.
  pub record Later (h h' : Memory P) : Type 0 where
    pub grows : h.next ≤ h'.next
    pub valid : IsValid h'
    pub keeps : (a : ℕ) → a < h.next → h'.cell a ≡ h.cell a

  -- A run has left a later memory and something that reads as `u` there, even if only what is newer
  -- than `h` may be looked at.
  abbrev pub Copied : {A V : Type 0} → Reader P A V → Memory P → V → Option (A × Memory P) → Type 0
  Copied read h u none = ⊥
  Copied read h u (some (y, h2)) = Later h h2 × (read (from h.next h2) y ≡ some u)

  abbrev pub IsCopy : {A V : Type 0} → Reader P A V → (A → M P A) → Type 0
  IsCopy {A} {V} read into =
      (h : Memory P) (x : A) (u : V) → IsValid h → read h x ≡ some u → Copied read h u (into x h)

  pub Later-refl : (h : Memory P) → IsValid h → Later h h
  Later-refl h v = record { grows = omega arith; valid = v; keeps = λ a _. refl }

  pub Later-trans : {h h1 h2 : Memory P} → Later h h1 → Later h1 h2 → Later h h2
  Later-trans {h} {h1} {h2} p q = record {
    grows = ground (arith, p.grows, q.grows);
    valid = q.valid;
    keeps = λ a lt. ground (arith, p.grows, p.keeps a lt, q.keeps a);
  }

  pub Later-Included : {h h1 : Memory P} → IsValid h → Later h h1 → Included h h1
  Later-Included {h} {h1} v p a o e = ground (arith, v a, p.keeps a)

  from-Included : (n : ℕ) (h h1 : Memory P) → Included h h1 → Included (from n h) (from n h1)
  from-Included n h h1 i a o e = ground (arith, i a o)

  pub from_mono : (m n : ℕ) (h : Memory P) → n ≤ m → Included (from m h) (from n h)
  from_mono m n h le a o e = ground arith

  pub carry :
      {A V : Type 0} (read : Reader P A V) (h h' : Memory P) (a : A) (u : V)
      → IsMonotone read
      → Included h h'
      → read h a ≡ some u
      → read h' a ≡ some u
  carry read h h' a u mono i e = ground (arith, mono h h' a i)

  pub next_step :
      {A V B W : Type 0} (read : Reader P A V) (read' : Reader P B W) (h h' : Memory P) (u : V)
      (w : W) (r : Option (A × Memory P)) (f : A → M P B)
      → Copied read h' u r
      → ((y : A) (h2 : Memory P)
          → Later h' h2
          → read (from h'.next h2) y ≡ some u
          → Copied read' h w (f y h2))
      → Copied read' h w (elim r [ none ↦ none | some (y, h2) ↦ f y h2 ])
  next_step read read' h h' u w none f c k = absurd c
  next_step read read' h h' u w (some (y, h2)) f c k = k y h2 c.0 c.1

  pub pure-IsCopy : {A : Type 0} → IsCopy (read_value {P = P} {A = A}) (λ x h. some (x, h))
  pure-IsCopy h x u v e = (Later-refl h v, e)

  -- The memory with a new variable.
  abbrev extended : Memory P → Object P → Memory P
  extended h o = record { next = h.next + 1; cell = update h.cell h.next o }

  Later-extended : (h : Memory P) (o : Object P) → IsValid h → Later h (extended h o)
  Later-extended h o v = record {
    grows = omega arith;
    valid = λ a le. ground (arith, v a);
    keeps = λ a lt. ground arith;
  }

  new-Copied :
      {A V : Type 0} (S : Storable P A) (read : Reader P A V) (h h1 : Memory P) (b : A) (u : V)
      → IsMonotone read
      → Later h h1
      → read (from h.next h1) b ≡ some u
      → Copied (read_pointer S read) h (some u) (some (some h1.next, extended h1 (S.inject b)))
  unfolding read_pointer
  new-Copied S read h h1 b u mono p e =
      let q = Later-extended h1 (S.inject b) p.valid in
      let h2 = extended h1 (S.inject b) in
      let there = from-Included h.next h1 h2 (Later-Included p.valid q) in
      let kept = carry read (from h.next h1) (from h.next h2) b u mono there e in
      (Later-trans p q, ground (arith, p.grows, S.project-inject b, kept))

  abbrev store_copy : {A : Type 0} → Storable P A → (A → M P A) → A → M P (Option ℕ)
  store_copy S into a = do b ← into a; q ← new S b; pure (some q)

  load_lem :
      {A : Type 0} (S : Storable P A) (p : ℕ) (a : A) (h : Memory P)
      → value_at S (h.cell p) ≡ some a
      → load S p h ≡ some (a, h)
  load_lem S p a h e = rw (load, e)

  pub copy_pointer-IsCopy :
      {A V : Type 0} (S : Storable P A) (read : Reader P A V) (into : A → M P A)
      → IsMonotone read
      → IsCopy read into
      → IsCopy (read_pointer S read) (copy_pointer S into)
  unfolding read_pointer
  copy_pointer-IsCopy S read into mono copies h none u v e = (Later-refl h v, e)
  copy_pointer-IsCopy S read into mono copies h (some p) u v e =
      elim (Option-cases (value_at S (h.cell p))) [
        | inl z ↦ let k = rw z at e in cc
        | inr (a, z) ↦ elim (Option-cases (read h a)) [
          | inl y ↦ let k = rw (z, y) at e in cc
          | inr (w, y) ↦
              let k = rw (z, y) at e in
              let same : some w ≡ u = ground arith in
              subst (λ t. Copied (read_pointer S read) h t (copy_pointer S into (some p) h)) same
                (subst
                  (λ r.
                    Copied (read_pointer S read) h (some w) (((λ _. r) >>= store_copy S into) h))
                  (sym (load_lem S p a h z))
                  (next_step read (read_pointer S read) h h w (some w) (into a h)
                    (λ b h1. some (some h1.next, extended h1 (S.inject b))) (copies h a w v y)
                    (λ b h1 p1 e1. new-Copied S read h h1 b w mono p1 e1)))
        ]
      ]

-- A reader and a copy function that fit.
pub record Copier (P : Platform) (A V : Type 0) : Type 0 where
  pub read : Reader P A V
  pub into : A → M P A
  pub mono : IsMonotone read
  pub copies : IsCopy read into

module _ {P : Platform} where
  abbrev pub plain : {A : Type 0} → Copier P A A
  plain = record {
    read = read_value;
    into = pure;
    mono = read_value-IsMonotone;
    copies = pure-IsCopy;
  }

  abbrev pub pointer : {A V : Type 0} → Storable P A → Copier P A V → Copier P (Option ℕ) (Option V)
  pointer S K = record {
    read = read_pointer S K.read;
    into = copy_pointer S K.into;
    mono = read_pointer-IsMonotone S K.read K.mono;
    copies = copy_pointer-IsCopy S K.read K.into K.mono K.copies;
  }

  -- The copy of a field, taken after the copies of other fields, and what then follows.
  pub field_step :
      {A V B W : Type 0} (K : Copier P A V) (read' : Reader P B W) (h h1 : Memory P) (x : A) (u : V)
      (w : W) (f : A → M P B)
      → IsValid h
      → Later h h1
      → K.read h x ≡ some u
      → ((y : A) (h2 : Memory P)
          → Later h h2
          → Later h1 h2
          → K.read (from h.next h2) y ≡ some u
          → Copied read' h w (f y h2))
      → Copied read' h w ((K.into x >>= f) h1)
  field_step K read' h h1 x u w f v p e k =
      next_step K.read read' h h1 u w (K.into x h1) f
        (K.copies h1 x u p.valid (carry K.read h h1 x u K.mono (Later-Included v p) e))
        (λ y h2 q e2. k y h2 (Later-trans p q) q (
          carry K.read (from h1.next h2) (from h.next h2) y u K.mono
            (from_mono h1.next h.next h2 p.grows) e2))

  -- What has been copied still reads the same after further copies.
  pub still :
      {A V : Type 0} (K : Copier P A V) (h : Memory P) {h1 h2 : Memory P} {y : A} {u : V}
      → Later h h1
      → Later h1 h2
      → K.read (from h.next h1) y ≡ some u
      → K.read (from h.next h2) y ≡ some u
  still K h {h1} {h2} {y} {u} p q e =
      carry K.read (from h.next h1) (from h.next h2) y u K.mono
        (from-Included h.next h1 h2 (Later-Included p.valid q)) e
