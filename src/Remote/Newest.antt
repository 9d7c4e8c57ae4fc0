-- ===== src/Remote/Newest.antt =====
-- The rows of a page in the order of the query: sorted, none lost, and each converted.
use mathlib.Core.List.{Perm}
use mathlib.Core.List.Perm
use portcode.Common.{
  ℕ, zero, suc, ◌≤◌, ◌≡◌, refl, ap, ◌∙◌, true, false, List, [], ◌∷◌, inl, inr, arith, map,
  filter_map, Bool-cases, length, take, All, All-map, ℤ, pos, negsuc,
}
use portcode.Wire.{MessageRow}
use portcode.Remote.Messages.{
  StoredMessage, less, public_row, row_to_message, insert_by_seq, newest_first,
}

less-asym : (a b : ℤ) → less a b ≡ true → less b a ≡ false
less-asym (pos m) (pos n) h = ground arith
less-asym (pos m) (negsuc n) h = absurd cc
less-asym (negsuc m) (pos n) h = refl
less-asym (negsuc m) (negsuc n) h = ground arith

less-below : (a b c : ℤ) → less a b ≡ true → less a c ≡ false → less b c ≡ false
less-below (pos m) (pos n) (pos k) h e = ground arith
less-below (pos m) (pos n) (negsuc k) h e = refl
less-below (pos m) (negsuc n) c h e = absurd cc
less-below (negsuc m) b (pos k) h e = absurd cc
less-below (negsuc m) (pos n) (negsuc k) h e = refl
less-below (negsuc m) (negsuc n) (negsuc k) h e = ground arith

module _ {A : Type 0} where
  pub take-take : (n m : ℕ) (xs : List A) → n ≤ m → take n (take m xs) ≡ take n xs
  take-take zero m xs h = refl
  take-take (suc n) zero xs h = absurd (omega arith)
  take-take (suc n) (suc m) [] h = refl
  take-take (suc n) (suc m) (x ∷ xs) h = ap (◌∷◌ x) (take-take n m xs (omega arith))

  pub take-all : (n : ℕ) (xs : List A) → length xs ≤ n → take n xs ≡ xs
  take-all zero [] h = refl
  take-all zero (x ∷ xs) h = absurd (omega arith)
  take-all (suc n) [] h = refl
  take-all (suc n) (x ∷ xs) h = ap (◌∷◌ x) (take-all n xs (omega arith))

  pub All-take : (P : A → Type 0) (n : ℕ) (xs : List A) → All P xs → All P (take n xs)
  All-take P zero xs h = tt
  All-take P (suc n) [] h = tt
  All-take P (suc n) (x ∷ xs) (p, h) = (p, All-take P n xs h)

module _ {Value : Type 0} where
  -- No row is older than one behind it.
  abbrev pub NewestFirst : List (StoredMessage Value) → Type 0
  NewestFirst [] = Unit
  NewestFirst (m ∷ ms) = All (λ n. less m.row.seq n.row.seq ≡ false) ms × NewestFirst ms

  abbrev pub Converts : StoredMessage Value → Type 0
  Converts m = m.converts ≡ true

  All-insert_by_seq :
      (P : StoredMessage Value → Type 0) (m : StoredMessage Value) (ns : List (StoredMessage Value))
      → P m
      → All P ns
      → All P (insert_by_seq m ns)
  unfolding insert_by_seq
  All-insert_by_seq P m [] p h = (p, tt)
  All-insert_by_seq P m (n ∷ ns) p (q, h) = elim (Bool-cases (less n.row.seq m.row.seq)) [
    | inl e ↦ rw e (p, (q, h))
    | inr e ↦ rw e (q, All-insert_by_seq P m ns p h)
  ]

  pub All-newest_first :
      (P : StoredMessage Value → Type 0) (ms : List (StoredMessage Value))
      → All P ms
      → All P (newest_first ms)
  unfolding newest_first
  All-newest_first P [] h = tt
  All-newest_first P (m ∷ ms) (p, h) =
      All-insert_by_seq P m (newest_first ms) p (All-newest_first P ms h)

  insert_by_seq-NewestFirst :
      (m : StoredMessage Value) (ns : List (StoredMessage Value))
      → NewestFirst ns
      → NewestFirst (insert_by_seq m ns)
  unfolding insert_by_seq
  insert_by_seq-NewestFirst m [] h = (tt, tt)
  insert_by_seq-NewestFirst m (n ∷ ns) (a, h) = elim (Bool-cases (less n.row.seq m.row.seq)) [
    | inl e ↦ rw e (
      (
        less-asym n.row.seq m.row.seq e,
        All-map (λ q k. less-below n.row.seq m.row.seq q.row.seq e k) ns a,
      ),
      (a, h),
    )
    | inr e ↦ rw e (
      All-insert_by_seq (λ q. less n.row.seq q.row.seq ≡ false) m ns e a,
      insert_by_seq-NewestFirst m ns h,
    )
  ]

  pub newest_first-NewestFirst : (ms : List (StoredMessage Value)) → NewestFirst (newest_first ms)
  unfolding newest_first
  newest_first-NewestFirst [] = tt
  newest_first-NewestFirst (m ∷ ms) =
      insert_by_seq-NewestFirst m (newest_first ms) (newest_first-NewestFirst ms)

  insert_by_seq-Perm :
      (m : StoredMessage Value) (ns : List (StoredMessage Value))
      → Perm (insert_by_seq m ns) (m ∷ ns)
  unfolding insert_by_seq
  insert_by_seq-Perm m [] = Perm.refl (m ∷ [])
  insert_by_seq-Perm m (n ∷ ns) = elim (Bool-cases (less n.row.seq m.row.seq)) [
    | inl e ↦ rw e (Perm.refl (m ∷ n ∷ ns))
    | inr e ↦ rw e (Perm.trans (Perm.cons n (insert_by_seq-Perm m ns)) (Perm.swap m n ns))
  ]

  pub newest_first-Perm : (ms : List (StoredMessage Value)) → Perm (newest_first ms) ms
  unfolding newest_first
  newest_first-Perm [] = Perm.refl []
  newest_first-Perm (m ∷ ms) =
      Perm.trans (insert_by_seq-Perm m (newest_first ms)) (Perm.cons m (newest_first-Perm ms))

  insert_by_seq-length :
      (m : StoredMessage Value) (ns : List (StoredMessage Value))
      → length (insert_by_seq m ns) ≡ suc (length ns)
  unfolding insert_by_seq
  insert_by_seq-length m [] = refl
  insert_by_seq-length m (n ∷ ns) = elim (Bool-cases (less n.row.seq m.row.seq)) [
    | inl e ↦ rw e refl
    | inr e ↦ rw e (ap suc (insert_by_seq-length m ns))
  ]

  pub newest_first-length : (ms : List (StoredMessage Value)) → length (newest_first ms) ≡ length ms
  unfolding newest_first
  newest_first-length [] = refl
  newest_first-length (m ∷ ms) =
      insert_by_seq-length m (newest_first ms) ∙ ap suc (newest_first-length ms)

  abbrev pub message_of : StoredMessage Value → MessageRow Value
  message_of m = public_row m.row

  pub filter_map-Converts :
      (ms : List (StoredMessage Value))
      → All Converts ms
      → filter_map row_to_message ms ≡ map message_of ms
  unfolding row_to_message
  filter_map-Converts [] h = refl
  filter_map-Converts (m ∷ ms) (p, h) = rw (p, filter_map-Converts ms h) refl
