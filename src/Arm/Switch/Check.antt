-- ===== src/Arm/Switch/Check.antt =====
-- What a tree finds for the words that have known bits under a mask. A check runs through the tree,
-- keeps the bits that are known on the way, and leaves out the ways that they rule out.
use substitute.Common.{
  ℕ, suc, ◌≡◌, refl, ◌∙◌, sym, arith, List, [], ◌∷◌, Bool, true, false, ◌&&◌, ◌||◌, not, some,
  Option, bit_and, bit_or, ◌>>>◌, ◌<<<◌, ◌==◌, inl, inr, Bool-cases, &&_split, ==_iff, ==_refl, ◌≢◌,
}
use substitute.Common.Bits.{below_all, below_all_at, bit_and_high}
use substitute.Common.Bits.Mask.{masks_join, masks_agree, mask_within, bit_and_le}
use substitute.Arm.Switch.{Node, Cases, has, find, find_case, go, switch, test, on, end, ◌▹◌}

-- No word has `value` under `mask` and `v` under `m`; every word that has the one has the other.
abbrev pub apart : ℕ → ℕ → ℕ → ℕ → Bool
apart mask value m v = not (bit_and v mask == bit_and value m)

abbrev pub forced : ℕ → ℕ → ℕ → ℕ → Bool
forced mask value m v = (bit_and mask m == m) && (bit_and value m == v)

apart-false :
    (op mask value m v : ℕ)
    → bit_and op mask ≡ value
    → bit_and op m ≡ v
    → apart mask value m v ≡ false
apart-false op mask value m v known read = rw (masks_agree op mask value m v known read, ==_refl)

pub forced-read :
    (op mask value m v : ℕ)
    → bit_and op mask ≡ value
    → forced mask value m v ≡ true
    → bit_and op m ≡ v
forced-read op mask value m v known h =
    let both = &&_split _ _ h in
    mask_within op mask value m v known ((==_iff _ _).0 both.0) ∙ (==_iff _ _).0 both.1

other_true : (a b : Bool) → a ≡ false → (a || b) ≡ true → b ≡ true
other_true a b h k = ground arith

by_test : false ≢ true
by_test h = cc

pub apart-read :
    (op mask value m v : ℕ)
    → bit_and op mask ≡ value
    → apart mask value m v ≡ true
    → bit_and op m ≢ v
apart-read op mask value m v known h read =
    by_test (sym (apart-false op mask value m v known read) ∙ h)

unforced :
    (op mask value m v : ℕ)
    → bit_and op mask ≡ value
    → (bit_and op m == v) ≡ false
    → forced mask value m v ≡ false
unforced op mask value m v known h = elim (Bool-cases (forced mask value m v)) [
  | inl f ↦ absurd (by_test (sym h ∙ (==_iff _ _).1 (forced-read op mask value m v known f)))
  | inr f ↦ f
]

unfoldable pub all_of : List ℕ → (ℕ → Bool) → Bool
all_of [] p = true
all_of (l ∷ ls) p = p l && all_of ls p

all_of-has :
    (ls : List ℕ) (p : ℕ → Bool) (s : ℕ) → all_of ls p ≡ true → has ls s ≡ true → p s ≡ true
unfolding all_of
all_of-has [] p s h k = cc
all_of-has (l ∷ ls) p s h k = ground (arith, all_of-has ls p s)

module _ {A : Type 0} where
  unfoldable pub labelled : Cases A → ℕ → Bool
  labelled end s = false
  labelled (on ls t ▹ cs) s = has ls s || labelled cs s

  unfoldable mutual
    unfolding all_of labelled below_all

    pub check : Node A → (A → ℕ → ℕ → Bool) → ℕ → ℕ → Bool
    check (go h) ok mask value = ok h mask value
    check (switch n m cs) ok mask value =
        below_all (suc m) (labelled cs) && check_cases cs ok n m mask value
    check (test m v a b) ok mask value =
        (apart mask value m v || check a ok (bit_or mask m) (bit_or value v))
        && (forced mask value m v || check b ok mask value)

    pub check_cases : Cases A → (A → ℕ → ℕ → Bool) → ℕ → ℕ → ℕ → ℕ → Bool
    check_cases end ok n m mask value = true
    check_cases (on ls t ▹ cs) ok n m mask value =
        all_of ls (λ l.
          apart mask value (m <<< n) (l <<< n)
          || check t ok (bit_or mask (m <<< n)) (bit_or value (l <<< n)))
        && check_cases cs ok n m mask value

  -- The tree comes to a handler, which is as the check asks for bits that the word has.
  pub record Finds (o : Option A) (ok : A → ℕ → ℕ → Bool) (op : ℕ) : Type 0 where
    pub insn : A
    pub mask : ℕ
    pub found : o ≡ some insn
    pub checked : ok insn mask (bit_and op mask) ≡ true

  mutual
    unfolding find check labelled

    pub check-Finds :
        (t : Node A) (ok : A → ℕ → ℕ → Bool) (mask value op : ℕ)
        → bit_and op mask ≡ value
        → check t ok mask value ≡ true
        → Finds (find t op) ok op
    check-Finds (go h) ok mask value op known c = record {
      insn = h;
      mask = mask;
      found = refl;
      checked = rw known c;
    }
    check-Finds (switch n m cs) ok mask value op known c =
        let both = &&_split _ _ c in
        let s = bit_and (op >>> n) m in
        cases-Finds cs ok n m mask value op s known (bit_and_high n m op)
          (below_all_at (suc m) (labelled cs) s both.0 (omega (arith, bit_and_le (op >>> n) m)))
          both.1
    check-Finds (test m v a b) ok mask value op known c =
        let both = &&_split _ _ c in
        elim (Bool-cases (bit_and op m == v)) [
          | inl e ↦
              let read = (==_iff _ _).0 e in
              rw e (
                check-Finds a ok (bit_or mask m) (bit_or value v) op
                  (masks_join op mask value m v known read)
                  (other_true _ _ (apart-false op mask value m v known read) both.0))
          | inr e ↦ rw e (
              check-Finds b ok mask value op known
                (other_true _ _ (unforced op mask value m v known e) both.1))
        ]

    cases-Finds :
        (cs : Cases A) (ok : A → ℕ → ℕ → Bool) (n m mask value op s : ℕ)
        → bit_and op mask ≡ value
        → bit_and op (m <<< n) ≡ s <<< n
        → labelled cs s ≡ true
        → check_cases cs ok n m mask value ≡ true
        → Finds (find_case cs s op) ok op
    cases-Finds end ok n m mask value op s known read l c = cc
    cases-Finds (on ls t ▹ cs) ok n m mask value op s known read l c =
        let p : ℕ → Bool = λ l.
          apart mask value (m <<< n) (l <<< n)
          || check t ok (bit_or mask (m <<< n)) (bit_or value (l <<< n)) in
        let both = &&_split (all_of ls p) (check_cases cs ok n m mask value) c in
        elim (Bool-cases (has ls s)) [
          | inl e ↦ rw e (
              check-Finds t ok (bit_or mask (m <<< n)) (bit_or value (s <<< n)) op
                (masks_join op mask value (m <<< n) (s <<< n) known read)
                (other_true _ _ (apart-false op mask value (m <<< n) (s <<< n) known read)
                  (all_of-has ls p s both.0 e)))
          | inr e ↦
              rw e (cases-Finds cs ok n m mask value op s known read (other_true _ _ e l) both.1)
        ]
