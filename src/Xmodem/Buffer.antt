-- ===== src/Xmodem/Buffer.antt =====
-- Reads and writes of a packet buffer that is cut into the parts in front, under and behind them.
use libmodem.Prelude.{
  ℕ, zero, suc, ◌+◌, ◌≤◌, ◌≡◌, refl, sym, ap, ◌∙◌, true, some, List, [], ◌∷◌, ◌++◌, length,
  length-append, take, drop, leb, arith, append_assoc,
}
use libmodem.Serial.Primitives.{Serprim}
use libmodem.Xmodem.Session.{Session, ok, slice, overwrite, load, store}

pub take-append : (xs ys : List ℕ) (n : ℕ) → n ≡ length xs → take n (xs ++ ys) ≡ xs
take-append [] ys zero e = refl
take-append [] ys (suc n) e = absurd (omega arith)
take-append (x ∷ xs) ys zero e = absurd (omega arith)
take-append (x ∷ xs) ys (suc n) e = ap (λ t. x ∷ t) (take-append xs ys n (omega arith))

pub drop-append : (xs ys : List ℕ) (n : ℕ) → n ≡ length xs → drop n (xs ++ ys) ≡ ys
drop-append [] ys zero e = refl
drop-append [] ys (suc n) e = absurd (omega arith)
drop-append (x ∷ xs) ys zero e = absurd (omega arith)
drop-append (x ∷ xs) ys (suc n) e = drop-append xs ys n (omega arith)

pub take-all : (n : ℕ) (xs : List ℕ) → length xs ≤ n → take n xs ≡ xs
take-all zero [] h = refl
take-all zero (x ∷ xs) h = absurd (omega arith)
take-all (suc n) [] h = refl
take-all (suc n) (x ∷ xs) h = ap (λ t. x ∷ t) (take-all n xs (omega arith))

pub take-take : (m n : ℕ) (xs : List ℕ) → m ≤ n → take m (take n xs) ≡ take m xs
take-take zero n xs h = refl
take-take (suc m) zero xs h = absurd (omega arith)
take-take (suc m) (suc n) [] h = refl
take-take (suc m) (suc n) (x ∷ xs) h = ap (λ t. x ∷ t) (take-take m n xs (omega arith))

leb_of_le : (a b : ℕ) → a ≤ b → leb a b ≡ true
leb_of_le a b h = ground arith

-- The middle of a buffer is read.
pub slice-append :
    (front mid back : List ℕ) (offset size : ℕ)
    → offset ≡ length front
    → size ≡ length mid
    → slice (front ++ (mid ++ back)) offset size ≡ some mid
slice-append front mid back offset size e f =
    let fits : offset + size ≤ length (front ++ (mid ++ back)) =
      omega (arith, length-append {0} front (mid ++ back), length-append {0} mid back) in
    rw (
      leb_of_le (offset + size) _ fits,
      drop-append front (mid ++ back) offset e,
      take-append mid back size f,
    )

-- The middle of a buffer is replaced.
pub overwrite-append :
    (front mid back new : List ℕ) (offset : ℕ)
    → offset ≡ length front
    → length new ≡ length mid
    → overwrite (front ++ (mid ++ back)) offset new ≡ some (front ++ (new ++ back))
overwrite-append front mid back new offset e f =
    let fits : offset + length new ≤ length (front ++ (mid ++ back)) =
      omega (arith, length-append {0} front (mid ++ back), length-append {0} mid back) in
    let skip : offset + length new ≡ length (front ++ mid) =
      omega (arith, length-append {0} front mid) in
    rw (leb_of_le (offset + length new) _ fits, take-append front (mid ++ back) offset e)
      (ap (λ t. some (front ++ (new ++ t)))
        (ap (drop (offset + length new)) (sym (append_assoc front mid back))
          ∙ drop-append (front ++ mid) back (offset + length new) skip))

-- A session by its parts.
abbrev pub at : (P : Serprim) {C : Type 0} → List ℕ → C → P.Port → Session P C
at P b c p = record { buffer = b; chan = c; port = p }

module _ {P : Serprim} {C : Type 0} (c : C) (p : P.Port) (front mid back : List ℕ)
    (offset : ℕ) where
  pub load_ok :
      (size : ℕ)
      → offset ≡ length front
      → size ≡ length mid
      → load offset size (at P (front ++ (mid ++ back)) c p)
        ≡ ok mid (at P (front ++ (mid ++ back)) c p)
  unfolding load
  load_ok size e f = rw (slice-append front mid back offset size e f, load)

  pub store_ok :
      (new : List ℕ)
      → offset ≡ length front
      → length new ≡ length mid
      → store offset new (at P (front ++ (mid ++ back)) c p)
        ≡ ok tt (at P (front ++ (new ++ back)) c p)
  unfolding store
  store_ok new e f = rw (overwrite-append front mid back new offset e f, store)
