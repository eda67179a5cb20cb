-- ===== src/Binary/Sums.antt =====
-- src/hawkbit-client.c: reading a file piece by piece gives the checksum of its whole content.
use rauc_hawkbit_updater.Base.{
  ℕ, zero, suc, ◌≤◌, ◌<◌, true, false, ◌≡◌, refl, sym, ap, ◌∙◌, inl, inr, none, some, List, [], ◌∷◌,
  ◌++◌, take, drop, length, length-append, length-drop, take-append-drop, ltb, arith, Bool-cases,
}
use mathlib.Core.List.{append_assoc}
use rauc_hawkbit_updater.GError.{ok}
use rauc_hawkbit_updater.Services.{Checksum, File}
use rauc_hawkbit_updater.Binary.{buffer_size, fread, checksum_loop, get_file_checksum}

-- g_checksum_update documents that the pieces of a text may come in any number of calls.
pub record IsStreaming {C : Type 0} (sum : Checksum C) : Type 0 where
  pub update-nil : (c : C) → sum.update c [] ≡ c
  pub update-append :
      (c : C) (xs ys : List ℕ) → sum.update (sum.update c xs) ys ≡ sum.update c (xs ++ ys)

take-le : {A : Type 0} (n : ℕ) (xs : List A) → length (take n xs) ≤ n
take-le zero xs = omega arith
take-le (suc n) [] = omega arith
take-le (suc n) (x ∷ xs) = omega (arith, take-le n xs)

take-length-le : {A : Type 0} (n : ℕ) (xs : List A) → length (take n xs) ≤ length xs
take-length-le zero xs = omega arith
take-length-le (suc n) [] = omega arith
take-length-le (suc n) (x ∷ xs) = omega (arith, take-length-le n xs)

-- A short piece is the rest.
take-short : {A : Type 0} (n : ℕ) (xs : List A) → length (take n xs) < n → take n xs ≡ xs
take-short zero xs h = absurd (omega arith)
take-short (suc n) [] h = refl
take-short (suc n) (x ∷ xs) h = ap (λ l. x ∷ l) (take-short n xs (omega arith))

drop-length : {A : Type 0} (xs ys : List A) → drop (length xs) (xs ++ ys) ≡ ys
drop-length [] ys = refl
drop-length (x ∷ xs) ys = drop-length xs ys

module _ {C : Type 0} (sum : Checksum C) (l : IsStreaming sum) where
  abbrev faultless : List ℕ → File
  faultless content = record { content = content; fails_from = none }

  fread-rest :
      (pre rest : List ℕ)
      → fread (faultless (pre ++ rest)) (length pre) ≡ some (take buffer_size rest)
  unfolding fread
  fread-rest pre rest = rw (drop-length pre rest) refl

  short : (n : ℕ) → ltb n buffer_size ≡ true → n < buffer_size
  short n e = ground arith

  full : (n : ℕ) → ltb n buffer_size ≡ false → buffer_size ≤ n
  full n e = ground arith

  -- The loop's invariant: the context has taken the bytes before the position.
  checksum_loop-sum :
      (fuel : ℕ) (content pre rest : List ℕ)
      → content ≡ pre ++ rest
      → length rest < fuel
      → checksum_loop sum fuel (faultless content) (length pre) (sum.update sum.start pre)
        ≡ some (ok (sum.hex (sum.update sum.start content)))
  unfolding checksum_loop
  checksum_loop-sum zero content pre rest c f = absurd (omega arith)
  checksum_loop-sum (suc fuel) content pre rest c f =
      let buf = take buffer_size rest in
      elim (Bool-cases (ltb (length buf) buffer_size)) [
        | inl e ↦
            rw (c, fread-rest pre rest, checksum_loop, e, l.update-append sum.start pre buf)
              (rw (take-short buffer_size rest (short (length buf) e)) refl)
        | inr e ↦
            rw (c, fread-rest pre rest, checksum_loop, e, l.update-append sum.start pre buf)
              (rw (← length-append pre buf, ← c)
                (checksum_loop-sum fuel content (pre ++ buf) (drop buffer_size rest)
                  (rw
                    (
                      append_assoc pre buf (drop buffer_size rest),
                      take-append-drop buffer_size rest,
                    )
                    c)
                  (omega (
                    arith,
                    length-drop buffer_size rest,
                    full (length buf) e,
                    take-le buffer_size rest,
                    take-length-le buffer_size rest,
                  ))))
      ]

-- The checksum that is compared with hawkBit's is the one of the whole file, whatever its length:
-- the pieces of 4096 bytes are all taken, in order, and the loop ends. The file can be read, and a
-- checksum does not depend on the pieces.
pub get_file_checksum-whole :
    {C : Type 0} (sum : Checksum C) (content : List ℕ)
    → IsStreaming sum
    → get_file_checksum sum (record { content = content; fails_from = none })
      ≡ some (ok (sum.hex (sum.update sum.start content)))
unfolding get_file_checksum
get_file_checksum-whole sum content l =
    ap (λ c. checksum_loop sum (suc (length content)) (faultless sum l content) 0 c)
      (sym (l.update-nil sum.start))
    ∙ checksum_loop-sum sum l (suc (length content)) content [] content refl (omega arith)
