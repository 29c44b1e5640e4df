-- ===== src/Files/Matching.antt =====
-- What `matches` of src/files/file-signatures.ts decides.
use tutor_app_back.Files.Signatures.{Signature, skip, agree, matches}
use tutor_app_back.Prelude.{
  ℕ, zero, suc, ◌+◌, ◌≡◌, refl, sym, ap, ◌∙◌, ◌↔◌, true, false, List, [], ◌∷◌, ◌++◌, arith, ltb,
  length, take, length-append, length-take,
}

agree-prefix : (bs xs : List ℕ) → agree bs xs ≡ true → (rest : List ℕ) × (xs ≡ bs ++ rest)
agree-prefix [] xs h = (xs, refl)
agree-prefix (b ∷ bs) [] h = absurd (cc)
agree-prefix (b ∷ bs) (x ∷ xs) h =
    let (rest, e) = agree-prefix bs xs (ground arith) in (rest, ground arith)

agree_prefix_append : (bs rest : List ℕ) → agree bs (bs ++ rest) ≡ true
agree_prefix_append [] rest = refl
agree_prefix_append (b ∷ bs) rest = ground (arith, agree_prefix_append bs rest)

append-take-skip : (n : ℕ) (xs : List ℕ) → xs ≡ take n xs ++ skip n xs
append-take-skip zero xs = refl
append-take-skip (suc n) [] = refl
append-take-skip (suc n) (x ∷ xs) = ap (λ t. x ∷ t) (append-take-skip n xs)

skip-append : (front rest : List ℕ) → skip (length front) (front ++ rest) ≡ rest
skip-append [] rest = refl
skip-append (x ∷ front) rest = skip-append front rest

matches-append :
    (front bytes rest : List ℕ) (n : ℕ)
    → length front ≡ n
    → matches (front ++ (bytes ++ rest)) (record { offset = n; bytes = bytes }) ≡ true
unfolding matches
matches-append front bytes rest n e =
    let here : skip n (front ++ (bytes ++ rest)) ≡ bytes ++ rest =
      rw (sym e) (skip-append front (bytes ++ rest)) in
    rw here (
      ground (
        arith,
        e,
        length-append front (bytes ++ rest),
        length-append bytes rest,
        agree_prefix_append bytes rest,
      ))

-- A file matches a signature exactly when its bytes are as many as the offset says, then the bytes of
-- the signature, then anything.
pub matches_iff :
    (buffer : List ℕ) (s : Signature)
    → (matches buffer s ≡ true) ↔ (
        (front : List ℕ) × (rest : List ℕ) × (length front ≡ s.offset)
        × (buffer ≡ front ++ (s.bytes ++ rest)))
unfolding matches
matches_iff buffer s = (
  λ h.
      let long : ltb (length buffer) (s.offset + length s.bytes) ≡ false = ground arith in
      let (rest, e) = agree-prefix s.bytes (skip s.offset buffer) (ground arith) in
      (
        take s.offset buffer,
        rest,
        ground (arith, length-take s.offset buffer),
        append-take-skip s.offset buffer ∙ ap (λ t. take s.offset buffer ++ t) e,
      ),
  λ (front, rest, n, e). rw e (matches-append front s.bytes rest s.offset n),
)
