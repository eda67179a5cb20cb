-- ===== src/Payload/Collects.antt =====
-- src/hawkbit-client.c: the buffer holds the response, and its size is exact.
use rauc_hawkbit_updater.Base.{
  ℕ, ◌+◌, ◌*◌, ◌^◌, ◌<◌, ◌≡◌, refl, ap, List, [], ◌∷◌, ◌++◌, take, length, length-append, arith,
}
use mathlib.Core.List.{append-nil, append_assoc}
use rauc_hawkbit_updater.Services.{Chunk}
use rauc_hawkbit_updater.Payload.{RestPayload, u64, empty_payload, curl_write_cb, collect}

-- The bytes that libcurl hands over.
abbrev pub body : List Chunk → List ℕ
body [] = []
body (c ∷ cs) = c.content ++ body cs

-- libcurl documents that a piece has size * nmemb bytes.
abbrev pub AreSized : List Chunk → Type 0
AreSized [] = Unit
AreSized (c ∷ cs) = (length c.content ≡ c.size * c.nmemb) × AreSized cs

-- What the buffer holds: the bytes so far, counted, and the closing NUL.
pub record Holds (bytes : List ℕ) (p : RestPayload) : Type 0 where
  pub counted : p.size ≡ length bytes
  pub stored : p.payload ≡ bytes ++ 0 ∷ []

take-length : (xs ys : List ℕ) → take (length xs) (xs ++ ys) ≡ xs
take-length [] ys = refl
take-length (x ∷ xs) ys = ap (λ l. x ∷ l) (take-length xs ys)

take-all : (xs : List ℕ) → take (length xs) xs ≡ xs
take-all [] = refl
take-all (x ∷ xs) = ap (λ l. x ∷ l) (take-all xs)

take-whole : (xs : List ℕ) (n : ℕ) → n ≡ length xs → take n xs ≡ xs
take-whole xs n h = rw h (take-all xs)

-- One call, on a buffer whose counted bytes are `bytes`.
curl_write_cb-Holds :
    (c : Chunk) (p : RestPayload) (bytes : List ℕ)
    → length c.content ≡ c.size * c.nmemb
    → p.size ≡ length bytes
    → take (length bytes) p.payload ≡ bytes
    → length bytes + length c.content + 1 < 2 ^ 64
    → (Holds (bytes ++ c.content) (curl_write_cb c p).1)
      × ((curl_write_cb c p).0 ≡ length c.content)
unfolding curl_write_cb
curl_write_cb-Holds c p bytes sized counted stored fits = (
  record {
    counted = rw (real, counted, length-append bytes c.content) (omega arith);
    stored =
        rw (real, counted, stored, take-all c.content, append_assoc bytes c.content (0 ∷ []))
          (take-whole (bytes ++ (c.content ++ 0 ∷ [])) _ (
            omega (
              arith,
              length-append bytes (c.content ++ 0 ∷ []),
              length-append c.content (0 ∷ []),
            )));
  },
  real,
)
  where
    real : u64 (c.size * c.nmemb) ≡ length c.content
    real = rw (← sized) (omega arith)

collect-Holds :
    (cs : List Chunk) (p : RestPayload) (bytes : List ℕ)
    → AreSized cs
    → Holds bytes p
    → length bytes + length (body cs) + 1 < 2 ^ 64
    → Holds (bytes ++ body cs) (collect cs p)
unfolding collect
collect-Holds [] p bytes sized h fits = rw append-nil h
collect-Holds (c ∷ cs) p bytes sized h fits = rw (← append_assoc bytes c.content (body cs)) (
    collect-Holds cs (curl_write_cb c p).1 (bytes ++ c.content) sized.1
      (curl_write_cb-Holds c p bytes sized.0 h.counted (rw h.stored (take-length bytes (0 ∷ [])))
        (omega (arith, length-append c.content (body cs)))).0
      (omega (arith, length-append c.content (body cs), length-append bytes c.content)))

curl_write_cb-takes_all :
    (c : Chunk) (p : RestPayload)
    → length c.content ≡ c.size * c.nmemb
    → length c.content < 2 ^ 64
    → (curl_write_cb c p).0 ≡ length c.content
unfolding curl_write_cb
curl_write_cb-takes_all c p sized fits = rw (← sized) (omega arith)

-- Each call reports its piece as taken whole.
abbrev pub AreTaken : List Chunk → RestPayload → Type 0
AreTaken [] p = Unit
AreTaken (c ∷ cs) p = ((curl_write_cb c p).0 ≡ length c.content) × AreTaken cs (curl_write_cb c p).1

collect-AreTaken :
    (cs : List Chunk) (p : RestPayload)
    → AreSized cs
    → length (body cs) + 1 < 2 ^ 64
    → AreTaken cs p
collect-AreTaken [] p sized fits = tt
collect-AreTaken (c ∷ cs) p sized fits = (
  curl_write_cb-takes_all c p sized.0 (omega (arith, length-append c.content (body cs))),
  collect-AreTaken cs (curl_write_cb c p).1 sized.1
      (omega (arith, length-append c.content (body cs))),
)

-- Whatever pieces of size * nmemb bytes a response comes in, and at least one, the buffer ends up
-- with its bytes in order and a closing NUL, and the size is their number, as long as they and the
-- NUL fit a size_t; and each piece is reported as taken whole, since libcurl takes a transfer for
-- aborted otherwise.
pub collect-body :
    (c : Chunk) (cs : List Chunk)
    → AreSized (c ∷ cs)
    → length (body (c ∷ cs)) + 1 < 2 ^ 64
    → Holds (body (c ∷ cs)) (collect (c ∷ cs) empty_payload) × AreTaken (c ∷ cs) empty_payload
unfolding collect
collect-body c cs sized fits = (
  collect-Holds cs (curl_write_cb c empty_payload).1 c.content sized.1
      (curl_write_cb-Holds c empty_payload [] sized.0 refl refl
        (omega (arith, length-append c.content (body cs)))).0
      (omega (arith, length-append c.content (body cs))),
  collect-AreTaken (c ∷ cs) empty_payload sized fits,
)
