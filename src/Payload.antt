-- ===== src/Payload.antt =====
-- src/hawkbit-client.c: the buffer that collects a response.
pub mod Collects
use rauc_hawkbit_updater.Base.{ℕ, ◌+◌, ◌*◌, ◌%◌, ◌^◌, List, [], ◌∷◌, ◌++◌, take}
use rauc_hawkbit_updater.Services.{Chunk}

pub record RestPayload : Type 0 where
  pub payload : List ℕ
  pub size : ℕ

-- size_t arithmetic
abbrev pub u64 : ℕ → ℕ
u64 n = n % 2 ^ 64

abbrev pub zeros : ℕ → List ℕ
zeros ℕ.zero = []
zeros (ℕ.suc n) = 0 ∷ zeros n

-- g_malloc0(DEFAULT_CURL_REQUEST_BUFFER_SIZE)
abbrev pub empty_payload : RestPayload
empty_payload = record { payload = zeros 512; size = 0 }

-- g_realloc gives a buffer of `size + real_size + 1` bytes, a size_t: what is written past its end, of
-- the old bytes, the new ones and the closing NUL, is not in it. The result is the number of bytes
-- that were taken.
unfoldable pub curl_write_cb : Chunk → RestPayload → ℕ × RestPayload
curl_write_cb c p =
    let real_size = u64 (c.size * c.nmemb) in
    (
      real_size,
      record {
        payload =
            take (u64 (p.size + real_size + 1))
              (take p.size p.payload ++ (take real_size c.content ++ 0 ∷ []));
        size = u64 (p.size + real_size);
      },
    )

-- libcurl calls the function for each piece of the response.
unfoldable pub collect : List Chunk → RestPayload → RestPayload
unfolding curl_write_cb
collect [] p = p
collect (c ∷ cs) p = collect cs (curl_write_cb c p).1
