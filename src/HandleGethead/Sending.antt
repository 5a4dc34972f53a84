-- ===== src/HandleGethead/Sending.antt =====
-- The body of a GET is as long as its Content-Length.
use dav_server_rs.Common.{
  ℕ, zero, suc, ◌+◌, ◌-◌, ◌≤◌, ◌≡◌, ◌≢◌, refl, none, some, [], ◌∷◌, Result, ok, Bytes, length,
  concat, min, arith, length-append, inl, inr, Result-cases, length-zeros,
}
use dav_server_rs.Errors.{ErrorKind}
use dav_server_rs.HandleGethead.{chunk, send_range}

-- A chunk is not empty, and not longer than what is left, if what was read is not.
chunk_bounds :
    (count : ℕ) (buf : Bytes)
    → 1 ≤ count
    → length buf ≤ count
    → (1 ≤ length (chunk count buf)) × (length (chunk count buf) ≤ count)
unfolding chunk
chunk_bounds count [] h e = ground (arith, length-zeros count, length-zeros 4096)
chunk_bounds count (b ∷ buf) h e = ground arith

-- What is documented of `read_bytes`: it returns at most as many bytes as it is asked for.
abbrev pub Reads : (ℕ → ℕ → Result Bytes ErrorKind) → Type 0
Reads read = (pos n : ℕ) (buf : Bytes) → read pos n ≡ ok buf → length buf ≤ n

module _ (read : ℕ → ℕ → Result Bytes ErrorKind) (read_buf_size : ℕ) where
  -- With a fuel of the count of the range the loop ends: each round sends a byte at least, also where
  -- the file has been truncated or the buffer has no size. It never sends more than the count, and
  -- exactly the count if no read fails.
  pub send_range_lem :
      (fuel curpos count : ℕ)
      → Reads read
      → count ≤ fuel
      → (send_range read read_buf_size fuel curpos count).1 ≢ none
        × (length (concat (send_range read read_buf_size fuel curpos count).0) ≤ count)
        × ((send_range read read_buf_size fuel curpos count).1 ≡ some (ok tt)
            → length (concat (send_range read read_buf_size fuel curpos count).0) ≡ count)
  unfolding send_range
  send_range_lem fuel curpos zero h e = (λ c. cc, omega arith, λ _. refl)
  send_range_lem zero curpos (suc c) h e = absurd (ground arith)
  send_range_lem (suc fuel) curpos (suc c) h e =
      elim (Result-cases (read curpos (min (suc c) read_buf_size))) [
        | inr (fault, r) ↦ rw (r, send_range) (λ c. cc, omega arith, λ c. cc)
        | inl (found, r) ↦
            let bound = h curpos (min (suc c) read_buf_size) found r in
            let buf = chunk (suc c) found in
            let (grows, fits) = chunk_bounds (suc c) found (omega arith) (omega arith) in
            let (ends, most, all) =
              send_range_lem fuel (curpos + length buf) (suc c - length buf) h (omega arith) in
            let both = length-append buf (
              concat
                (send_range read read_buf_size fuel (curpos + length buf)
                  (suc c - length buf)).0) in
            rw (r, send_range) (ends, omega arith, λ o. (let rest = all o in omega arith))
      ]
