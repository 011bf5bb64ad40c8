-- ===== src/Utils/Arrays.antt =====
-- utils.ts: array_chunkify and concat_bytes.
use mulex_fk.Prelude.{
  ℕ, ◌+◌, ◌<◌, ◌≡◌, refl, ap, Option, some, List, [], ◌∷◌, ◌++◌, arith, length, length-append,
  length-replicate, replicate, replicate-append, append_assoc,
}
use mathlib.Core.List.{flatten}
use mulex_fk.Prelude.Chunks.{chunk_loop, IsCut, chunk_loop_total}
use mulex_fk.Prelude.Results.{Result, ok, ◌>>=◌}
use mulex_fk.Convert.Bytes.{set_bytes, set_bytes_at}

-- The loop has fuel for one round for each item and one more; `none` means that it needs more.
unfoldable pub array_chunkify {ℓ} : {A : Type ℓ} → List A → ℕ → Option (List (List A))
unfolding chunk_loop
array_chunkify items chunkSize = chunk_loop (length items + 1) items chunkSize 0

-- For a positive size the loop ends; its pieces give the items back in order, and all but the last,
-- which holds something, have that size.
pub array_chunkify-IsCut {ℓ} :
    {A : Type ℓ} (items : List A) (chunkSize : ℕ)
    → 0 < chunkSize
    → (cs : List (List A)) × (array_chunkify items chunkSize ≡ some cs)
      × IsCut chunkSize cs
      × (flatten cs ≡ items)
unfolding array_chunkify
array_chunkify-IsCut items chunkSize h =
    chunk_loop_total (length items + 1) items chunkSize 0 h (omega arith)

-- `chunks.reduce((s, a) => s + a.length, 0)`
total_size : ℕ → List (List ℕ) → ℕ
total_size s [] = s
total_size s (a ∷ chunks) = total_size (s + length a) chunks

-- `for(const chunk of chunks) { result.set(chunk, offset); offset += chunk.length; }`
copy_chunks : List ℕ → ℕ → List (List ℕ) → Result (List ℕ)
copy_chunks result offset [] = ok result
copy_chunks result offset (chunk ∷ chunks) = do
  result' ← set_bytes result chunk offset
  copy_chunks result' (offset + length chunk) chunks

unfoldable pub concat_bytes : List (List ℕ) → Result (List ℕ)
unfolding total_size copy_chunks
concat_bytes chunks = copy_chunks (replicate (total_size 0 chunks) 0) 0 chunks

total_size_lem :
    (s : ℕ) (chunks : List (List ℕ)) → total_size s chunks ≡ s + length (flatten chunks)
unfolding total_size flatten
total_size_lem s [] = omega arith
total_size_lem s (a ∷ chunks) =
    omega (arith, total_size_lem (s + length a) chunks, length-append a (flatten chunks))

copy_chunks_lem :
    (chunks : List (List ℕ)) (front : List ℕ) (offset : ℕ)
    → offset ≡ length front
    → copy_chunks (front ++ replicate (length (flatten chunks)) 0) offset chunks
      ≡ ok (front ++ flatten chunks)
unfolding copy_chunks flatten
copy_chunks_lem [] front offset e = refl
copy_chunks_lem (a ∷ chunks) front offset e =
    let rest : List ℕ = flatten chunks in
    let zeros : replicate (length (a ++ rest)) 0
        ≡ replicate (length a) 0 ++ replicate (length rest) 0 =
      replicate-append _ (length a) (length rest) 0 (length-append a rest) in
    let written =
      set_bytes_at (front ++ replicate (length (a ++ rest)) 0) front (replicate (length a) 0)
        (replicate (length rest) 0) a offset (ap (λ t. front ++ t) zeros) e
        (length-replicate (length a) 0) in
    let next =
      copy_chunks_lem chunks (front ++ a) (offset + length a)
        (omega (arith, length-append front a)) in
    rw (written, ← append_assoc, next) (ap ok (append_assoc front a rest))

-- concat_bytes never throws, and gives the chunks one after the other.
pub concat_bytes-flatten : (chunks : List (List ℕ)) → concat_bytes chunks ≡ ok (flatten chunks)
unfolding concat_bytes
concat_bytes-flatten chunks =
    let size : total_size 0 chunks ≡ length (flatten chunks) =
      omega (arith, total_size_lem 0 chunks) in
    rw size (copy_chunks_lem chunks [] 0 refl)
