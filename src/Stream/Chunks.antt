-- ===== src/Stream/Chunks.antt =====
-- The division of a frame into chunks (sendChunkedFrame and sendChunkData of
-- src/stream_manager.cpp), for any chunk size.
use Prim.Native.Nat.add
use cherupi_v4l.Base.{
  List, [], ap, ap₂, arith, drop, length, length-drop, length-take, min, refl, suc, sym, take,
  take-append-drop, zero, ℕ, ◌*◌, ◌++◌, ◌+◌, ◌-◌, ◌/◌, ◌<◌, ◌∙◌, ◌∷◌, ◌≡◌, ◌≤◌,
}

abbrev pub chunk_size : ℕ
chunk_size = 32768

-- (size + CHUNK_SIZE - 1) / CHUNK_SIZE
unfoldable pub total_chunks : ℕ → ℕ → ℕ
total_chunks chunk size = (size + chunk - 1) / chunk

-- data[offset, offset + min(CHUNK_SIZE, size - offset)) for offset = index * CHUNK_SIZE.
unfoldable pub chunk_payload {ℓ} : {A : Type ℓ} → ℕ → List A → ℕ → List A
chunk_payload chunk bytes index =
    let offset = index * chunk in take (min chunk (length bytes - offset)) (drop offset bytes)

-- The payloads of `count` chunks from chunk `index` on, joined.
unfoldable pub joined {ℓ} : {A : Type ℓ} → ℕ → List A → ℕ → ℕ → List A
joined chunk bytes index zero = []
joined chunk bytes index (suc count) =
    chunk_payload chunk bytes index ++ joined chunk bytes (suc index) count

drop-nil {ℓ} : {A : Type ℓ} (n : ℕ) → drop {A = A} n [] ≡ []
drop-nil zero = refl
drop-nil (suc n) = refl

drop-all {ℓ} : {A : Type ℓ} (n : ℕ) (xs : List A) → length xs ≤ n → drop n xs ≡ []
drop-all zero [] h = refl
drop-all zero (x ∷ xs) h = absurd (omega arith)
drop-all (suc n) [] h = refl
drop-all (suc n) (x ∷ xs) h = drop-all n xs (omega arith)

module _ {ℓ} {A : Type ℓ} where
  drop-drop : (m n : ℕ) (xs : List A) → drop n (drop m xs) ≡ drop (m + n) xs
  drop-drop zero n xs = rw (add.zero n)
  drop-drop (suc m) n [] = drop-nil n ∙ sym (drop-nil (suc m + n))
  drop-drop (suc m) n (x ∷ xs) = rw (add.suc m n) (drop-drop m n xs)

  take-min : (c : ℕ) (xs : List A) → take (min c (length xs)) xs ≡ take c xs
  take-min zero xs = let e : min 0 (length xs) ≡ 0 = omega arith in ap (λ k. take k xs) e
  take-min (suc c) [] = let e : min (suc c) 0 ≡ 0 = omega arith in ap (λ k. take {A = A} k []) e
  take-min (suc c) (x ∷ xs) =
      let e : min (suc c) (suc (length xs)) ≡ suc (min c (length xs)) = omega arith in
      ap (λ k. take k (x ∷ xs)) e ∙ ap (◌∷◌ x) (take-min c xs)

  chunk_payload-drop :
      (chunk index : ℕ) (bytes : List A)
      → chunk_payload chunk bytes index ++ drop (suc index * chunk) bytes
        ≡ drop (index * chunk) bytes
  unfolding chunk_payload
  chunk_payload-drop chunk index bytes =
      let ys : List A = drop (index * chunk) bytes in
      let front : take (min chunk (length bytes - index * chunk)) ys ≡ take chunk ys =
        ap (λ n. take (min chunk n) ys) (sym (length-drop (index * chunk) bytes))
        ∙ take-min chunk ys in
      let next : index * chunk + chunk ≡ suc index * chunk = omega arith in
      let back : drop (suc index * chunk) bytes ≡ drop chunk ys =
        ap (λ n. drop n bytes) (sym next) ∙ sym (drop-drop (index * chunk) chunk bytes) in
      ap₂ (λ a b. a ++ b) front back ∙ take-append-drop chunk ys

  joined-drop :
      (chunk : ℕ) (bytes : List A) (count index : ℕ)
      → length bytes ≤ (index + count) * chunk
      → joined chunk bytes index count ≡ drop (index * chunk) bytes
  unfolding joined
  joined-drop chunk bytes zero index h =
      let e : (index + 0) * chunk ≡ index * chunk = ap (λ (k : ℕ). k * chunk) (omega arith) in
      sym (drop-all (index * chunk) bytes (omega arith))
  joined-drop chunk bytes (suc count) index h =
      ap (λ rest. chunk_payload chunk bytes index ++ rest)
        (joined-drop chunk bytes count (suc index) (omega arith))
      ∙ chunk_payload-drop chunk index bytes

total_chunks-enough : (chunk size : ℕ) → 0 < chunk → size ≤ total_chunks chunk size * chunk
unfolding total_chunks
total_chunks-enough chunk size h = grind arith

total_chunks-no_more :
    (chunk size index : ℕ) → 0 < chunk → index < total_chunks chunk size → index * chunk < size
unfolding total_chunks
total_chunks-no_more chunk size index h lt = grind arith

-- For a positive chunk size, the payloads of the chunks 0, 1, ... of a frame, joined in this order,
-- are the frame's bytes.
pub joined-all {ℓ} :
    {A : Type ℓ} (chunk : ℕ) (bytes : List A)
    → 0 < chunk
    → joined chunk bytes 0 (total_chunks chunk (length bytes)) ≡ bytes
joined-all chunk bytes h =
    joined-drop chunk bytes (total_chunks chunk (length bytes)) 0
      (omega (arith, total_chunks-enough chunk (length bytes) h))
    ∙ (let e : 0 * chunk ≡ 0 = omega arith in ap (λ k. drop k bytes) e)

-- For a positive chunk size, every chunk of a frame carries at least one byte and at most the chunk
-- size, and every chunk but the last carries exactly the chunk size.
chunk_payload-size {ℓ} :
    {A : Type ℓ} (chunk : ℕ) (bytes : List A) (index : ℕ)
    → 0 < chunk
    → index < total_chunks chunk (length bytes)
    → (0 < length (chunk_payload chunk bytes index))
      × (length (chunk_payload chunk bytes index) ≤ chunk)
      × (suc index < total_chunks chunk (length bytes)
          → length (chunk_payload chunk bytes index) ≡ chunk)
unfolding chunk_payload
chunk_payload-size chunk bytes index h lt =
    let rest = length-drop (index * chunk) bytes in
    let size =
      length-take (min chunk (length bytes - index * chunk)) (drop (index * chunk) bytes) in
    let inside = total_chunks-no_more chunk (length bytes) index h lt in
    (
      omega (arith, size, rest),
      omega (arith, size, rest),
      λ more.
          let further = total_chunks-no_more chunk (length bytes) (suc index) h more in
          omega (arith, size, rest),
    )
