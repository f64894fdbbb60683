-- ===== src/Chunking/Bounds.antt =====
-- How long the chunks are.
use citra_flows.Common.{
  ℕ, zero, suc, ◌+◌, ◌≤◌, ◌≡◌, refl, sym, subst, ◌⊎◌, inl, inr, List, [], ◌∷◌, ◌++◌, length,
  length-append, ltb, arith, All, if_ind_eq, ltb-false→le,
}
use citra_flows.Value.{ℤ, pos, negsuc}
use citra_flows.Value.Laws.{length-strip}
use citra_flows.Chunking.{
  Text, max_chunk_chars, clamp_size, split_paragraphs, take_chars, windows, join_blank, Chunker,
  new_chunker, flush, append_para, add_para, add_paras, finish_chunks, chunk_text,
}

abbrev pub Fits : ℕ → List Text → Type 0
Fits size = All (λ c. length c ≤ size)

Fits-append : (size : ℕ) (xs ys : List Text) → Fits size xs → Fits size ys → Fits size (xs ++ ys)
Fits-append size [] ys h g = g
Fits-append size (x ∷ xs) ys h g = (h.0, Fits-append size xs ys h.1 g)

length-take_chars :
    (n : ℕ) (s : Text) → (length (take_chars n s) ≤ n) × (length (take_chars n s) ≤ length s)
unfolding take_chars
length-take_chars zero s = (omega arith, omega arith)
length-take_chars (suc n) [] = (omega arith, omega arith)
length-take_chars (suc n) (c ∷ s) =
    let h = length-take_chars n s in (omega (arith, h.0), omega (arith, h.1))

windows-Fits : (fuel size step : ℕ) (s : Text) → Fits size (windows fuel size step s)
unfolding windows
windows-Fits zero size step s = tt
windows-Fits (suc fuel) size step [] = tt
windows-Fits (suc fuel) size step (c ∷ s) =
    ((length-take_chars size (c ∷ s)).0, windows-Fits fuel size step _)

clamp_size-bounds : (n : ℤ) → (50 ≤ clamp_size n) × (clamp_size n ≤ max_chunk_chars)
unfolding clamp_size
clamp_size-bounds (pos n) = (omega arith, omega arith)
clamp_size-bounds (negsuc n) = (omega arith, omega arith)

-- The length that a paragraph adds to a buffer.
join-snoc :
    (q : Text) (ps : List Text) (p : Text)
    → length (join_blank ((q ∷ ps) ++ p ∷ [])) ≡ length (join_blank (q ∷ ps)) + length p + 2
unfolding join_blank
join-snoc q [] p = omega (arith, length-append q (10 ∷ 10 ∷ p))
join-snoc q (r ∷ ps) p = omega (
  arith,
  join-snoc r ps p,
  length-append q (10 ∷ 10 ∷ join_blank (r ∷ ps)),
  length-append q (10 ∷ 10 ∷ join_blank ((r ∷ ps) ++ p ∷ [])),
)

abbrev Counted : List Text → ℕ → Type 0
Counted [] n = n ≡ 0
Counted (q ∷ ps) n = n ≡ length (join_blank (q ∷ ps)) + 2

-- The chunks fit, and the buffer fits and is counted.
record Tidy (size : ℕ) (k : Chunker) : Type 0 where
  fits : Fits size k.chunks
  counted : Counted k.buf k.buf_len
  room : length (join_blank k.buf) ≤ size

-- A chunker that has just been flushed.
record Flushed (size : ℕ) (k : Chunker) : Type 0 where
  fits : Fits size k.chunks
  empty : (k.buf ≡ []) × (k.buf_len ≡ 0)

flush-Flushed :
    (size : ℕ) (chunks buf : List Text) (n : ℕ)
    → Tidy size (record { chunks = chunks; buf = buf; buf_len = n })
    → Flushed size (flush (record { chunks = chunks; buf = buf; buf_len = n }))
unfolding flush
flush-Flushed size chunks [] n h = record { fits = h.fits; empty = (refl, h.counted) }
flush-Flushed size chunks (p ∷ ps) n h = record {
  fits =
      Fits-append size chunks _ h.fits
        (omega (arith, h.room, length-strip (join_blank (p ∷ ps))), tt);
  empty = (refl, refl);
}

-- A paragraph is appended to a buffer that has room for it.
append-Tidy :
    (size : ℕ) (para : Text) (chunks buf : List Text) (n : ℕ)
    → Tidy size (record { chunks = chunks; buf = buf; buf_len = n })
    → length para ≤ size
    → (buf ≡ []) ⊎ (n + length para + 2 ≤ size)
    → Tidy size (append_para para (record { chunks = chunks; buf = buf; buf_len = n }))
unfolding append_para
append-Tidy size para chunks [] n h le free =
    unfold join_blank in record { fits = h.fits; counted = omega (arith, h.counted); room = le }
append-Tidy size para chunks (q ∷ ps) n h le (inl e) = cc
append-Tidy size para chunks (q ∷ ps) n h le (inr free) = record {
  fits = h.fits;
  counted = omega (arith, h.counted, join-snoc q ps para);
  room = omega (arith, h.counted, join-snoc q ps para);
}

windows-Tidy :
    (size fuel step : ℕ) (para : Text) (chunks buf : List Text) (n : ℕ)
    → Flushed size (record { chunks = chunks; buf = buf; buf_len = n })
    → Tidy size (record { chunks = chunks ++ windows fuel size step para; buf = buf; buf_len = n })
windows-Tidy size fuel step para chunks buf n h =
    subst
      (λ b.
        Tidy size (record { chunks = chunks ++ windows fuel size step para; buf = b; buf_len = n }))
      (sym h.empty.0)
      (unfold join_blank in
        record {
          fits = Fits-append size chunks _ h.fits (windows-Fits fuel size step para);
          counted = h.empty.1;
          room = omega arith;
        })

Flushed-Tidy :
    (size : ℕ) (chunks buf : List Text) (n : ℕ)
    → Flushed size (record { chunks = chunks; buf = buf; buf_len = n })
    → Tidy size (record { chunks = chunks; buf = buf; buf_len = n })
Flushed-Tidy size chunks buf n h =
    subst (λ b. Tidy size (record { chunks = chunks; buf = b; buf_len = n })) (sym h.empty.0)
      (unfold join_blank in record { fits = h.fits; counted = h.empty.1; room = omega arith })

add_para-Tidy :
    (size overlap : ℕ) (para : Text) (k : Chunker)
    → Tidy size k
    → Tidy size (add_para size overlap para k)
unfolding add_para
add_para-Tidy size overlap para k h =
    let flushed = flush-Flushed size k.chunks k.buf k.buf_len h in
    if_ind_eq (Tidy size) (ltb size (length para)) (λ e. windows-Tidy size _ _ para _ _ _ flushed)
      (λ e.
        if_ind_eq (Tidy size) (ltb size (k.buf_len + length para + 2))
          (λ f.
            append-Tidy size para _ _ _ (Flushed-Tidy size _ _ _ flushed) (ltb-false→le _ _ e)
              (inl flushed.empty.0))
          (λ f. append-Tidy size para _ _ _ h (ltb-false→le _ _ e) (inr (ltb-false→le _ _ f))))

add_paras-Tidy :
    (size overlap : ℕ) (ps : List Text) (k : Chunker)
    → Tidy size k
    → Tidy size (add_paras size overlap ps k)
unfolding add_paras
add_paras-Tidy size overlap [] k h = h
add_paras-Tidy size overlap (p ∷ ps) k h =
    add_paras-Tidy size overlap ps _ (add_para-Tidy size overlap p k h)

-- Not empty, and no longer than `size`.
abbrev pub IsChunk : ℕ → Text → Type 0
IsChunk size c = (1 ≤ length c) × (length c ≤ size)

take_chars-positive : (n c : ℕ) (s : Text) → 1 ≤ n → 1 ≤ length (take_chars n (c ∷ s))
unfolding take_chars
take_chars-positive zero c s h = omega arith
take_chars-positive (suc n) c s h = omega arith

finish_chunks-IsChunk :
    (size : ℕ) (cs : List Text) → Fits size cs → All (IsChunk size) (finish_chunks cs)
unfolding finish_chunks
finish_chunks-IsChunk size [] h = tt
finish_chunks-IsChunk size ([] ∷ cs) h = finish_chunks-IsChunk size cs h.1
finish_chunks-IsChunk size ((c ∷ s) ∷ cs) h = (
  (
    take_chars-positive max_chunk_chars c s (omega arith),
    omega (arith, (length-take_chars max_chunk_chars (c ∷ s)).1, h.0),
  ),
  finish_chunks-IsChunk size cs h.1,
)

new_chunker-Tidy : (size : ℕ) → Tidy size new_chunker
unfolding join_blank
new_chunker-Tidy size = record { fits = tt; counted = refl; room = omega arith }

-- Every chunk of a text has at least one character and at most as many as the chunk size asked
-- for, which is taken to be at least 50 and at most the ceiling of the vector store.
pub chunk_text-IsChunk :
    (text : Text) (chunk_size overlap : ℤ)
    → All (IsChunk (clamp_size chunk_size)) (chunk_text text chunk_size overlap)
      × (50 ≤ clamp_size chunk_size)
      × (clamp_size chunk_size ≤ max_chunk_chars)
unfolding chunk_text
chunk_text-IsChunk text chunk_size overlap = (
  finish_chunks-IsChunk (clamp_size chunk_size) _
      (flush-Flushed (clamp_size chunk_size) _ _ _ (
        add_paras-Tidy (clamp_size chunk_size) _ (split_paragraphs text) new_chunker
          (new_chunker-Tidy _))).fits,
  (clamp_size-bounds chunk_size).0,
  (clamp_size-bounds chunk_size).1,
)
