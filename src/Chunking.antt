-- ===== src/Chunking.antt =====
-- citra_workflow/utils/chunking.py: texts, as lists of characters, are cut into chunks.
pub mod Bounds
use citra_flows.Common.{
  ℕ, zero, suc, ◌+◌, ◌-◌, min, max, Bool, true, false, ◌&&◌, Option, none, some, List, [], ◌∷◌,
  ◌++◌, length, is_empty, ltb, leb, nat_eq, if◌then◌else◌,
}
use citra_flows.Value.{ℤ, pos, negsuc, strip}

abbrev pub Text : Type 0
Text = List ℕ

abbrev pub max_chunk_chars : ℕ
max_chunk_chars = 65000

-- `max(50, min(int(chunk_size), MAX_CHUNK_CHARS))`.
unfoldable pub clamp_size : ℤ → ℕ
clamp_size (pos n) = max 50 (min n max_chunk_chars)
clamp_size (negsuc n) = 50

-- `max(0, min(int(overlap), chunk_size - 1))`.
unfoldable pub clamp_overlap : ℕ → ℤ → ℕ
clamp_overlap size (pos n) = min n (size - 1)
clamp_overlap size (negsuc n) = 0

-- `text.replace("\r\n", "\n")`.
unfoldable pub unix_lines : Text → Text
unix_lines [] = []
unix_lines (c ∷ []) = c ∷ []
unix_lines (c ∷ d ∷ s) = elim (nat_eq c 13 && nat_eq d 10) [
  | true ↦ 10 ∷ unix_lines s
  | false ↦ c ∷ unix_lines (d ∷ s)
]

-- `split("\n\n")`, with the part read so far.
unfoldable pub split_blank : Text → Text → List Text
split_blank part [] = part ∷ []
split_blank part (c ∷ []) = (part ++ c ∷ []) ∷ []
split_blank part (c ∷ d ∷ s) = elim (nat_eq c 10 && nat_eq d 10) [
  | true ↦ part ∷ split_blank [] s
  | false ↦ split_blank (part ++ c ∷ []) (d ∷ s)
]

abbrev keep_nonempty : Text → List Text → List Text
keep_nonempty [] parts = parts
keep_nonempty (c ∷ s) parts = (c ∷ s) ∷ parts

unfoldable pub strip_all : List Text → List Text
strip_all [] = []
strip_all (p ∷ parts) = keep_nonempty (strip p) (strip_all parts)

-- `_split_paragraphs`.
unfoldable pub split_paragraphs : Text → List Text
split_paragraphs text = strip_all (split_blank [] (unix_lines text))

-- `s[:n]` and `s[n:]`.
unfoldable pub take_chars : ℕ → Text → Text
take_chars zero s = []
take_chars (suc n) [] = []
take_chars (suc n) (c ∷ s) = c ∷ take_chars n s

unfoldable pub drop_chars : ℕ → Text → Text
drop_chars zero s = s
drop_chars (suc n) [] = []
drop_chars (suc n) (c ∷ s) = drop_chars n s

-- The windows over a long paragraph, from its rest at `start`. A window moves on by at least one
-- character, so a fuel of the paragraph's length is enough.
unfoldable pub windows : ℕ → ℕ → ℕ → Text → List Text
windows zero size step rest = []
windows (suc fuel) size step [] = []
windows (suc fuel) size step (c ∷ s) =
    take_chars size (c ∷ s) ∷ windows fuel size step (drop_chars step (c ∷ s))

-- `"\n\n".join(buf)`.
unfoldable pub join_blank : List Text → Text
join_blank [] = []
join_blank (p ∷ []) = p
join_blank (p ∷ q ∷ ps) = p ++ 10 ∷ 10 ∷ join_blank (q ∷ ps)

-- The local variables of `chunk_text`.
pub record Chunker : Type 0 where
  pub chunks : List Text
  pub buf : List Text
  pub buf_len : ℕ

abbrev pub new_chunker : Chunker
new_chunker = record { chunks = []; buf = []; buf_len = 0 }

abbrev flush_buf : Chunker → List Text → Chunker
flush_buf k [] = k
flush_buf k (p ∷ ps) = record {
  chunks = k.chunks ++ strip (join_blank (p ∷ ps)) ∷ [];
  buf = [];
  buf_len = 0;
}

-- `flush`.
unfoldable pub flush : Chunker → Chunker
flush k = flush_buf k k.buf

unfoldable pub append_para : Text → Chunker → Chunker
append_para para k = record k { buf = k.buf ++ para ∷ []; buf_len = k.buf_len + length para + 2 }

-- One turn of `for para in paragraphs`.
unfoldable pub add_para : ℕ → ℕ → Text → Chunker → Chunker
add_para size overlap para k =
    if ltb size (length para)
    then (let k1 = flush k in
        record k1 { chunks = k1.chunks ++ windows (length para) size (size - overlap) para })
    else if ltb size (k.buf_len + length para + 2)
    then append_para para (flush k)
    else append_para para k

unfoldable pub add_paras : ℕ → ℕ → List Text → Chunker → Chunker
add_paras size overlap [] k = k
add_paras size overlap (p ∷ ps) k = add_paras size overlap ps (add_para size overlap p k)

-- `[c[:MAX_CHUNK_CHARS] for c in chunks if c]`.
unfoldable pub finish_chunks : List Text → List Text
finish_chunks [] = []
finish_chunks ([] ∷ cs) = finish_chunks cs
finish_chunks ((c ∷ s) ∷ cs) = take_chars max_chunk_chars (c ∷ s) ∷ finish_chunks cs

-- `chunk_text`.
unfoldable pub chunk_text : Text → ℤ → ℤ → List Text
chunk_text text chunk_size overlap =
    let size = clamp_size chunk_size in
    let over = clamp_overlap size overlap in
    finish_chunks (flush (add_paras size over (split_paragraphs text) new_chunker)).chunks
