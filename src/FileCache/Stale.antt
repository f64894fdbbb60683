-- ===== src/FileCache/Stale.antt =====
-- A file whose metadata could not be written.
use citra_flows.Common.{
  ℕ, String, Bool, true, false, Option, none, some, List, ◌∷◌, length, select, ◌≡◌, refl, ap, ◌∙◌,
  arith, ==_iff, if◌then◌else◌, ◌==◌,
}
use citra_flows.FileCache.{
  Meta, File, Disk, Answers, Fetched, from_cache, fallback, write_failed, find_file, find_meta,
  is_other_file, write_bin, write_meta, text_of, hit, store_file, download, fetch, get_or_download,
}

hit-other :
    (e : String) (m : Meta) (of : Option File)
    → (m.etag == e) ≡ false
    → hit (some e) (some m) of ≡ none
unfolding hit
hit-other e m none n = refl
hit-other e m (some f) n = ground (arith, n)

hit-same :
    (m : Meta) (f : File)
    → (m.etag == "") ≡ false
    → length f.content ≡ m.size
    → hit (some m.etag) (some m) (some f) ≡ some f
unfolding hit
hit-same m f n e = ground (arith, n, e, ==_iff m.etag m.etag)

-- When an object of another ETag is downloaded and only its metadata cannot be written, the old
-- metadata stay beside the new file. Once the object has its old ETag again, the new file is served
-- for it as a hit, if it has the size of the old one.
pub get_or_download-stale :
    (a b : Answers) (path e : String) (m : Meta) (content : List ℕ) (d : Disk)
    → find_meta path d.metas ≡ some m
    → (m.etag == "") ≡ false
    → (m.etag == e) ≡ false
    → a.head ≡ some e
    → a.body ≡ some content
    → a.bin_writes ≡ true
    → a.meta_writes ≡ false
    → length content ≡ m.size
    → b.head ≡ some m.etag
    → (get_or_download b path (get_or_download a path d).1).0 ≡ from_cache content true
unfolding get_or_download fetch download store_file write_bin write_meta find_file
get_or_download-stale a b path e m content d known named other head body writes fails sized back =
    let new : File = record { path = path; content = content; atime = a.now } in
    let old : Meta = record { etag = text_of a.head; size = length content } in
    let first : (get_or_download a path d).1 ≡ write_bin path content a.now d =
      ap (λ o. (fetch a path (hit o (find_meta path d.metas) (find_file path d.bins)) d).1) head
      ∙ ap (λ o. (fetch a path (hit (some e) o (find_file path d.bins)) d).1) known
      ∙ ap (λ o. (fetch a path o d).1) (hit-other e m (find_file path d.bins) other)
      ∙ ap (λ o. (download a path o d).1) body
      ∙ ap
          (λ (w : Bool).
            let r : Fetched × Disk =
              if w
              then (
                from_cache content false,
                write_meta a.meta_writes path old (write_bin path content a.now d),
              )
              else (if a.fallback_writes then fallback content else write_failed, d) in
            r.1)
          writes
      ∙ ap (λ w. write_meta w path old (write_bin path content a.now d)) fails in
    let others = select (is_other_file path) d.bins in
    let found : find_file path (new ∷ others) ≡ some new =
      ap (λ b. if b then some new else find_file path others) ((==_iff path path).1 refl) in
    let later = write_bin path content a.now d in
    ap (λ x. (get_or_download b path x).0) first
    ∙ ap (λ o. (fetch b path (hit o (find_meta path d.metas) (find_file path later.bins)) later).0)
        back
    ∙ ap (λ o. (fetch b path (hit (some m.etag) o (find_file path later.bins)) later).0) known
    ∙ ap (λ o. (fetch b path (hit (some m.etag) (some m) o) later).0) found
    ∙ ap (λ o. (fetch b path o later).0) (hit-same m new named sized)
