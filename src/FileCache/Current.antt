-- ===== src/FileCache/Current.antt =====
-- What a caller of the cache gets.

use mathlib.Core.Option.{some-injective, none-ne-some}
use citra_flows.Common.{
  then_of, else_of, ℕ, String, true, false, not, ◌&&◌, Option, none, some, List, [], ◌∷◌, length,
  select, nat_eq, ◌≡◌, if◌then◌else◌, inl, inr, refl, sym, ap, subst, ◌∙◌, arith, Bool-cases,
  Option-cases, if_ind, ==_iff, ◌==◌,
}
use citra_flows.FileCache.{
  Meta, File, Disk, Answers, Fetched, from_cache, fallback, download_failed, write_failed,
  find_file, find_meta, is_other_file, write_bin, write_meta, touch, text_of, hit, store_file,
  download, fetch, get_or_download,
}

abbrev pub served : Fetched → Option (List ℕ)
served (from_cache c h) = some c
served (fallback c) = some c
served download_failed = none
served write_failed = none

find_file-other :
    (p q : String) (fs : List File)
    → (p == q) ≡ false
    → find_file q (select (is_other_file p) fs) ≡ find_file q fs
unfolding find_file
find_file-other p q [] n = refl
find_file-other p q (f ∷ fs) n =
    ground (arith, n, find_file-other p q fs n, ==_iff p q, ==_iff f.path p, ==_iff f.path q)

module _ (content_of : String → List ℕ) where
  -- A file with the size that its metadata tells has the content of its ETag.
  abbrev pub IsCoherent : List File → List (String × Meta) → Type 0
  IsCoherent bins metas =
      (path : String) (m : Meta) (f : File)
      → find_meta path metas ≡ some m
      → find_file path bins ≡ some f
      → (m.etag == "") ≡ false
      → length f.content ≡ m.size
      → f.content ≡ content_of m.etag

  -- A file written with its metadata.
  write-IsCoherent :
      (path e : String) (now : ℕ) (bins : List File) (metas : List (String × Meta))
      → IsCoherent bins metas
      → IsCoherent
          (record { path = path; content = content_of e; atime = now }
            ∷ select (is_other_file path) bins)
          ((path, record { etag = e; size = length (content_of e) }) ∷ metas)
  unfolding find_file find_meta
  write-IsCoherent path e now bins metas inv q m f =
      let m0 : Meta = record { etag = e; size = length (content_of e) } in
      let f0 : File = record { path = path; content = content_of e; atime = now } in
      let others = select (is_other_file path) bins in
      elim (Bool-cases (path == q)) [
        | inl t ↦ λ em ef ne le.
            let qm = some-injective _ _ (then_of _ t em) in
            let qf = some-injective _ _ (then_of _ t ef) in
            ap (λ (x : File). x.content) (sym qf) ∙ ap (λ (x : Meta). content_of x.etag) qm
        | inr n ↦ λ em ef ne le.
            inv q m f (else_of _ n em) (sym (find_file-other path q bins n) ∙ else_of _ n ef) ne le
      ]

  -- A hit moves the file's time of access.
  touch-IsCoherent :
      (path : String) (now : ℕ) (f : File) (bins : List File) (metas : List (String × Meta))
      → find_file path bins ≡ some f
      → f.path ≡ path
      → IsCoherent bins metas
      → IsCoherent (record f { atime = now } ∷ select (is_other_file f.path) bins) metas
  unfolding find_file
  touch-IsCoherent path now f bins metas found at inv q m g em =
      let f0 : File = record f { atime = now } in
      let others = select (is_other_file f.path) bins in
      elim (Bool-cases (f.path == q)) [
        | inl t ↦ λ ef ne le.
            let qf = some-injective _ _ (then_of _ t ef) in
            let same : path ≡ q = sym at ∙ (==_iff f.path q).0 t in
            let content : f.content ≡ g.content = ap (λ (x : File). x.content) qf in
            sym content
            ∙ inv q m f em (ap (λ k. find_file k bins) (sym same) ∙ found) ne
                (ap length content ∙ le)
        | inr n ↦
            λ ef ne le. inv q m g em (sym (find_file-other f.path q bins n) ∙ else_of _ n ef) ne le
      ]

find_file-path :
    (path : String) (fs : List File) (f : File) → find_file path fs ≡ some f → f.path ≡ path
unfolding find_file
find_file-path path [] f e = absurd (none-ne-some _ e)
find_file-path path (g ∷ gs) f e = elim (Bool-cases (g.path == path)) [
  | inl t ↦
      let q = some-injective _ _ (then_of _ t e) in
      ap (λ (x : File). x.path) (sym q) ∙ (==_iff g.path path).0 t
  | inr n ↦ find_file-path path gs f (else_of _ n e)
]

-- What a hit has compared.
pub record Hits (o : Option String) (om : Option Meta) (of : Option File) (f : File) : Type 0 where
  pub etag : String
  pub meta : Meta
  pub asked : o ≡ some etag
  pub known : om ≡ some meta
  pub found : of ≡ some f
  pub named : (etag == "") ≡ false
  pub same : meta.etag ≡ etag
  pub sized : length f.content ≡ meta.size

hit-Hits :
    (o : Option String) (om : Option Meta) (of : Option File) (f : File)
    → hit o om of ≡ some f
    → Hits o om of f
unfolding hit
hit-Hits none om of f e = absurd (none-ne-some _ e)
hit-Hits (some etag) none of f e = absurd (none-ne-some _ e)
hit-Hits (some etag) (some m) none f e = absurd (none-ne-some _ e)
hit-Hits (some etag) (some m) (some g) f e =
    elim (Bool-cases (not (etag == "") && m.etag == etag && nat_eq (length g.content) m.size)) [
      | inl t ↦
          let q = some-injective _ _ (then_of _ t e) in
          record {
            etag = etag;
            meta = m;
            asked = refl;
            known = refl;
            found = ap some q;
            named = ground (arith, t);
            same = (==_iff m.etag etag).0 (ground (arith, t));
            sized = subst (λ (x : File). length x.content ≡ m.size) q (ground (arith, t));
          }
      | inr n ↦ absurd (none-ne-some _ (else_of _ n e))
    ]

-- A call that serves the content, and keeps the cache coherent.
abbrev pub Serves : (String → List ℕ) → List ℕ → Fetched × Disk → Type 0
Serves content_of content r = (served r.0 ≡ some content) × IsCoherent content_of r.1.bins r.1.metas

-- Where an ETag names one content, the cache is coherent, S3 answers with the ETag of the object and
-- with that content, metadata can be written, and so can a file beside the cache, a caller gets the
-- object's content, from the cache or not, and the cache stays coherent.
pub get_or_download-current :
    (content_of : String → List ℕ) (a : Answers) (path e : String) (d : Disk)
    → IsCoherent content_of d.bins d.metas
    → a.head ≡ some e
    → a.body ≡ some (content_of e)
    → a.meta_writes ≡ true
    → a.fallback_writes ≡ true
    → Serves content_of (content_of e) (get_or_download a path d)
unfolding get_or_download fetch download store_file write_bin write_meta touch
get_or_download-current content_of a path e d inv h b w w2 =
    let ok = Serves content_of (content_of e) in
    elim (Option-cases (hit a.head (find_meta path d.metas) (find_file path d.bins))) [
      | inl n ↦
          subst (λ o. ok (fetch a path o d)) (sym n)
            (subst (λ o. ok (download a path o d)) (sym b)
              (if_ind ok a.bin_writes
                (subst
                  (λ x. Serves content_of (content_of e) (
                    from_cache (content_of e) false,
                    write_meta x path
                        (record { etag = text_of a.head; size = length (content_of e) })
                        (write_bin path (content_of e) a.now d),
                  ))
                  (sym w)
                  (
                    refl,
                    subst
                        (λ o.
                          IsCoherent content_of
                            (record { path = path; content = content_of e; atime = a.now }
                              ∷ select (is_other_file path) d.bins)
                            ((path, record { etag = text_of o; size = length (content_of e) })
                              ∷ d.metas))
                        (sym h) (write-IsCoherent content_of path e a.now d.bins d.metas inv),
                  ))
                (subst (λ x. ok (if x then fallback (content_of e) else write_failed, d)) (sym w2)
                  (refl, inv))))
      | inr f ↦
          let m = hit-Hits a.head (find_meta path d.metas) (find_file path d.bins) f.0 f.1 in
          let q : m.etag ≡ e = some-injective _ _ (sym m.asked ∙ h) in
          let same : f.0.content ≡ content_of e =
            inv path m.meta f.0 m.known m.found (ap (λ s. s == "") m.same ∙ m.named) m.sized
            ∙ ap content_of (m.same ∙ q) in
          subst (λ o. ok (fetch a path o d)) (sym f.1)
            (
              ap some same,
              touch-IsCoherent content_of path a.now f.0 d.bins d.metas m.found
                  (find_file-path path d.bins f.0 m.found) inv,
            )
    ]
