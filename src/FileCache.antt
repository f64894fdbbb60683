-- ===== src/FileCache.antt =====
-- services/sandbox_file_cache.py, the files of S3 that a host keeps. A file and its metadata are known
-- by the key in S3, whose digest names them; times are numbers of clock ticks.
pub mod Evicted
pub mod Current
pub mod Stale
use citra_flows.Common.{
  ℕ, ◌+◌, ◌-◌, String, Bool, true, false, not, ◌&&◌, ◌||◌, Option, none, some, List, [], ◌∷◌,
  length, select, ltb, leb, nat_eq, if◌then◌else◌, ◌==◌,
}

-- The metadata; the fields "ts" and "key" are never read.
pub record Meta : Type 0 where
  pub etag : String
  pub size : ℕ

-- A file with its time of access.
pub record File : Type 0 where
  pub path : String
  pub content : List ℕ
  pub atime : ℕ

pub record Disk : Type 0 where
  pub bins : List File
  pub metas : List (String × Meta)

-- What S3 and the disk answer to a call: the ETag, `none` where `head_object` raises or has none; the
-- content, `none` where `get_object` raises; and whether the file and the metadata can be written.
pub record Answers : Type 0 where
  pub head : Option String
  pub body : Option (List ℕ)
  pub bin_writes : Bool
  pub fallback_writes : Bool
  pub meta_writes : Bool
  pub now : ℕ

-- A file in the cache and whether it was there, a file beside the cache, the error of S3, or that of
-- the write beside the cache.
pub data Fetched : Type 0 where
  from_cache : List ℕ → Bool → Fetched
  fallback : List ℕ → Fetched
  download_failed : Fetched
  write_failed : Fetched

unfoldable pub find_file : String → List File → Option File
find_file path [] = none
find_file path (f ∷ fs) = if f.path == path then some f else find_file path fs

unfoldable pub find_meta : String → List (String × Meta) → Option Meta
find_meta path [] = none
find_meta path (e ∷ es) = if e.0 == path then some e.1 else find_meta path es

abbrev pub is_other_file : String → File → Bool
is_other_file path f = not (f.path == path)

-- `os.replace` of the file.
unfoldable pub write_bin : String → List ℕ → ℕ → Disk → Disk
write_bin path content now d = record d {
  bins =
      record { path = path; content = content; atime = now } ∷ select (is_other_file path) d.bins;
}

-- `_write_meta`, whose errors are only logged.
unfoldable pub write_meta : Bool → String → Meta → Disk → Disk
write_meta false path m d = d
write_meta true path m d = record d { metas = (path, m) ∷ d.metas }

-- `os.utime`.
unfoldable pub touch : ℕ → File → Disk → Disk
touch now f d = record d { bins = record f { atime = now } ∷ select (is_other_file f.path) d.bins }

-- The test for a hit: the ETag and the size are those of the metadata.
unfoldable pub hit : Option String → Option Meta → Option File → Option File
hit (some etag) (some m) (some f) =
    if not (etag == "") && m.etag == etag && nat_eq (length f.content) m.size then some f else none
hit etag m f = none

abbrev pub text_of : Option String → String
text_of none = ""
text_of (some s) = s

unfoldable pub store_file : Answers → String → List ℕ → Disk → Fetched × Disk
store_file a path content d =
    let m : Meta = record { etag = text_of a.head; size = length content } in
    if a.bin_writes
    then (
      from_cache content false,
      write_meta a.meta_writes path m (write_bin path content a.now d),
    )
    else (if a.fallback_writes then fallback content else write_failed, d)

unfoldable pub download : Answers → String → Option (List ℕ) → Disk → Fetched × Disk
download a path none d = (download_failed, d)
download a path (some content) d = store_file a path content d

unfoldable pub fetch : Answers → String → Option File → Disk → Fetched × Disk
fetch a path (some f) d = (from_cache f.content true, touch a.now f d)
fetch a path none d = download a path a.body d

unfoldable pub get_or_download : Answers → String → Disk → Fetched × Disk
get_or_download a path d =
    fetch a path (hit a.head (find_meta path d.metas) (find_file path d.bins)) d

-- The order of `entries.sort()`: by time of access, then by size.
abbrev pub is_before : File → File → Bool
is_before f g =
    ltb f.atime g.atime || (nat_eq f.atime g.atime && leb (length f.content) (length g.content))

unfoldable pub insert_file : File → List File → List File
insert_file f [] = f ∷ []
insert_file f (g ∷ gs) =
    let rest = insert_file f gs in if is_before f g then f ∷ g ∷ gs else g ∷ rest

unfoldable pub sort_files : List File → List File
sort_files [] = []
sort_files (f ∷ fs) = insert_file f (sort_files fs)

abbrev pub total_size : List File → ℕ
total_size [] = 0
total_size (f ∷ fs) = length f.content + total_size fs

-- What removing a file comes to: it and its metadata go; it goes, but an OSError follows and its
-- size is not taken off the total; or it stays.
pub data Removal : Type 0 where
  removed bin_only kept : Removal

abbrev pub is_counted : Removal → Bool
is_counted removed = true
is_counted r = false

abbrev pub is_kept : Removal → Bool
is_kept kept = true
is_kept r = false

-- The files that stay: the oldest go until the rest fits.
unfoldable pub evict_from : ℕ → (String → Removal) → ℕ → List File → List File
evict_from limit removal total [] = []
evict_from limit removal total (f ∷ fs) =
    let left = if is_counted (removal f.path) then total - length f.content else total in
    let rest = evict_from limit removal left fs in
    if leb total limit then f ∷ fs else if is_kept (removal f.path) then f ∷ rest else rest

-- `_evict_if_oversize`.
unfoldable pub evict_if_oversize : ℕ → (String → Removal) → List File → List File
evict_if_oversize limit removal files =
    let total = total_size files in
    if leb total limit then files else evict_from limit removal total (sort_files files)
